-- ===== src/Context/Blocks.antt =====
-- Blocks of context and their store: packages/context/src/index.ts (`ContextStore`,
-- `ContextOptimizationGate`, `TenantContextRenderCache`). SHA-256 is a parameter, and so is the length
-- of a text. The times that a block may cover are left out.
pub mod Immutable
use Prim.Native.String.{compare}
use lite_harness.Common.{
  ℕ, ◌+◌, ◌-◌, zero, suc, String, Bool, true, false, ◌&&◌, ◌||◌, not, Option, some, none, List, [],
  ◌∷◌, ◌++◌, map, Result, ok, err, if◌then◌else◌, find_by, update_by, keep, length, includes, ltb,
  eqb, is_le, ◌==◌, concat_text,
}

pub data ContextBlockKind : Type 0 where
  instructions conversation tool_state source logs memory : ContextBlockKind

pub record ContextBlock : Type 0 where
  pub id : String
  pub kind : ContextBlockKind
  pub exact_text : String
  pub lossy_eligible : Bool
  pub sensitive : Bool
  pub provenance : Option String

pub record BlockRow : Type 0 where
  pub block : ContextBlock
  pub exact_sha256 : String
  pub created_at : ℕ

pub data ContextError : Type 0 where
  block_incomplete block_immutable block_not_found : ContextError

abbrev pub block_id_of : BlockRow → String
block_id_of r = r.block.id

-- A block of another kind than those of the type is refused by the source too.
unfoldable pub put_block :
    (String → String) → ℕ → ContextBlock → List BlockRow → Result ContextError (List BlockRow)
put_block sha256 now b rows =
    if b.id == "" || b.exact_text == ""
    then err block_incomplete
    else elim (find_by block_id_of b.id rows) [
      | none ↦
          ok (
            rows ++ record { block = b; exact_sha256 = sha256 b.exact_text; created_at = now } ∷ [])
      | some row ↦ if row.exact_sha256 == sha256 b.exact_text then ok rows else err block_immutable
    ]

unfoldable pub fetch_exact : String → List BlockRow → Result ContextError String
fetch_exact id rows = elim (find_by block_id_of id rows) [
  | none ↦ err block_not_found
  | some row ↦ ok row.block.exact_text
]

-- `ORDER BY created_at, id`
abbrev comes_before : BlockRow → BlockRow → Bool
comes_before a b =
    ltb a.created_at b.created_at
    || eqb a.created_at b.created_at && is_le (compare a.block.id b.block.id)

unfoldable pub insert_block : BlockRow → List BlockRow → List BlockRow
insert_block row [] = row ∷ []
insert_block row (x ∷ xs) =
    let rest = insert_block row xs in if comes_before row x then row ∷ x ∷ xs else x ∷ rest

unfoldable pub sort_blocks : List BlockRow → List BlockRow
sort_blocks [] = []
sort_blocks (x ∷ xs) = insert_block x (sort_blocks xs)

-- An empty provenance is absent.
abbrev listed : BlockRow → ContextBlock
listed row = record (row.block) {
  provenance = elim row.block.provenance [
    | none ↦ none
    | some p ↦ if p == "" then none else some p
  ];
}

unfoldable pub list_blocks : List BlockRow → List ContextBlock
list_blocks rows = map listed (sort_blocks rows)

pub record GatePolicy : Type 0 where
  pub enabled : Bool
  pub allowed_apps : List String
  pub allowed_models : List String
  pub killed_apps : List String
  pub killed_models : List String

unfoldable pub gate_allows : GatePolicy → String → String → Bool
gate_allows policy app_id model_id =
    policy.enabled
    && includes policy.allowed_apps app_id
    && includes policy.allowed_models model_id
    && not (includes policy.killed_apps app_id)
    && not (includes policy.killed_models model_id)

-- An entry of the cache, the least recently used first.
pub record CacheEntry : Type 0 where
  pub key : String
  pub images : List String

pub record RenderCache : Type 0 where
  pub max_entries : ℕ
  pub entries : List CacheEntry

abbrev pub entry_key : CacheEntry → String
entry_key e = e.key

-- The parts are joined by a separator.
abbrev pub context_cache_key : (String → String) → String → String → ContextBlock → String
context_cache_key sha256 tenant_id model_id b = concat_text tenant_id (
    concat_text "\0" (
      concat_text model_id
        (concat_text "\0" (concat_text b.id (concat_text "\0" (sha256 b.exact_text))))))

-- An entry that is read becomes the most recently used one.
unfoldable pub get_entry : String → RenderCache → RenderCache × Option (List String)
get_entry key c = elim (find_by entry_key key c.entries) [
  | none ↦ (c, none)
  | some e ↦
      (record c { entries = keep (λ x. not (x.key == key)) c.entries ++ e ∷ [] }, some e.images)
]

abbrev drop_entries : ℕ → List CacheEntry → List CacheEntry
drop_entries zero es = es
drop_entries (suc n) [] = []
drop_entries (suc n) (e ∷ es) = drop_entries n es

abbrev set_entry : CacheEntry → List CacheEntry → List CacheEntry
set_entry e es = elim (find_by entry_key e.key es) [
  | none ↦ es ++ e ∷ []
  | some _ ↦ update_by entry_key e.key (λ _. e) es
]

-- An entry that is set again keeps its place; the oldest ones go when there are too many.
unfoldable pub put_entry : String → List String → RenderCache → RenderCache
put_entry key images c =
    let entries = set_entry (record { key = key; images = images }) c.entries in
    record c { entries = drop_entries (length entries - c.max_entries) entries }
