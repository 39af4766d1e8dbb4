-- ===== src/Context/Compiler.antt =====
-- The compiler of the context: packages/context/src/index.ts (`ConservativeContextCompiler`). The
-- renderer is a parameter. The reads of the cache come first, in the order of the blocks, as in the
-- source, where none waits; the renders are taken to end in that order too, so that the writes of the
-- cache follow in it.
pub mod Exact
use lite_harness.Common.{
  ℕ, String, Bool, true, false, ◌&&◌, ◌||◌, not, Option, some, none, List, [], ◌∷◌, Result, ok, err,
  if◌then◌else◌, all, includes, ltb, concat_text,
}
use lite_harness.Context.Blocks.{
  ContextBlock, ContextBlockKind, logs, memory, GatePolicy, gate_allows, RenderCache, get_entry,
  put_entry, context_cache_key, BlockRow, list_blocks,
}

pub data Representation : Type 0 where
  as_exact_text : String → Representation
  as_images : List String → Representation

pub record RenderedBlock : Type 0 where
  pub id : String
  pub kind : ContextBlockKind
  pub content : Representation

pub record CompileScope : Type 0 where
  pub app_id : String
  pub tenant_id : String
  pub model_capabilities : List String

-- What a compilation depends on: `render` gives the images, or the one that it returns alone, and
-- fails with `none`.
pub record Compilation : Type 0 where
  pub conservative : Bool
  pub enabled_models : List String
  pub gate : Option GatePolicy
  pub scope : Option CompileScope
  pub model_id : String
  pub sha256 : String → String
  pub render : ContextBlock → Option (List String)
  pub is_data_image : String → Bool
  pub text_length : String → ℕ

abbrev has_vision : Option CompileScope → Bool
has_vision none = false
has_vision (some s) = includes s.model_capabilities "vision"

abbrev gate_lets : Option GatePolicy → Option CompileScope → String → Bool
gate_lets none scope model_id = true
gate_lets (some policy) none model_id = false
gate_lets (some policy) (some s) model_id = gate_allows policy s.app_id model_id

unfoldable pub may_render : Compilation → Bool
may_render c =
    c.conservative
    && includes c.enabled_models c.model_id
    && has_vision c.scope
    && gate_lets c.gate c.scope c.model_id

abbrev pub is_log_or_memory : ContextBlockKind → Bool
is_log_or_memory logs = true
is_log_or_memory memory = true
is_log_or_memory _ = false

-- Whether a block is shown as its text at once.
unfoldable pub stays_text : Compilation → ContextBlock → Bool
stays_text c b =
    not (may_render c)
    || not b.lossy_eligible
    || b.sensitive
    || ltb (c.text_length b.exact_text) 1_024
    || not (is_log_or_memory b.kind)

abbrev pub as_text : ContextBlock → RenderedBlock
as_text b = record { id = b.id; kind = b.kind; content = as_exact_text b.exact_text }

abbrev pub is_empty : List String → Bool
is_empty [] = true
is_empty (x ∷ xs) = false

-- `!images.length || !images.every(...)`
abbrev pub are_images : Compilation → List String → Bool
are_images c images = not (is_empty images) && all c.is_data_image images

-- The images of a block, if they are what the renderer must return.
abbrev shown : Compilation → ContextBlock → Option (List String) → RenderedBlock
shown c b none = as_text b
shown c b (some images) =
    if are_images c images
    then record { id = b.id; kind = b.kind; content = as_images images }
    else as_text b

-- A block, with what the cache had for it.
unfoldable pub render_block : Compilation → Option (List String) → ContextBlock → RenderedBlock
render_block c cached b =
    if stays_text c b
    then as_text b
    else shown c b (elim cached [ some images ↦ some images | none ↦ c.render b ])

-- The cache is that of the scope, if there are both.
abbrev lookup :
    Compilation → Option RenderCache → ContextBlock → Option RenderCache × Option (List String)
lookup c none b = (none, none)
lookup c (some cache) b = elim c.scope [
  | none ↦ (some cache, none)
  | some s ↦
      let (after, found) = get_entry (context_cache_key c.sha256 s.tenant_id c.model_id b) cache in
      (some after, found)
]

abbrev read_cache :
    Compilation → Option RenderCache → ContextBlock → Option RenderCache × Option (List String)
read_cache c cache b = if stays_text c b then (cache, none) else lookup c cache b

abbrev kept_images : Representation → Option (List String)
kept_images (as_exact_text s) = none
kept_images (as_images images) = some images

abbrev remember :
    Compilation
    → ContextBlock
    → Option (List String)
    → Option CompileScope
    → Option RenderCache
    → Option RenderCache
remember c b (some images) (some s) (some cache) =
    some (put_entry (context_cache_key c.sha256 s.tenant_id c.model_id b) images cache)
remember c b _ _ cache = cache

-- A block that was rendered anew is put into the cache.
abbrev write_cache :
    Compilation
    → Option (List String)
    → ContextBlock
    → RenderedBlock
    → Option RenderCache
    → Option RenderCache
write_cache c (some _) b r cache = cache
write_cache c none b r cache = remember c b (kept_images r.content) c.scope cache

-- A block, with what was read of the cache for it.
pub record Pending : Type 0 where
  pub block : ContextBlock
  pub cached : Option (List String)

unfoldable pub read_all :
    Compilation → Option RenderCache → List ContextBlock → Option RenderCache × List Pending
read_all c cache [] = (cache, [])
read_all c cache (b ∷ bs) =
    let (after, found) = read_cache c cache b in
    let (end, rest) = read_all c after bs in (end, record { block = b; cached = found } ∷ rest)

unfoldable pub render_all :
    Compilation → Option RenderCache → List Pending → Option RenderCache × List RenderedBlock
render_all c cache [] = (cache, [])
render_all c cache (p ∷ ps) =
    let r = render_block c p.cached p.block in
    let (end, rest) = render_all c (write_cache c p.cached p.block r cache) ps in (end, r ∷ rest)

-- `compile`, with the cache after it.
unfoldable pub compile :
    Compilation → Option RenderCache → List BlockRow → Option RenderCache × List RenderedBlock
compile c cache rows =
    let (after, ps) = read_all c cache (list_blocks rows) in render_all c after ps
