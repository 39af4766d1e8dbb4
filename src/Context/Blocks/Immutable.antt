-- ===== src/Context/Blocks/Immutable.antt =====
-- The text of a block never changes.
use lite_harness.Common.{
  ℕ, ◌≡◌, String, some, List, [], ◌∷◌, ◌++◌, Result, ok, err, arith, refl, find_by, find_by-append,
  eq_refl, eq_iff, Option-cases, inl, inr, if◌then◌else◌, ◌==◌,
}
use lite_harness.Context.Blocks.{
  ContextError, ContextBlock, BlockRow, block_id_of, put_block, fetch_exact,
}

-- What a fetch gave, and a first text where it gave none.
abbrev pub or_first : Result ContextError String → String → Result ContextError String
or_first (err e) first = ok first
or_first (ok text) first = ok text

-- If each row has the hash of its text, then after a put that returns every id gives the text that it
-- gave before, but for the id of the block where it gave none, which gives the block's text now; and
-- the text under the block's id has the hash of the block's text.
pub put_block-fetch_exact :
    (sha256 : String → String) (now : ℕ) (b : ContextBlock) (rows after : List BlockRow)
    → ((id : String) (row : BlockRow)
        → find_by block_id_of id rows ≡ some row
        → row.exact_sha256 ≡ sha256 row.block.exact_text)
    → put_block sha256 now b rows ≡ ok after
    → ((id : String)
        → fetch_exact id after ≡ (
            if b.id == id
            then or_first (fetch_exact id rows) b.exact_text
            else fetch_exact id rows))
      × ((text : String) × (fetch_exact b.id after ≡ ok text) × (sha256 text ≡ sha256 b.exact_text))
unfolding put_block fetch_exact
put_block-fetch_exact sha256 now b rows after hashed h =
    elim (Option-cases (find_by block_id_of b.id rows)) [
      | inl missing ↦
          let row : BlockRow = record {
            block = b;
            exact_sha256 = sha256 b.exact_text;
            created_at = now;
          } in
          let grown : after ≡ rows ++ row ∷ [] = ground (arith, missing) in
          (
            λ id. ground (
              arith,
              grown,
              missing,
              eq_iff b.id id,
              find_by-append block_id_of id rows (row ∷ []),
            ),
            (
              b.exact_text,
              ground (
                arith,
                missing,
                grown,
                eq_refl b.id,
                find_by-append block_id_of b.id rows (row ∷ []),
              ),
              refl,
            ),
          )
      | inr (row, found) ↦
          let same : after ≡ rows = ground (arith, found) in
          (
            λ id. ground (arith, same, found, eq_iff b.id id),
            (
              row.block.exact_text,
              ground (arith, same, found),
              ground (
                arith,
                hashed b.id row found,
                found,
                eq_iff row.exact_sha256 (sha256 b.exact_text),
              ),
            ),
          )
    ]
