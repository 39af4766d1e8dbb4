-- ===== src/Tests/Context.antt =====
-- The theorems on contexts at three blocks.
use lite_harness.Common.{
  ℕ, ◌≡◌, ◌==◌, refl, String, true, false, some, none, List, [], ◌∷◌, ok, if◌then◌else◌, find_by,
  arith,
}
use lite_harness.Context.Blocks.{
  ContextBlock, BlockRow, logs, source, RenderCache, block_id_of, put_block, fetch_exact,
  list_blocks, sort_blocks, insert_block, gate_allows, put_entry, get_entry,
}
use lite_harness.Context.Blocks.Immutable.{put_block-fetch_exact, or_first}
use lite_harness.Context.Compiler.{
  Compilation, as_images, as_exact_text, may_render, stays_text, render_block, read_all, render_all,
  compile,
}

abbrev log : ContextBlock
log = record {
  id = "b1";
  kind = logs;
  exact_text = "a long log";
  lossy_eligible = true;
  sensitive = false;
  provenance = none;
}

abbrev secret : ContextBlock
secret = record log { id = "b2"; sensitive = true; exact_text = "a secret" }

abbrev row_at : ℕ → ContextBlock → BlockRow
row_at now b = record { block = b; exact_sha256 = b.exact_text; created_at = now }

abbrev rows : List BlockRow
rows = row_at 1 log ∷ row_at 0 secret ∷ []

abbrev compilation : Compilation
compilation = record {
  conservative = true;
  enabled_models = "m" ∷ [];
  gate = some (record {
    enabled = true;
    allowed_apps = "app" ∷ [];
    allowed_models = "m" ∷ [];
    killed_apps = [];
    killed_models = [];
  });
  scope = some (record { app_id = "app"; tenant_id = "ten"; model_capabilities = "vision" ∷ [] });
  model_id = "m";
  sha256 = λ s. s;
  render = λ _. some ("data:image/png;base64,AA" ∷ []);
  is_data_image = λ _. true;
  text_length = λ _. 2_000;
}

abbrev cache : RenderCache
cache = record { max_entries = 2; entries = [] }

compiles :
    (compile compilation (some cache) rows).1
    ≡ record { id = "b2"; kind = logs; content = as_exact_text "a secret" }
      ∷ record { id = "b1"; kind = logs; content = as_images ("data:image/png;base64,AA" ∷ []) }
      ∷ []
unfolding compile list_blocks sort_blocks insert_block read_all render_all render_block stays_text
    may_render gate_allows put_entry get_entry
compiles = refl

abbrev new_block : ContextBlock
new_block = record log { id = "b3"; kind = source; exact_text = "code" }

abbrev grown : List BlockRow
grown = row_at 1 log ∷ row_at 0 secret ∷ row_at 2 new_block ∷ []

put_new : put_block (λ s. s) 2 new_block rows ≡ ok grown
unfolding put_block
put_new = refl

rows_hashed :
    (id : String) (row : BlockRow)
    → find_by block_id_of id rows ≡ some row
    → row.exact_sha256 ≡ row.block.exact_text
rows_hashed id row h = ground arith

put_block-fetch_exact_example :
    ((id : String)
      → fetch_exact id grown
        ≡ (if "b3" == id then or_first (fetch_exact id rows) "code" else fetch_exact id rows))
    × ((text : String) × (fetch_exact "b3" grown ≡ ok text) × (text ≡ "code"))
put_block-fetch_exact_example =
    put_block-fetch_exact (λ s. s) 2 new_block rows grown rows_hashed put_new
