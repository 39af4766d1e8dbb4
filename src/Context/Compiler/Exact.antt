-- ===== src/Context/Compiler/Exact.antt =====
-- What a compilation may show of a block.
use lite_harness.Common.{Bool, true, false, ◌&&◌, not, List, [], ◌∷◌, ltb, ◌==◌}
use lite_harness.Context.Blocks.{ContextBlock}
use lite_harness.Context.Compiler.{
  Compilation, RenderedBlock, Representation, as_exact_text, as_images, may_render, are_images,
  is_log_or_memory, Pending,
}

-- Images stand only for a block that may be shown so: in a compilation that may render, of a block that
-- is eligible, not sensitive, long, and of the logs or the memory. All else is the exact text.
abbrev pub is_allowed : Compilation → ContextBlock → Representation → Bool
is_allowed c b (as_exact_text s) = s == b.exact_text
is_allowed c b (as_images images) =
    may_render c
    && b.lossy_eligible
    && not b.sensitive
    && not (ltb (c.text_length b.exact_text) 1_024)
    && is_log_or_memory b.kind
    && are_images c images

-- The blocks of a compilation, each the block that it stands for.
abbrev pub all_allowed : Compilation → List ContextBlock → List RenderedBlock → Bool
all_allowed c [] [] = true
all_allowed c (b ∷ bs) (r ∷ rs) = r.id == b.id && is_allowed c b r.content && all_allowed c bs rs
all_allowed c _ _ = false

abbrev pending_block : Pending → ContextBlock
pending_block p = p.block
