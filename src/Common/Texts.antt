-- ===== src/Common/Texts.antt =====
-- Texts: what the source writes with `+` and templates.
use Prim.Native.String.{String, ◌++◌}

-- `left + right`
abbrev pub concat_text : String → String → String
concat_text left right = left ++ right
