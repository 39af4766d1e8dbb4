-- ===== src/Store/Json.antt =====
-- JSON values, as the payloads of events and the arguments of tools hold them. Numbers are the
-- non-negative integers; a list of values or of fields is a type of the block.
use lite_harness.Common.{ℕ, Bool, String, Option, some, none, if◌then◌else◌, ◌==◌}

mutual
  pub data Json : Type 0 where
    null : Json
    boolean : Bool → Json
    number : ℕ → Json
    text : String → Json
    array : Items → Json
    object : Fields → Json

  pub data Items : Type 0 where
    no_items : Items
    item : Json → Items → Items

  pub data Fields : Type 0 where
    no_fields : Fields
    field : String → Json → Fields → Fields

-- `payload[key]`, with `none` for `undefined`.
abbrev pub get_field : String → Fields → Option Json
get_field k no_fields = none
get_field k (field j v fs) = if j == k then some v else get_field k fs

abbrev pub as_text : Option Json → Option String
as_text (some (text s)) = some s
as_text _ = none

-- `typeof payload[key] === "string" ? payload[key] : undefined`
abbrev pub text_field : String → Fields → Option String
text_field k fs = as_text (get_field k fs)
