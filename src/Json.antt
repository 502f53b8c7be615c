-- ===== src/Json.antt =====
-- JSON documents as the services store them (JSONB columns, `dict[str, Any]`). The numbers are the
-- non-negative integers; the code modelled here reads no other number from a document.
use ovrly.Prelude.{ℕ, Bool, true, false, Option, none, some, String, str_eq, if◌then◌else◌}

mutual
  pub data Json : Type 0 where
    null : Json
    boolean : Bool → Json
    number : ℕ → Json
    text : String → Json
    array : Items → Json
    object : Document → Json

  pub data Items : Type 0 where
    nil : Items
    cons : Json → Items → Items

  pub data Document : Type 0 where
    empty : Document
    field : String → Json → Document → Document

-- `document.get(key)`
abbrev pub get_field : String → Document → Option Json
get_field k empty = none
get_field k (field j v d) = if str_eq j k then some v else get_field k d

-- Python's truth of a value.
abbrev pub truthy : Json → Bool
truthy null = false
truthy (boolean b) = b
truthy (number ℕ.zero) = false
truthy (number (ℕ.suc _)) = true
truthy (text String.[]) = false
truthy (text _) = true
truthy (array nil) = false
truthy (array (cons _ _)) = true
truthy (object empty) = false
truthy (object (field _ _ _)) = true

-- `column[key].as_integer()` of a nullable JSONB column, where it is no null.
abbrev pub integer_at : String → Option Document → Option ℕ
integer_at k none = none
integer_at k (some d) = elim (get_field k d) [ some (number n) ↦ some n | _ ↦ none ]

-- What the code takes from Python's `uuid` and `str`: `UUID(text)` (`none` where it raises
-- `ValueError`) and `str(value)` of a value that is no text.
pub record Codec : Type 0 where
  pub uuid : String → Option ℕ
  pub str : Option Json → String
  -- `int(value)` of a value that is no number (`none` where it raises)
  pub int : Json → Option ℕ
  -- `str(identifier)` of a UUID
  pub uuid_text : ℕ → String

-- `UUID(str(value))`
abbrev pub uuid_of : Codec → Option Json → Option ℕ
uuid_of c (some (text s)) = c.uuid s
uuid_of c v = c.uuid (c.str v)

-- `UUID(value)`, which raises on a value that is no text.
abbrev pub uuid_of_text : Codec → Option Json → Option ℕ
uuid_of_text c (some (text s)) = c.uuid s
uuid_of_text c _ = none
