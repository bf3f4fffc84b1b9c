-- ===== src/Json.antt =====
-- JSON values as the relay reads them: the payload of a work row and the fields of an agent event.
-- `JSON.parse` and `JSON.stringify` belong to the language; a payload is carried as its value.
use smolpaws.Base.{ℕ, String, Bool, Option, none, some, ◌==◌, if◌then◌else◌}

mutual
  pub data Json : Type 0 where
    null : Json
    boolean : Bool → Json
    number : ℕ → Json
    string : String → Json
    array : Items → Json
    object : Fields → Json

  pub data Items : Type 0 where
    nil : Items
    cons : Json → Items → Items

  pub data Fields : Type 0 where
    end : Fields
    field : String → Json → Fields → Fields

-- `fields[key]`; a key that is absent reads as `undefined`.
unfoldable pub get_field : String → Fields → Option Json
get_field key end = none
get_field key (field k v fields) = if k == key then some v else get_field key fields

-- `(value ?? {}) as Record<string, unknown>`: what has no fields reads as the empty record.
unfoldable pub as_record : Option Json → Fields
as_record (some (object fields)) = fields
as_record _ = end

-- `typeof value === 'string' ? value : undefined`.
unfoldable pub as_string : Option Json → Option String
as_string (some (string s)) = some s
as_string _ = none
