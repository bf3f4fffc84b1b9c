-- ===== src/Relay/Events.antt =====
-- AgentEvent of src/coordinator/types.ts: an id, a kind and further JSON fields.
use smolpaws.Base.{String, Bool, false, Option, none, some, ◌==◌}
use smolpaws.Json.{Fields, get_field, as_string}

pub record Event : Type 0 where
  pub id : String
  pub kind : String
  pub fields : Fields

-- `typeof event.key === 'string' ? event.key : undefined`.
unfoldable pub text_of : Event → String → Option String
unfolding get_field as_string
text_of event key = as_string (get_field key event.fields)

-- `value === expected` for a value that may be anything.
abbrev pub is_text : String → Option String → Bool
is_text expected none = false
is_text expected (some s) = s == expected
