-- ===== src/Network.antt =====
-- src/network-errors.ts: which failures of the network are transient. An error is the value of its
-- fields; `lower` is the language's `toLowerCase`.
use smolpaws.Base.{
  String, Bool, true, Option, none, some, List, [], ◌∷◌, any_where, ◌==◌, ◌||◌, ◌≡◌, refl,
}
use smolpaws.Text.{starts_with, includes}
use smolpaws.Json.{Json, string, object, Fields, end, field, get_field, as_record, as_string}

abbrev pub transient_codes : List String
transient_codes = "UND_ERR_SOCKET" ∷ "ECONNRESET" ∷ "ETIMEDOUT" ∷ "ECONNABORTED" ∷ "EPIPE" ∷ []

abbrev pub transient_messages : List String
transient_messages =
    "terminated" ∷ "other side closed" ∷ "socket hang up" ∷ "socket disconnected" ∷ "network socket"
    ∷ []

abbrev or_else : Option String → Option String → String
or_else (some a) b = a
or_else none (some b) = b
or_else none none = ""

-- The error's own code, or its cause's.
unfoldable pub code_of : Fields → String
unfolding get_field as_record as_string
code_of error =
    or_else (as_string (get_field "code" error))
      (as_string (get_field "code" (as_record (get_field "cause" error))))

unfoldable pub is_transient_network_error : (String → String) → Option Json → Bool
unfolding as_record get_field as_string any_where includes code_of
is_transient_network_error lower err =
    let error = as_record err in
    let message : String = elim (as_string (get_field "message" error)) [
      | none ↦ ""
      | some m ↦ lower m
    ] in
    any_where (λ c. c == code_of error) transient_codes
    || any_where (λ part. includes part message) transient_messages

dropped_socket :
    is_transient_network_error
      (λ m. m)
      (some (object (field "message" (string "read: socket hang up") end)))
    ≡ true
unfolding is_transient_network_error as_record get_field as_string any_where includes code_of
    starts_with
dropped_socket = refl
