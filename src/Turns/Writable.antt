-- ===== src/Turns/Writable.antt =====
-- The turns that a file keeps as they are, apps/agent-server/src/runner/turnState.ts: what the
-- reader would trim, drop or reorder does not occur in them.
use smolpaws.Base.{◌≤◌, ◌≡◌, String, false, true, Option, none, some, List, [], ◌∷◌, All, ◌==◌}
use smolpaws.Json.{Json}
use smolpaws.Text.{trim}
use smolpaws.Turns.{TurnMessage, Turn, TurnState}
use smolpaws.Turns.Persist.{is_text_content, is_empty, Dates, stands_after, past_sequences}

-- The text is not empty, and trimming changes nothing.
abbrev pub IsTrimmed : String → Type 0
IsTrimmed s = (trim s ≡ s) × ((s == "") ≡ false)

abbrev pub IsTrimmedOption : Option String → Type 0
IsTrimmedOption none = Unit {0}
IsTrimmedOption (some s) = IsTrimmed s

abbrev pub IsText : Json → Type 0
IsText j = is_text_content j ≡ true

abbrev pub IsContent : List Json → Type 0
IsContent js = All IsText js × (is_empty js ≡ false)

abbrev pub IsContentOption : Option (List Json) → Type 0
IsContentOption none = Unit {0}
IsContentOption (some js) = IsContent js

pub record IsWritableMessage (m : TurnMessage) : Type 0 where
  pub named : IsTrimmed m.id
  pub keyed : IsTrimmed m.idempotency_key
  pub dated : (m.accepted_at == "") ≡ false
  pub content : IsContent m.content
  pub extended : IsContentOption m.extended_content
  pub event : IsTrimmedOption m.event_id

pub record IsWritableTurn (t : Turn) : Type 0 where
  pub named : IsTrimmed t.id
  pub numbered : 1 ≤ t.sequence
  pub started : (t.started_at == "") ≡ false
  pub updated : (t.updated_at == "") ≡ false
  pub start : IsTrimmedOption t.start_event_id
  pub end : IsTrimmedOption t.end_event_id
  pub reply : IsTrimmedOption t.final_reply_event_id
  pub code : IsTrimmedOption t.error_code
  pub detail : IsTrimmedOption t.error_detail
  pub owner : IsTrimmedOption t.delivery_owner_id
  pub messages : All IsWritableMessage t.messages

-- No turn stands after its successor.
abbrev pub IsChronological : Dates → List Turn → Type 0
IsChronological d [] = Unit {0}
IsChronological d (t ∷ []) = Unit {0}
IsChronological d (t ∷ u ∷ ts) = (stands_after d t u ≡ false) × IsChronological d (u ∷ ts)

pub record IsWritable (d : Dates) (s : TurnState) : Type 0 where
  pub each : All IsWritableTurn s.turns
  pub ordered : IsChronological d s.turns
  pub fresh : past_sequences d 1 s.turns ≤ s.next_sequence
