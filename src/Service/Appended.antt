-- ===== src/Service/Appended.antt =====
-- Idempotent appends: packages/openhands-agent-server/src/eventService.ts, sendMessage.
use smolpaws.Base.{
  ◌≡◌, refl, String, Bool, none, some, List, [], ◌∷◌, ◌++◌, ◌==◌, if◌then◌else◌, find_first, arith,
  Bool-cases, Option-cases, inl, inr, eq_refl,
}
use smolpaws.Service.{Event, get_event}
use smolpaws.Service.Send.{EventLog, Sent, sent, duplicate_event, append_candidate, send_event}

pub get_event-append :
    (id : String) (es more : List Event) {e : Event}
    → get_event id es ≡ some e
    → get_event id (es ++ more) ≡ some e
unfolding get_event
get_event-append id [] more h = absurd (cc)
get_event-append id (f ∷ es) more {e} h = elim (Bool-cases (f.id == id)) [
  | inl q ↦ rw (q, get_event, find_first) (rw (q, get_event, find_first) at h)
  | inr q ↦
      rw (q, get_event, find_first)
        (get_event-append id es more (rw (q, get_event, find_first) at h))
]

get_event-append_new :
    (es : List Event) (e : Event)
    → get_event e.id es ≡ none
    → get_event e.id (es ++ e ∷ []) ≡ some e
unfolding get_event
get_event-append_new [] e h = rw (eq_refl e.id, get_event, find_first) refl
get_event-append_new (f ∷ es) e h = ground (arith, get_event-append_new es e)

-- The event of the answer is the one that the log has under the id, and the log grew by the
-- candidate just when it was created.
pub record IsAnswer (id : String) (candidate : Event) (now : List Event) (e : Event)
    (created : Bool) (log : List Event) : Type 0 where
  pub stored : get_event id log ≡ some e
  pub grown : log ≡ (if created then now ++ candidate ∷ [] else now)

abbrev pub Answers : String → Event → List Event → Sent → Type 0
Answers id candidate now (sent e created log) = IsAnswer id candidate now e created log
Answers id candidate now duplicate_event = ⊥

append-Answers :
    (l : EventLog) (candidate : Event) (now : List Event)
    → Answers candidate.id candidate now (append_candidate l candidate now)
unfolding append_candidate
append-Answers l candidate now = elim (Option-cases (get_event candidate.id now)) [
  | inl q ↦
      rw (l.append_new candidate now q, append_candidate)
        (record { stored = get_event-append_new now candidate q; grown = refl })
  | inr (e, q) ↦
      rw (l.append_known candidate e now q, append_candidate, q)
        (record { stored = q; grown = refl })
]

pub send-Answers :
    (l : EventLog) (candidate : Event) (seen more : List Event)
    → Answers candidate.id candidate
        (seen ++ more)
        (send_event l (some candidate.id) candidate seen (seen ++ more))
unfolding send_event
send-Answers l candidate seen more = elim (Option-cases (get_event candidate.id seen)) [
  | inl q ↦ rw (q, send_event) (append-Answers l candidate (seen ++ more))
  | inr (e, q) ↦
      rw (q, send_event)
        (record { stored = get_event-append candidate.id seen more q; grown = refl })
]
