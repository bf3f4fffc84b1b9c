-- ===== src/Service/Message.antt =====
-- A message that is sent: packages/openhands-agent-server/src/eventService.ts, sendMessage, from the
-- lookup of its id to the request of a run.
use smolpaws.Base.{
  ◌≡◌, refl, ◌∙◌, String, Bool, true, false, Option, some, List, [], ◌∷◌, ◌++◌, if◌then◌else◌,
  Bool-cases, inl, inr,
}
use smolpaws.Service.{Event, get_event}
use smolpaws.Service.Send.{EventLog, Sent, sent, duplicate_event, send_event, after_message}
use smolpaws.Service.Appended.{Answers, send-Answers, get_event-append}
use smolpaws.Service.Runs.{
  Phase, at_rest, at_top, waiting, preparing, executing, publishing, Runner, RunError, closing,
  limit_exceeded, already_running, Requested, started, refused, request_run,
}

-- The answer, or the error that sendMessage throws.
pub data Reply : Type 0 where
  answered : Event → Bool → Reply
  threw_duplicate : Reply
  threw_run : RunError → Reply

-- A run that is under way is to go on with the message; any other refusal is thrown.
unfoldable pub reply_to : Event → Bool → Requested → Runner × Reply
reply_to e created (started s) = (s, answered e created)
reply_to e created (refused already_running s) =
    (record s { rerun_requested = true }, answered e created)
reply_to e created (refused closing s) = (s, threw_run closing)
reply_to e created (refused limit_exceeded s) = (s, threw_run limit_exceeded)

-- After the append: a message of the user wakes the conversation, and a run is requested.
unfoldable pub after_send : Bool → Bool → Bool → Runner → Sent → Runner × Reply
unfolding reply_to request_run after_message
after_send is_user runs granted s duplicate_event = (s, threw_duplicate)
after_send is_user runs granted s (sent e created log) =
    let woken : Runner = record s { events = log; status = after_message is_user s.status } in
    if runs
    then reply_to e created (request_run false granted woken)
    else (woken, answered e created)

-- `seen` is the log at the lookup, `s.events` the log at the append.
unfoldable pub send_message :
    EventLog → Option String → Event → List Event → Bool → Bool → Bool → Runner → Runner × Reply
unfolding after_send send_event
send_message l id candidate seen is_user runs granted s =
    after_send is_user runs granted s (send_event l id candidate seen s.events)

-- The event with this flag, or the error of the run that was requested, where it was refused.
unfoldable pub IsReply : Event → Bool → Bool → Bool → Runner → Reply → Type 0
IsReply e created runs granted s (answered e' created') = (e' ≡ e) × (created' ≡ created)
IsReply e created runs granted s threw_duplicate = ⊥
IsReply e created runs granted s (threw_run closing) = (runs ≡ true) × (s.closing ≡ true)
IsReply e created runs granted s (threw_run limit_exceeded) =
    (runs ≡ true) × (s.phase ≡ at_rest) × (granted ≡ false)
IsReply e created runs granted s (threw_run already_running) = ⊥

pub record IsSent (e : Event) (created : Bool) (log : List Event) (runs granted : Bool) (s : Runner)
    (out : Runner × Reply) : Type 0 where
  pub stored : out.0.events ≡ log
  pub replied : IsReply e created runs granted s out.1

-- A request of a run, on the conversation as the append left it.
requested :
    (e : Event) (created granted : Bool) (s t : Runner) (p : Phase)
    → t.phase ≡ p
    → s.phase ≡ p
    → t.closing ≡ s.closing
    → IsSent e created t.events true granted s (reply_to e created (request_run false granted t))
unfolding reply_to request_run IsReply
requested e created granted s t p q r o = elim (Bool-cases t.closing) [
  | inl c ↦ rw (c, request_run, reply_to) (record { stored = refl; replied = (refl, rw (← o) c) })
  | inr c ↦ by_phase p q r c granted
]
  where
    by_phase :
        (p : Phase)
        → t.phase ≡ p
        → s.phase ≡ p
        → t.closing ≡ false
        → (granted : Bool)
        → IsSent e created t.events true granted s
            (reply_to e created (request_run false granted t))
    by_phase at_rest q r c true =
        rw (c, q, request_run, reply_to) (record { stored = refl; replied = (refl, refl) })
    by_phase at_rest q r c false =
        rw (c, q, request_run, reply_to) (record { stored = refl; replied = (refl, r, refl) })
    by_phase (at_top g h) q r c granted =
        rw (c, q, request_run, reply_to) (record { stored = refl; replied = (refl, refl) })
    by_phase (waiting g) q r c granted =
        rw (c, q, request_run, reply_to) (record { stored = refl; replied = (refl, refl) })
    by_phase (preparing g) q r c granted =
        rw (c, q, request_run, reply_to) (record { stored = refl; replied = (refl, refl) })
    by_phase (executing g) q r c granted =
        rw (c, q, request_run, reply_to) (record { stored = refl; replied = (refl, refl) })
    by_phase (publishing g h f) q r c granted =
        rw (c, q, request_run, reply_to) (record { stored = refl; replied = (refl, refl) })

after_send-IsSent :
    (e : Event) (created : Bool) (log : List Event) (is_user runs granted : Bool) (s : Runner)
    → IsSent e created log runs granted s (after_send is_user runs granted s (sent e created log))
unfolding after_send IsReply
after_send-IsSent e created log is_user true granted s =
    requested e created granted s
      (record s { events = log; status = after_message is_user s.status }) s.phase refl refl refl
after_send-IsSent e created log is_user false granted s = record {
  stored = refl;
  replied = (refl, refl);
}

-- Two sends with one id, the second on a later log.
pub record IsOnce (first : Event) (runs granted : Bool) (s : Runner) (out : Runner × Reply)
    (runs' granted' : Bool) (s' : Runner) (out' : Runner × Reply) : Type 0 where
  pub event : Event
  pub created : Bool
  pub found : get_event first.id out.0.events ≡ some event
  pub sent_first :
      IsSent event created (if created then s.events ++ first ∷ [] else s.events) runs granted s out
  pub sent_again : IsSent event false s'.events runs' granted' s' out'

once_lem :
    (l : EventLog) (first again : Event) (later : List Event)
    (is_user runs granted is_user' runs' granted' : Bool) (s s' : Runner) (r : Sent)
    → again.id ≡ first.id
    → Answers first.id first s.events r
    → let out = after_send is_user runs granted s r in
      IsOnce first runs granted s out runs' granted' s'
        (send_message l (some again.id) again (out.0.events ++ later) is_user' runs' granted' s')
unfolding send_message send_event
once_lem l first again later is_user runs granted is_user' runs' granted' s s' (sent e created log)
      same h =
    let a = after_send-IsSent e created log is_user runs granted s in
    let there_still : get_event first.id log ≡ some e = h.stored in
    let known : get_event again.id
          ((after_send is_user runs granted s (sent e created log)).0.events ++ later)
        ≡ some e =
      rw (a.stored, same) (get_event-append first.id log later there_still) in
    rw (known, send_message, send_event)
      (record {
        event = e;
        created = created;
        found = rw a.stored there_still;
        sent_first = record { stored = a.stored ∙ h.grown; replied = a.replied };
        sent_again = after_send-IsSent e false s'.events is_user' runs' granted' s';
      })
once_lem l first again later is_user runs granted is_user' runs' granted' s s' duplicate_event same
      h =
    absurd h

-- Two messages are sent with one id: the first, whatever others append between its lookup and its
-- append, and the second, which looks it up in a log that has grown since. The first is stored, or
-- the event that another sender stored under the id is; that event stands in the log. The second
-- appends nothing. Each answers with that event, the second with none created, or throws what the
-- request of a run throws: that the conversation is closing, or that it rested and the pool had no
-- slot. It throws nothing else, and with no run requested nothing at all, where the log and its
-- save do not fail but for a known id.
pub send_message-IsOnce :
    (l : EventLog) (first again : Event) (seen more later : List Event)
    (is_user runs granted is_user' runs' granted' : Bool) (s s' : Runner)
    → again.id ≡ first.id
    → s.events ≡ seen ++ more
    → IsOnce first runs granted s
        (send_message l (some first.id) first seen is_user runs granted s)
        runs'
        granted'
        s'
        (send_message l
          (some again.id)
          again
          ((send_message l (some first.id) first seen is_user runs granted s).0.events ++ later)
          is_user'
          runs'
          granted'
          s')
unfolding send_message
send_message-IsOnce l first again seen more later is_user runs granted is_user' runs' granted' s s'
      same at =
    once_lem l first again later is_user runs granted is_user' runs' granted' s s'
      (send_event l (some first.id) first seen s.events) same
      (rw at (send-Answers l first seen more))
