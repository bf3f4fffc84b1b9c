-- ===== src/Ledger/Cursors.antt =====
-- The cursors of the WhatsApp ledger: apps/whatsapp/src/ledger.ts. A cursor that is negative acts
-- as zero, since sequences begin at one.
use Prim.Native.String.{◌++◌}
use smolpaws.Base.{
  ℕ, max, String, ◌&&◌, Option, none, some, List, [], ◌∷◌, ◌==◌, if◌then◌else◌, leb, select,
}
use smolpaws.Decimal.{decimal, parse_int}
use smolpaws.Ledger.{LedgerMessage, ProgressKind, Ledger, text_le, mark_messages, mark_one}

unfoldable pub get_state : String → List (String × String) → Option String
get_state key [] = none
get_state key ((k, v) ∷ rest) = let later = get_state key rest in if k == key then some v else later

unfoldable pub set_state : String → String → List (String × String) → List (String × String)
set_state key value [] = (key, value) ∷ []
set_state key value ((k, v) ∷ rest) =
    let later = set_state key value rest in if k == key then (key, value) ∷ rest else (k, v) ∷ later

-- `Number.parseInt(stored, 10) || 0`.
unfoldable pub read_cursor : String → ℕ
unfolding parse_int
read_cursor stored = elim (parse_int stored) [
  | none ↦ 0
  | some (negative, n) ↦ if negative then 0 else n
]

unfoldable pub max_seq_at_or_before : String → String → List LedgerMessage → ℕ
unfolding text_le
max_seq_at_or_before chat timestamp [] = 0
max_seq_at_or_before chat timestamp (m ∷ ms) =
    let rest = max_seq_at_or_before chat timestamp ms in
    if m.chat_jid == chat && text_le m.timestamp timestamp then max m.seq rest else rest

unfoldable pub up_to : String → ℕ → List LedgerMessage → List LedgerMessage
unfolding select
up_to chat seq ms = select (λ m. m.chat_jid == chat && leb m.seq seq) ms

unfoldable pub peek_dispatch_seq : String → Ledger → ℕ
unfolding get_state read_cursor
peek_dispatch_seq chat l = elim (get_state ("dispatch_seq:" ++ chat) l.relay_state) [
  | none ↦ 0
  | some stored ↦ read_cursor stored
]

unfoldable pub set_dispatch_seq : String → ℕ → Ledger → Ledger
unfolding up_to mark_messages peek_dispatch_seq set_state decimal
set_dispatch_seq chat seq l = record l {
  progress = mark_messages ProgressKind.dispatched (up_to chat seq l.messages) l.progress;
  relay_state =
      if leb (peek_dispatch_seq chat l) seq
      then set_state ("dispatch_seq:" ++ chat) (decimal seq) l.relay_state
      else l.relay_state;
}

unfoldable pub first_state : String → String → Ledger → Option String
unfolding get_state
first_state key other l = elim (get_state key l.relay_state) [
  | some v ↦ some v
  | none ↦ get_state other l.relay_state
]

unfoldable pub converted : String → Option String → List LedgerMessage → ℕ
unfolding max_seq_at_or_before
converted chat none ms = 0
converted chat (some timestamp) ms = max_seq_at_or_before chat timestamp ms

-- The cursor that is stored, or else that of a legacy timestamp, which is converted on the first
-- use.
unfoldable pub dispatch_seq_of : String → Option String → Ledger → ℕ × Ledger
unfolding read_cursor first_state converted set_dispatch_seq
dispatch_seq_of chat (some stored) l = (read_cursor stored, l)
dispatch_seq_of chat none l =
    let legacy = first_state ("dispatch_cursor:" ++ chat) "dispatch_cursor" l in
    let seq = converted chat legacy l.messages in (seq, set_dispatch_seq chat seq l)

unfoldable pub get_dispatch_seq : String → Ledger → ℕ × Ledger
unfolding get_state dispatch_seq_of
get_dispatch_seq chat l = dispatch_seq_of chat (get_state ("dispatch_seq:" ++ chat) l.relay_state) l

unfoldable pub last_agent_seq_of : String → Option String → Ledger → ℕ × Ledger
unfolding read_cursor get_state converted set_state decimal
last_agent_seq_of chat (some stored) l = (read_cursor stored, l)
last_agent_seq_of chat none l =
    let seq = converted chat (get_state ("last_agent_ts:" ++ chat) l.relay_state) l.messages in
    (
      seq,
      record l { relay_state = set_state ("last_agent_seq:" ++ chat) (decimal seq) l.relay_state },
    )

unfoldable pub get_last_agent_seq : String → Ledger → ℕ × Ledger
unfolding get_state last_agent_seq_of
get_last_agent_seq chat l =
    last_agent_seq_of chat (get_state ("last_agent_seq:" ++ chat) l.relay_state) l

unfoldable pub set_last_agent_seq : String → ℕ → Ledger → Ledger
unfolding up_to mark_messages set_state decimal
set_last_agent_seq chat seq l = record l {
  progress = mark_messages ProgressKind.seen (up_to chat seq l.messages) l.progress;
  relay_state = set_state ("last_agent_seq:" ++ chat) (decimal seq) l.relay_state;
}

unfoldable pub mark_command_seen : String → String → Ledger → Ledger
unfolding mark_one
mark_command_seen id chat l = record l { progress = mark_one ProgressKind.seen id chat l.progress }
