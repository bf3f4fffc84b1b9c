-- ===== src/Ledger/Grown.antt =====
-- What the WhatsApp ledger keeps as it grows: apps/whatsapp/src/ledger.ts.
use smolpaws.Base.{
  ℕ, ◌≤◌, ◌≡◌, ap, String, Bool, true, false, ◌&&◌, Option, List, [], ◌∷◌, ◌==◌, leb, arith,
  Bool-cases, inl, inr, Has, here, there, Has-select, select-Has, eq_iff,
}
use smolpaws.Ledger.{
  LedgerMessage, StoreMessageInput, Progress, ProgressKind, Ledger, touch_chat, update_chat_name,
  is_key, store_message, is_pending, insert_by_seq, order_by_seq, is_new, get_new_messages,
}
use smolpaws.Ledger.Cursors.{
  up_to, set_dispatch_seq, get_dispatch_seq, set_last_agent_seq, get_last_agent_seq,
  mark_command_seen,
}
use smolpaws.Ledger.Marked.{
  both_eq, is_marked, mark_one-is_marked, mark_messages-is_marked, mark_messages-dispatched,
  dispatch-is_marked, agent-is_marked,
}

pub data Op : Type 0 where
  store : StoreMessageInput → Op
  touch : String → String → Option String → Op
  rename : String → String → String → Op
  set_dispatch : String → ℕ → Op
  read_dispatch : String → Op
  set_agent : String → ℕ → Op
  read_agent : String → Op
  consume : String → String → Op

unfoldable pub apply : Op → Ledger → Ledger
unfolding store_message touch_chat update_chat_name set_dispatch_seq get_dispatch_seq
    set_last_agent_seq get_last_agent_seq mark_command_seen
apply (store i) l = store_message i l
apply (touch jid timestamp name) l = touch_chat jid timestamp name l
apply (rename now jid name) l = update_chat_name now jid name l
apply (set_dispatch chat seq) l = set_dispatch_seq chat seq l
apply (read_dispatch chat) l = (get_dispatch_seq chat l).1
apply (set_agent chat seq) l = set_last_agent_seq chat seq l
apply (read_agent chat) l = (get_last_agent_seq chat l).1
apply (consume id chat) l = mark_command_seen id chat l

unfoldable pub apply_all : List Op → Ledger → Ledger
unfolding apply
apply_all [] l = l
apply_all (op ∷ ops) l = apply_all ops (apply op l)

-- No operation takes a mark back.
apply-is_marked :
    (op : Op) (l : Ledger) (id chat : String)
    → is_marked id chat l.progress ≡ true
    → is_marked id chat (apply op l).progress ≡ true
unfolding apply store_message touch_chat update_chat_name set_dispatch_seq get_dispatch_seq
    set_last_agent_seq get_last_agent_seq mark_command_seen
apply-is_marked (store i) l id chat h = ground arith
apply-is_marked (touch jid timestamp name) l id chat h = h
apply-is_marked (rename now jid name) l id chat h = h
apply-is_marked (set_dispatch c seq) l id chat h =
    mark_messages-is_marked ProgressKind.dispatched (up_to c seq l.messages) id chat l.progress h
apply-is_marked (read_dispatch c) l id chat h = dispatch-is_marked c _ l id chat h
apply-is_marked (set_agent c seq) l id chat h =
    mark_messages-is_marked ProgressKind.seen (up_to c seq l.messages) id chat l.progress h
apply-is_marked (read_agent c) l id chat h = agent-is_marked c _ l id chat h
apply-is_marked (consume i c) l id chat h =
    mark_one-is_marked ProgressKind.seen i c id chat l.progress h

apply_all-is_marked :
    (ops : List Op) (l : Ledger) (id chat : String)
    → is_marked id chat l.progress ≡ true
    → is_marked id chat (apply_all ops l).progress ≡ true
unfolding apply_all
apply_all-is_marked [] l id chat h = h
apply_all-is_marked (op ∷ ops) l id chat h =
    apply_all-is_marked ops (apply op l) id chat (apply-is_marked op l id chat h)

Has-insert :
    (m : LedgerMessage) (ns : List LedgerMessage) {n : LedgerMessage}
    → Has n (insert_by_seq m ns)
    → Has n (m ∷ ns)
unfolding insert_by_seq
Has-insert m [] h = h
Has-insert m (k ∷ ns) {n} h = elim (Bool-cases (leb m.seq k.seq)) [
  | inl q ↦ rw (q, insert_by_seq) at h
  | inr q ↦ shift (λ r. Has-insert m ns r) (rw (q, insert_by_seq) at h)
]
  where
    swap : Has n (m ∷ ns) → Has n (m ∷ k ∷ ns)
    swap (here e) = here e
    swap (there h) = there (there h)

    shift :
        (Has n (insert_by_seq m ns) → Has n (m ∷ ns))
        → Has n (k ∷ insert_by_seq m ns)
        → Has n (m ∷ k ∷ ns)
    shift f (here e) = there (here e)
    shift f (there h) = swap (f h)

Has-order : (ms : List LedgerMessage) {n : LedgerMessage} → Has n (order_by_seq ms) → Has n ms
unfolding order_by_seq
Has-order [] h = h
Has-order (m ∷ ms) {n} h = into (λ r. Has-order ms r) (Has-insert m (order_by_seq ms) h)
  where
    into : (Has n (order_by_seq ms) → Has n ms) → Has n (m ∷ order_by_seq ms) → Has n (m ∷ ms)
    into f (here e) = here e
    into f (there h) = there (f h)

not_new :
    (like : String → String → Bool) (own : String) (chats : List String) (after : ℕ)
    (ps : List Progress) (m : LedgerMessage)
    → is_new like own chats after ps m ≡ true
    → is_marked m.id m.chat_jid ps ≡ false
unfolding is_new is_pending is_marked
not_new like own chats after ps m h = ground arith

-- Once the dispatch cursor of a chat was moved to a message or past it, that message is never
-- returned as new again, whatever is stored, replayed, read or moved later, cursors set back
-- included.
pub dispatched_stays :
    (like : String → String → Bool) (own : String) (chats : List String) (after : ℕ) (l : Ledger)
    (chat : String) (seq : ℕ) (ops : List Op) (m n : LedgerMessage)
    → Has m l.messages
    → m.chat_jid ≡ chat
    → m.seq ≤ seq
    → Has n (get_new_messages like own chats after (apply_all ops (set_dispatch_seq chat seq l)))
    → is_key m.id m.chat_jid n ≡ false
unfolding get_new_messages set_dispatch_seq is_key
dispatched_stays like own chats after l chat seq ops m n stored same low returned =
    let moved = set_dispatch_seq chat seq l in
    let end = apply_all ops moved in
    let low_enough : (m.chat_jid == chat && leb m.seq seq) ≡ true =
      ground (arith, eq_iff m.chat_jid chat) in
    let mark = mark_messages-dispatched (up_to chat seq l.messages) l.progress (
      unfold up_to in
      select-Has (λ k. k.chat_jid == chat && leb k.seq seq) l.messages stored low_enough) in
    let kept = apply_all-is_marked ops moved m.id m.chat_jid mark in
    let (inside, new) = Has-select _ end.messages (Has-order _ returned) in
    let unmarked = not_new like own chats after end.progress n new in
    elim (Bool-cases (n.id == m.id && n.chat_jid == m.chat_jid)) [
      | inr q ↦ q
      | inl q ↦
          let (a, b) = both_eq n.id m.id n.chat_jid m.chat_jid q in
          absurd (
            cc (
              ap (λ i. is_marked i n.chat_jid end.progress) a,
              ap (λ c. is_marked m.id c end.progress) b,
              unmarked,
              kept,
            ))
    ]
