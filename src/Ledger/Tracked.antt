-- ===== src/Ledger/Tracked.antt =====
-- Which messages of the WhatsApp ledger are marked: apps/whatsapp/src/ledger.ts.
use Prim.Native.String.{◌++◌ as ◌<>◌}
use smolpaws.Base.{
  ℕ, ◌+◌, ◌≡◌, refl, subst, String, Bool, true, ◌&&◌, ◌||◌, Option, none, some, List, [], ◌∷◌, ◌++◌,
  ◌==◌, if◌then◌else◌, any_where, map, arith, Bool-cases, ◌⊎◌, inl, inr, Has, here, there,
  not-Has-nil, Has-select, eq_refl, &&-left,
}
use smolpaws.Ledger.{
  LedgerMessage, StoreMessageInput, Progress, ProgressKind, Ledger, touch_chat, update_chat_name,
  max_seq, is_key, replayed, ingested, store_message, mark_one, mark_messages,
}
use smolpaws.Ledger.Cursors.{
  up_to, set_dispatch_seq, get_dispatch_seq, set_last_agent_seq, get_last_agent_seq,
  mark_command_seen, dispatch_seq_of, last_agent_seq_of, converted, first_state,
}
use smolpaws.Ledger.Marked.{is_marked, mark_one-from, is_dispatch, both_eq}
use smolpaws.Ledger.Grown.{
  Op, store, touch, rename, set_dispatch, read_dispatch, set_agent, read_agent, consume, apply,
  apply_all,
}

abbrev pub is_stored : String → String → List LedgerMessage → Bool
is_stored id chat ms = any_where (is_key id chat) ms

-- Only stored messages are marked as dispatched.
abbrev pub IsTracked : Ledger → Type 0
IsTracked l =
    (id chat : String) → is_marked id chat l.progress ≡ true → is_stored id chat l.messages ≡ true

-- Whether the messages are all stored ones.
abbrev AllStored : List LedgerMessage → List LedgerMessage → Type 0
AllStored ms all = (m : LedgerMessage) → Has m ms → is_stored m.id m.chat_jid all ≡ true

marks_stored :
    (kind : ProgressKind) (ms all : List LedgerMessage) (ps : List Progress)
    → AllStored ms all
    → ((id chat : String) → is_marked id chat ps ≡ true → is_stored id chat all ≡ true)
    → (id chat : String) → is_marked id chat (mark_messages kind ms ps) ≡ true
    → is_stored id chat all ≡ true
unfolding mark_messages
marks_stored kind [] all ps a k id chat h = k id chat h
marks_stored kind (m ∷ ms) all ps a k id chat h =
    marks_stored kind ms all (mark_one kind m.id m.chat_jid ps) (λ n q. a n (there q)) first id chat
      h
  where
    either :
        (i c : String)
        → is_marked i c ps ≡ true ⊎ ((m.id ≡ i) × (m.chat_jid ≡ c))
        → is_stored i c all ≡ true
    either i c (inl q) = k i c q
    either i c (inr q) =
        subst (λ (x : String). is_stored x c all ≡ true) q.0
          (subst (λ (y : String). is_stored m.id y all ≡ true) q.1 (a m (here refl)))

    split :
        (i c : String)
        → (is_marked i c ps || (m.id == i && m.chat_jid == c && is_dispatch kind)) ≡ true
        → is_marked i c ps ≡ true ⊎ ((m.id ≡ i) × (m.chat_jid ≡ c))
    split i c e = elim (Bool-cases (is_marked i c ps)) [
      | inl q ↦ inl q
      | inr q ↦
          let key : (m.id == i && m.chat_jid == c && is_dispatch kind) ≡ true = rw q at e in
          inr (both_eq m.id i m.chat_jid c (&&-left (m.id == i && m.chat_jid == c) _ key))
    ]

    first :
        (i c : String)
        → is_marked i c (mark_one kind m.id m.chat_jid ps) ≡ true
        → is_stored i c all ≡ true
    first i c e = either i c (split i c (mark_one-from kind m.id m.chat_jid i c ps e))

Has-is_stored :
    (ms : List LedgerMessage) (m : LedgerMessage) → Has m ms → is_stored m.id m.chat_jid ms ≡ true
unfolding any_where is_key
Has-is_stored [] m h = absurd (not-Has-nil h)
Has-is_stored (n ∷ ms) m (here e) = rw e (ground (arith, eq_refl n.id, eq_refl n.chat_jid))
Has-is_stored (n ∷ ms) m (there h) = ground (arith, Has-is_stored ms m h)

up_to-AllStored : (c : String) (seq : ℕ) (ms : List LedgerMessage) → AllStored (up_to c seq ms) ms
unfolding up_to
up_to-AllStored c seq ms m h = Has-is_stored ms m (Has-select _ ms h).0

replay_keeps :
    (i : StoreMessageInput) (id chat : String) (ms : List LedgerMessage)
    → is_stored id chat ms ≡ true
    → is_stored id chat (map (λ m. if is_key i.id i.chat_jid m then replayed i m else m) ms) ≡ true
unfolding any_where is_key replayed
replay_keeps i id chat [] h = h
replay_keeps i id chat (m ∷ ms) h = ground (arith, replay_keeps i id chat ms)

append_keeps :
    (id chat : String) (ms : List LedgerMessage) (n : LedgerMessage)
    → is_stored id chat ms ≡ true
    → is_stored id chat (ms ++ n ∷ []) ≡ true
unfolding any_where is_key
append_keeps id chat [] n h = absurd (cc)
append_keeps id chat (m ∷ ms) n h = ground (arith, append_keeps id chat ms n)

store_progress :
    (i : StoreMessageInput) (l : Ledger) (id chat : String)
    → is_marked id chat (store_message i l).progress ≡ true
    → is_marked id chat l.progress ≡ true
unfolding store_message
store_progress i l id chat h = ground arith

store-is_stored :
    (i : StoreMessageInput) (l : Ledger) (id chat : String)
    → is_stored id chat l.messages ≡ true
    → is_stored id chat (store_message i l).messages ≡ true
unfolding store_message
store-is_stored i l id chat h = elim (Bool-cases (any_where (is_key i.id i.chat_jid) l.messages)) [
  | inl q ↦ rw (q, store_message) (replays l.messages h)
  | inr q ↦ rw (q, store_message) (appends l.messages h)
]
  where
    replays :
        (ms : List LedgerMessage)
        → is_stored id chat ms ≡ true
        → is_stored id chat (map (λ m. if is_key i.id i.chat_jid m then replayed i m else m) ms)
          ≡ true
    replays ms h = replay_keeps i id chat ms h

    appends :
        (ms : List LedgerMessage)
        → is_stored id chat ms ≡ true
        → is_stored id chat (ms ++ ingested (max_seq l.messages + 1) i ∷ []) ≡ true
    appends ms h = append_keeps id chat ms (ingested (max_seq l.messages + 1) i) h

dispatch-IsTracked :
    (c : String) (seq : ℕ) (l : Ledger) → IsTracked l → IsTracked (set_dispatch_seq c seq l)
unfolding set_dispatch_seq
dispatch-IsTracked c seq l v =
    marks_stored ProgressKind.dispatched (up_to c seq l.messages) l.messages l.progress
      (up_to-AllStored c seq l.messages) v

read_dispatch-IsTracked :
    (c : String) (o : Option String) (l : Ledger)
    → IsTracked l
    → IsTracked (dispatch_seq_of c o l).1
unfolding dispatch_seq_of
read_dispatch-IsTracked c (some stored) l v = v
read_dispatch-IsTracked c none l v =
    dispatch-IsTracked c
      (converted c (first_state ("dispatch_cursor:" <> c) "dispatch_cursor" l) l.messages) l v

read_agent-IsTracked :
    (c : String) (o : Option String) (l : Ledger)
    → IsTracked l
    → IsTracked (last_agent_seq_of c o l).1
unfolding last_agent_seq_of
read_agent-IsTracked c (some stored) l v = v
read_agent-IsTracked c none l v = v

consumed :
    (i c id chat : String) (ps : List Progress)
    → is_marked id chat (mark_one ProgressKind.seen i c ps) ≡ true
    → is_marked id chat ps ≡ true
consumed i c id chat ps h = ground (arith, mark_one-from ProgressKind.seen i c id chat ps h)

apply-IsTracked : (op : Op) (l : Ledger) → IsTracked l → IsTracked (apply op l)
unfolding apply touch_chat update_chat_name get_dispatch_seq get_last_agent_seq set_last_agent_seq
    mark_command_seen
apply-IsTracked (store i) l v =
    λ id chat h. store-is_stored i l id chat (v id chat (store_progress i l id chat h))
apply-IsTracked (touch jid timestamp name) l v = v
apply-IsTracked (rename now jid name) l v = v
apply-IsTracked (set_dispatch c seq) l v = dispatch-IsTracked c seq l v
apply-IsTracked (read_dispatch c) l v = read_dispatch-IsTracked c _ l v
apply-IsTracked (set_agent c seq) l v =
    marks_stored ProgressKind.seen (up_to c seq l.messages) l.messages l.progress
      (up_to-AllStored c seq l.messages) v
apply-IsTracked (read_agent c) l v = read_agent-IsTracked c _ l v
apply-IsTracked (consume i c) l v = λ id chat h. v id chat (consumed i c id chat l.progress h)

pub apply_all-IsTracked : (ops : List Op) (l : Ledger) → IsTracked l → IsTracked (apply_all ops l)
unfolding apply_all
apply_all-IsTracked [] l v = v
apply_all-IsTracked (op ∷ ops) l v = apply_all-IsTracked ops (apply op l) (apply-IsTracked op l v)
