-- ===== src/Ledger/Ingested.antt =====
-- A message that arrives late is not lost: apps/whatsapp/src/ledger.ts.
use smolpaws.Base.{
  ℕ, ◌+◌, ◌≤◌, ◌<◌, ◌≡◌, refl, ap, String, Bool, true, false, List, [], ◌∷◌, ◌++◌, ◌==◌, ltb, leb,
  any_where, arith, Bool-cases, inl, inr, Has, here, there, not-Has-nil, select-Has,
}
use smolpaws.Ledger.{
  LedgerMessage, StoreMessageInput, Progress, Ledger, empty, max_seq, ingested, store_message,
  is_pending, insert_by_seq, order_by_seq, is_new, get_new_messages,
}
use smolpaws.Ledger.Marked.{is_marked}
use smolpaws.Ledger.Grown.{Op, apply_all}
use smolpaws.Ledger.Tracked.{is_stored, IsTracked, apply_all-IsTracked}

le-max_seq : (ms : List LedgerMessage) {m : LedgerMessage} → Has m ms → m.seq ≤ max_seq ms
unfolding max_seq
le-max_seq [] h = absurd (not-Has-nil h)
le-max_seq (n ∷ ms) {m} (here e) =
    let same : m.seq ≡ n.seq = ap (λ (x : LedgerMessage). x.seq) e in omega arith
le-max_seq (n ∷ ms) (there h) = omega (arith, le-max_seq ms h)

insert-Has :
    (m : LedgerMessage) (ns : List LedgerMessage) {n : LedgerMessage}
    → Has n (m ∷ ns)
    → Has n (insert_by_seq m ns)
unfolding insert_by_seq
insert-Has m [] h = h
insert-Has m (k ∷ ns) {n} h = elim (Bool-cases (leb m.seq k.seq)) [
  | inl q ↦ rw (q, insert_by_seq) h
  | inr q ↦ rw (q, insert_by_seq) (shift (λ r. insert-Has m ns r) h)
]
  where
    shift :
        (Has n (m ∷ ns) → Has n (insert_by_seq m ns))
        → Has n (m ∷ k ∷ ns)
        → Has n (k ∷ insert_by_seq m ns)
    shift f (here e) = there (f (here e))
    shift f (there (here e)) = here e
    shift f (there (there h)) = there (f (there h))

order-Has : (ms : List LedgerMessage) {n : LedgerMessage} → Has n ms → Has n (order_by_seq ms)
unfolding order_by_seq
order-Has [] h = h
order-Has (m ∷ ms) (here e) = insert-Has m (order_by_seq ms) (here e)
order-Has (m ∷ ms) (there h) = insert-Has m (order_by_seq ms) (there (order-Has ms h))

last-Has : (ms : List LedgerMessage) (m : LedgerMessage) → Has m (ms ++ m ∷ [])
last-Has [] m = here refl
last-Has (n ∷ ms) m = there (last-Has ms m)

unmarked_nil : (id chat : String) → is_marked id chat [] ≡ true → ⊥
unfolding is_marked
unmarked_nil id chat h = cc

number_above :
    (ms : List LedgerMessage) (i : StoreMessageInput) {n : LedgerMessage}
    → Has n ms
    → n.seq < (ingested (max_seq ms + 1) i).seq
unfolding ingested
number_above ms i h = omega (arith, le-max_seq ms h)

is_new-ingested :
    (like : String → String → Bool) (own : String) (chats : List String) (after : ℕ)
    (i : StoreMessageInput) (ps : List Progress) (n : ℕ)
    → any_where (λ c. c == i.chat_jid) chats ≡ true
    → like i.content own ≡ false
    → after ≤ n
    → is_marked i.id i.chat_jid ps ≡ false
    → is_new like own chats after ps (ingested (n + 1) i) ≡ true
unfolding is_new is_pending ingested is_marked
is_new-ingested like own chats after i ps n listed other low unmarked =
    let above : ltb after (n + 1) ≡ true = ground arith in rw (above, listed, other, unmarked) refl

-- What a new message gets: a number above every other, and a place in the next batch.
pub record IsIngested (like : String → String → Bool) (own : String) (chats : List String)
    (after : ℕ) (before l : Ledger) (m : LedgerMessage) : Type 0 where
  pub above : (n : LedgerMessage) → Has n before.messages → n.seq < m.seq
  pub returned : Has m (get_new_messages like own chats after l)

-- A message with a new key, whatever its timestamp, that is not the assistant's own, gets a number
-- above all others in the ledger, and is returned as new for every cursor that is not past what was
-- stored before: a message that arrives late is not skipped.
pub late_message_returned :
    (like : String → String → Bool) (own : String) (chats : List String) (after : ℕ) (ops : List Op)
    (i : StoreMessageInput)
    → let before = apply_all ops empty in
      is_stored i.id i.chat_jid before.messages ≡ false
      → any_where (λ c. c == i.chat_jid) chats ≡ true
      → like i.content own ≡ false
      → after ≤ max_seq before.messages
      → IsIngested like own chats after before
          (store_message i before)
          (ingested (max_seq before.messages + 1) i)
unfolding store_message get_new_messages
late_message_returned like own chats after ops i new listed other low =
    let before = apply_all ops empty in
    let m = ingested (max_seq before.messages + 1) i in
    let tracked = apply_all-IsTracked ops empty (λ id chat h. absurd (no_marks id chat h)) in
    rw (new, store_message)
      (record {
        above = λ n h. numbered before.messages n h;
        returned = order-Has _ (
            select-Has (is_new like own chats after before.progress) (before.messages ++ m ∷ [])
              (last-Has before.messages m)
              (is_new-ingested like own chats after i before.progress (max_seq before.messages)
                listed other low (unmarked before tracked new)));
      })
  where
    no_marks : (id chat : String) → is_marked id chat [] ≡ true → ⊥
    no_marks id chat h = unmarked_nil id chat h

    numbered :
        (ms : List LedgerMessage) (n : LedgerMessage)
        → Has n ms
        → n.seq < (ingested (max_seq ms + 1) i).seq
    numbered ms n h = number_above ms i h

    unmarked :
        (before : Ledger)
        → IsTracked before
        → is_stored i.id i.chat_jid before.messages ≡ false
        → is_marked i.id i.chat_jid before.progress ≡ false
    unmarked before t n = elim (Bool-cases (is_marked i.id i.chat_jid before.progress)) [
      | inl q ↦ absurd (cc (t i.id i.chat_jid q, n))
      | inr q ↦ q
    ]
