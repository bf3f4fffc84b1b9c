-- ===== src/Ledger/Marked.antt =====
-- What the marks of the WhatsApp ledger say: src/whatsapp-progress.ts.
use Prim.Native.String.{◌++◌ as ◌<>◌}
use smolpaws.Base.{
  ℕ, ◌≡◌, String, Bool, true, false, ◌&&◌, ◌||◌, Option, none, some, List, [], ◌∷◌, ◌==◌, any_where,
  arith, Has, here, there, not-Has-nil, eq_iff, eq_refl, &&-left, &&-right,
}
use smolpaws.Ledger.{
  LedgerMessage, Progress, ProgressKind, Ledger, is_progress_of, is_kind, mark_one, mark_messages,
}
use smolpaws.Ledger.Cursors.{
  up_to, set_dispatch_seq, dispatch_seq_of, last_agent_seq_of, converted, first_state,
}

-- Whether the message is marked as dispatched.
unfoldable pub is_marked : String → String → List Progress → Bool
unfolding any_where is_progress_of is_kind
is_marked id chat ps =
    any_where (λ p. is_progress_of id chat p && is_kind ProgressKind.dispatched p) ps

pub both_eq : (a b c d : String) → (a == b && c == d) ≡ true → (a ≡ b) × (c ≡ d)
both_eq a b c d h = ((eq_iff a b).0 (&&-left _ _ h), (eq_iff c d).0 (&&-right _ _ h))

-- What a mark does to what is marked.
pub mark_one-is_marked :
    (kind : ProgressKind) (i c id chat : String) (ps : List Progress)
    → is_marked id chat ps ≡ true
    → is_marked id chat (mark_one kind i c ps) ≡ true
unfolding is_marked mark_one
mark_one-is_marked ProgressKind.dispatched i c id chat [] h = absurd (cc)
mark_one-is_marked ProgressKind.seen i c id chat [] h = absurd (cc)
mark_one-is_marked ProgressKind.dispatched i c id chat (p ∷ ps) h =
    ground (arith, mark_one-is_marked ProgressKind.dispatched i c id chat ps)
mark_one-is_marked ProgressKind.seen i c id chat (p ∷ ps) h =
    ground (arith, mark_one-is_marked ProgressKind.seen i c id chat ps)

mark_one-dispatched :
    (id chat : String) (ps : List Progress)
    → is_marked id chat (mark_one ProgressKind.dispatched id chat ps) ≡ true
unfolding is_marked mark_one
mark_one-dispatched id chat [] = ground (arith, eq_refl id, eq_refl chat)
mark_one-dispatched id chat (p ∷ ps) = ground (arith, mark_one-dispatched id chat ps)

abbrev pub is_dispatch : ProgressKind → Bool
is_dispatch ProgressKind.dispatched = true
is_dispatch ProgressKind.seen = false

-- What is marked was marked, or is what is marked now.
pub mark_one-from :
    (kind : ProgressKind) (i c id chat : String) (ps : List Progress)
    → is_marked id chat (mark_one kind i c ps) ≡ true
    → (is_marked id chat ps || (i == id && c == chat && is_dispatch kind)) ≡ true
unfolding is_marked mark_one
mark_one-from ProgressKind.dispatched i c id chat [] h = ground arith
mark_one-from ProgressKind.seen i c id chat [] h = ground arith
mark_one-from ProgressKind.dispatched i c id chat (p ∷ ps) h = ground (
  arith,
  mark_one-from ProgressKind.dispatched i c id chat ps,
  eq_iff p.id i,
  eq_iff p.chat_jid c,
)
mark_one-from ProgressKind.seen i c id chat (p ∷ ps) h =
    ground (arith, mark_one-from ProgressKind.seen i c id chat ps)

pub mark_messages-is_marked :
    (kind : ProgressKind) (ms : List LedgerMessage) (id chat : String) (ps : List Progress)
    → is_marked id chat ps ≡ true
    → is_marked id chat (mark_messages kind ms ps) ≡ true
unfolding mark_messages
mark_messages-is_marked kind [] id chat ps h = h
mark_messages-is_marked kind (m ∷ ms) id chat ps h =
    mark_messages-is_marked kind ms id chat (mark_one kind m.id m.chat_jid ps)
      (mark_one-is_marked kind m.id m.chat_jid id chat ps h)

pub mark_messages-dispatched :
    (ms : List LedgerMessage) (ps : List Progress) {m : LedgerMessage}
    → Has m ms
    → is_marked m.id m.chat_jid (mark_messages ProgressKind.dispatched ms ps) ≡ true
unfolding mark_messages
mark_messages-dispatched [] ps h = absurd (not-Has-nil h)
mark_messages-dispatched (n ∷ ms) ps {m} (here e) =
    let first = mark_one-dispatched n.id n.chat_jid ps in
    let later =
      mark_messages-is_marked ProgressKind.dispatched ms n.id n.chat_jid
        (mark_one ProgressKind.dispatched n.id n.chat_jid ps) first in
    rw e later
mark_messages-dispatched (n ∷ ms) ps (there h) =
    mark_messages-dispatched ms (mark_one ProgressKind.dispatched n.id n.chat_jid ps) h

pub dispatch-is_marked :
    (c : String) (o : Option String) (l : Ledger) (id chat : String)
    → is_marked id chat l.progress ≡ true
    → is_marked id chat (dispatch_seq_of c o l).1.progress ≡ true
unfolding dispatch_seq_of set_dispatch_seq
dispatch-is_marked c (some stored) l id chat h = h
dispatch-is_marked c none l id chat h =
    set-is_marked
      (converted c (first_state ("dispatch_cursor:" <> c) "dispatch_cursor" l) l.messages)
  where
    set-is_marked : (seq : ℕ) → is_marked id chat (set_dispatch_seq c seq l).progress ≡ true
    set-is_marked seq =
        mark_messages-is_marked ProgressKind.dispatched (up_to c seq l.messages) id chat l.progress
          h

pub agent-is_marked :
    (c : String) (o : Option String) (l : Ledger) (id chat : String)
    → is_marked id chat l.progress ≡ true
    → is_marked id chat (last_agent_seq_of c o l).1.progress ≡ true
unfolding last_agent_seq_of
agent-is_marked c (some stored) l id chat h = h
agent-is_marked c none l id chat h = h
