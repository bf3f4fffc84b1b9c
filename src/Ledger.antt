-- ===== src/Ledger.antt =====
-- The ledger of the WhatsApp bridge: apps/whatsapp/src/ledger.ts, with the progress marks of
-- src/whatsapp-progress.ts. A table is the list of its rows, oldest first. SQLite's LIKE is a
-- parameter; texts compare by their bytes. The ledger's schema is in place.
pub mod Cursors
pub mod Grown
pub mod Marked
pub mod Ingested
pub mod Tracked
use Prim.Native.Nat.{Ordering}
use Prim.Native.String.{compare}
use smolpaws.Base.{
  ℕ, ◌+◌, max, String, Bool, true, false, not, ◌&&◌, ◌||◌, Option, none, some, List, [], ◌∷◌, ◌++◌,
  ◌==◌, if◌then◌else◌, ltb, leb, any_where, select, find_first, map,
}

pub record LedgerMessage : Type 0 where
  pub seq : ℕ
  pub id : String
  pub chat_jid : String
  pub sender : String
  pub sender_name : String
  pub content : String
  pub timestamp : String
  pub is_from_me : Bool
  pub media_path : Option String
  pub media_type : Option String
  pub command_eligible : Bool

pub record Media : Type 0 where
  pub path : String
  pub type : String

pub record StoreMessageInput : Type 0 where
  pub id : String
  pub chat_jid : String
  pub sender : String
  pub sender_name : String
  pub content : String
  pub timestamp : String
  pub is_from_me : Bool
  pub command_eligible : Option Bool
  pub media : Option Media

pub record Chat : Type 0 where
  pub jid : String
  pub name : String
  pub last_message_time : String

pub record Progress : Type 0 where
  pub id : String
  pub chat_jid : String
  pub dispatched : Bool
  pub seen : Bool

pub data ProgressKind : Type 0 where
  dispatched seen : ProgressKind

pub record Ledger : Type 0 where
  pub chats : List Chat
  pub messages : List LedgerMessage
  pub progress : List Progress
  pub relay_state : List (String × String)

abbrev pub empty : Ledger
empty = record { chats = []; messages = []; progress = []; relay_state = [] }

unfoldable pub text_le : String → String → Bool
text_le a b = elim (compare a b) [ Ordering.gt ↦ false | _ ↦ true ]

unfoldable pub text_max : String → String → String
unfolding text_le
text_max a b = if text_le a b then b else a

unfoldable pub upsert_chat : String → Chat → (Chat → Chat) → List Chat → List Chat
upsert_chat jid new update [] = new ∷ []
upsert_chat jid new update (c ∷ cs) =
    let rest = upsert_chat jid new update cs in if c.jid == jid then update c ∷ cs else c ∷ rest

unfoldable pub touch_chat : String → String → Option String → Ledger → Ledger
unfolding upsert_chat text_max
touch_chat jid timestamp name l =
    let named : Bool = elim name [ none ↦ false | some n ↦ not (n == "") ] in
    let new_name : String = elim name [ none ↦ jid | some n ↦ if n == "" then jid else n ] in
    record l {
      chats =
          upsert_chat jid (record { jid = jid; name = new_name; last_message_time = timestamp })
            (λ c. record c {
              name = if named then new_name else c.name;
              last_message_time = text_max c.last_message_time timestamp;
            })
            l.chats;
    }

unfoldable pub update_chat_name : String → String → String → Ledger → Ledger
unfolding upsert_chat
update_chat_name now jid name l = record l {
  chats =
      upsert_chat jid (record { jid = jid; name = name; last_message_time = now })
        (λ c. record c { name = name }) l.chats;
}

-- COALESCE(MAX(seq), 0).
unfoldable pub max_seq : List LedgerMessage → ℕ
max_seq [] = 0
max_seq (m ∷ ms) = max m.seq (max_seq ms)

unfoldable pub is_key : String → String → LedgerMessage → Bool
is_key id chat m = m.id == id && m.chat_jid == chat

unfoldable pub coalesce : Option String → Option String → Option String
coalesce none old = old
coalesce (some s) old = some s

unfoldable pub is_eligible : Option Bool → Bool
is_eligible none = false
is_eligible (some b) = b

unfoldable pub media_path : Option Media → Option String
media_path none = none
media_path (some m) = some m.path

unfoldable pub media_type : Option Media → Option String
media_type none = none
media_type (some m) = some m.type

-- ON CONFLICT(id, chat_jid) DO UPDATE: the sequence stays.
unfoldable pub replayed : StoreMessageInput → LedgerMessage → LedgerMessage
unfolding coalesce is_eligible media_path media_type
replayed i m = record m {
  sender = i.sender;
  sender_name = i.sender_name;
  content = i.content;
  timestamp = i.timestamp;
  is_from_me = i.is_from_me;
  command_eligible = is_eligible i.command_eligible;
  media_path = coalesce (media_path i.media) m.media_path;
  media_type = coalesce (media_type i.media) m.media_type;
}

-- INSERT, with the sequence that the trigger assigns.
unfoldable pub ingested : ℕ → StoreMessageInput → LedgerMessage
unfolding is_eligible media_path media_type
ingested seq i = record {
  seq = seq;
  id = i.id;
  chat_jid = i.chat_jid;
  sender = i.sender;
  sender_name = i.sender_name;
  content = i.content;
  timestamp = i.timestamp;
  is_from_me = i.is_from_me;
  media_path = media_path i.media;
  media_type = media_type i.media;
  command_eligible = is_eligible i.command_eligible;
}

unfoldable pub store_message : StoreMessageInput → Ledger → Ledger
unfolding any_where is_key replayed ingested max_seq
store_message i l =
    if any_where (is_key i.id i.chat_jid) l.messages
    then record l {
      messages = map (λ m. if is_key i.id i.chat_jid m then replayed i m else m) l.messages;
    }
    else record l { messages = l.messages ++ ingested (max_seq l.messages + 1) i ∷ [] }

unfoldable pub is_progress_of : String → String → Progress → Bool
is_progress_of id chat p = p.id == id && p.chat_jid == chat

unfoldable pub is_kind : ProgressKind → Progress → Bool
is_kind ProgressKind.dispatched p = p.dispatched
is_kind ProgressKind.seen p = p.seen

unfoldable pub set_kind : ProgressKind → Progress → Progress
set_kind ProgressKind.dispatched p = record p { dispatched = true }
set_kind ProgressKind.seen p = record p { seen = true }

-- One message of markWhatsAppMessages.
unfoldable pub mark_one : ProgressKind → String → String → List Progress → List Progress
unfolding is_progress_of set_kind
mark_one kind id chat [] =
    set_kind kind (record { id = id; chat_jid = chat; dispatched = false; seen = false }) ∷ []
mark_one kind id chat (p ∷ ps) =
    let rest = mark_one kind id chat ps in
    if is_progress_of id chat p then set_kind kind p ∷ ps else p ∷ rest

unfoldable pub mark_messages : ProgressKind → List LedgerMessage → List Progress → List Progress
unfolding mark_one
mark_messages kind [] ps = ps
mark_messages kind (m ∷ ms) ps = mark_messages kind ms (mark_one kind m.id m.chat_jid ps)

-- pendingWhatsAppClause.
unfoldable pub is_pending : ProgressKind → List Progress → LedgerMessage → Bool
unfolding any_where is_progress_of is_kind
is_pending kind ps m = not (any_where (λ p. is_progress_of m.id m.chat_jid p && is_kind kind p) ps)

-- ORDER BY seq.
unfoldable pub insert_by_seq : LedgerMessage → List LedgerMessage → List LedgerMessage
insert_by_seq m [] = m ∷ []
insert_by_seq m (n ∷ ns) =
    let rest = insert_by_seq m ns in if leb m.seq n.seq then m ∷ n ∷ ns else n ∷ rest

unfoldable pub order_by_seq : List LedgerMessage → List LedgerMessage
unfolding insert_by_seq
order_by_seq [] = []
order_by_seq (m ∷ ms) = insert_by_seq m (order_by_seq ms)

-- `like content pattern` is the LIKE of the query; `own` is its pattern `<assistant>:%`.
module _ (like : String → String → Bool) (own : String) where
  unfoldable pub is_new : List String → ℕ → List Progress → LedgerMessage → Bool
  unfolding any_where is_pending
  is_new chat_jids after_seq ps m =
      ltb after_seq m.seq
      && any_where (λ c. c == m.chat_jid) chat_jids
      && not (like m.content own)
      && is_pending ProgressKind.dispatched ps m

  unfoldable pub get_new_messages : List String → ℕ → Ledger → List LedgerMessage
  unfolding is_new order_by_seq select
  get_new_messages chat_jids after_seq l =
      order_by_seq (select (is_new chat_jids after_seq l.progress) l.messages)

  unfoldable pub is_unseen : String → ℕ → List Progress → LedgerMessage → Bool
  unfolding is_pending
  is_unseen chat after_seq ps m =
      m.chat_jid == chat
      && ltb after_seq m.seq
      && not (like m.content own)
      && is_pending ProgressKind.seen ps m

  unfoldable pub get_messages_since : String → ℕ → Ledger → List LedgerMessage
  unfolding is_unseen order_by_seq select
  get_messages_since chat after_seq l =
      order_by_seq (select (is_unseen chat after_seq l.progress) l.messages)
