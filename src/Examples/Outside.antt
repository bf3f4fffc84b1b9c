-- ===== src/Examples/Outside.antt =====
-- Queues, apps/agent-server/src/runner/outbox.ts; mounts, src/mount-security.ts; and the ledger of
-- WhatsApp, apps/whatsapp/src/ledger.ts, at work.
use smolpaws.Base.{
  ◌+◌, ◌≡◌, refl, String, Bool, true, false, none, some, List, [], ◌∷◌, ◌==◌, count_where, arith,
  Has, here, any_where, if◌then◌else◌, ◌≤◌,
}
use smolpaws.Json.{string, boolean}
use smolpaws.Text.{starts_with}
use smolpaws.Queue.{ClaimQueueOptions, Op, add, claim, run_queue, claim_queue_items}
use smolpaws.Queue.Conserved.{payloads, added, run_queue-conserves, claim-claim}
use smolpaws.Mounts.{
  AdditionalMount, AllowlistFile, parsed, Cache, Files, load_mount_allowlist,
  validate_additional_mounts,
}
use smolpaws.Mounts.Sourced.{IsSourced}
use smolpaws.Mounts.Guarded.{IsGuarded, AllSafe, mounts_are_safe}
use smolpaws.Ledger.{
  LedgerMessage, StoreMessageInput, Ledger, empty, get_new_messages, store_message, ingested,
  max_seq, is_key,
}
use smolpaws.Ledger.Cursors.{set_dispatch_seq}
use smolpaws.Ledger.Grown
use smolpaws.Ledger.Ingested.{IsIngested, late_message_returned}
use smolpaws.Ledger.Tracked.{is_stored}

abbrev of_turn : ClaimQueueOptions
of_turn = record { turn_id = some "t1"; claim_all = false }

abbrev untagged : ClaimQueueOptions
untagged = record { turn_id = none; claim_all = false }

abbrev traffic : List Op
traffic =
    add (some "t1") (string "a")
    ∷ add none (string "b")
    ∷ claim of_turn
    ∷ add (some "t1") (string "c")
    ∷ claim untagged
    ∷ []

what_was_claimed :
    run_queue traffic none ≡ (string "a" ∷ string "b" ∷ [], (run_queue traffic none).1)
unfolding run_queue
what_was_claimed = refl

run_queue-conserves_example :
    count_where (λ j. true) (run_queue traffic none).0
      + count_where (λ j. true) (payloads (run_queue traffic none).1)
    ≡ count_where (λ j. true) (payloads none) + count_where (λ j. true) (added traffic)
run_queue-conserves_example = run_queue-conserves (λ j. true) traffic none

claim-claim_example :
    claim_queue_items of_turn (claim_queue_items of_turn (run_queue traffic none).1).1
    ≡ ([], (claim_queue_items of_turn (run_queue traffic none).1).1)
claim-claim_example = claim-claim of_turn (run_queue traffic none).1

-- A small file system without links, where a path below another keeps its head.
abbrev files : Files
files = record {
  home = "/home/cat";
  resolve = λ p. p;
  join = λ a b. a;
  relative = λ root p. if starts_with root p then "x" else "..";
  is_absolute = λ p. starts_with "/" p;
  real_path = λ p. some p;
}

abbrev mount : AdditionalMount
mount = record { host_path = "/srv/data"; container_path = "data"; readonly = some false }

abbrev keys : AdditionalMount
keys = record { host_path = "/srv/.ssh"; container_path = "keys"; readonly = none }

abbrev list_file : AllowlistFile
list_file = parsed (record {
  allowed_roots = some (record { path = "/srv"; allow_read_write = some (boolean true) } ∷ []);
  blocked_patterns = some ("secret" ∷ []);
  non_main_read_only = some true;
})

abbrev cold : Cache
cold = record { cached_allowlist = none; allowlist_load_error = none }

mounts_are_safe_example :
    IsGuarded (load_mount_allowlist list_file cold).1.cached_allowlist
    × IsSourced list_file cold (load_mount_allowlist list_file cold).0
    × AllSafe files (load_mount_allowlist list_file cold).0 true (mount ∷ keys ∷ []) (
        validate_additional_mounts files
          (load_mount_allowlist list_file cold).0
          true
          (mount ∷ keys ∷ []))
mounts_are_safe_example = mounts_are_safe files list_file cold true (mount ∷ keys ∷ []) tt

-- The keys are refused.
one_mount :
    validate_additional_mounts files
      (load_mount_allowlist list_file cold).0
      true
      (mount ∷ keys ∷ [])
    ≡ record { host_path = "/srv/data"; container_path = "/workspace/extra/data"; readonly = false }
      ∷ []
unfolding validate_additional_mounts load_mount_allowlist
one_mount = refl

abbrev note : String → StoreMessageInput
note id = record {
  id = id;
  chat_jid = "c";
  sender = "s";
  sender_name = "S";
  content = "hi";
  timestamp = "10";
  is_from_me = false;
  command_eligible = none;
  media = none;
}

abbrev none_own : String → String → Bool
none_own content pattern = false

abbrev first_note : LedgerMessage
first_note = record {
  seq = 1;
  id = "m1";
  chat_jid = "c";
  sender = "s";
  sender_name = "S";
  content = "hi";
  timestamp = "10";
  is_from_me = false;
  media_path = none;
  media_type = none;
  command_eligible = false;
}

abbrev noted : Ledger
noted = record empty { messages = first_note ∷ [] }

abbrev replay : List Grown.Op
replay = Grown.store (note "m1") ∷ Grown.store (note "m2") ∷ Grown.set_dispatch "c" 0 ∷ []

abbrev second_note : LedgerMessage
second_note = record first_note { seq = 2; id = "m2" }

only_the_second :
    get_new_messages none_own "Paws:%"
      ("c" ∷ [])
      0
      (Grown.apply_all replay (set_dispatch_seq "c" 1 noted))
    ≡ second_note ∷ []
unfolding get_new_messages set_dispatch_seq Grown.apply_all
only_the_second = refl

second_is_returned : Has second_note (
    get_new_messages none_own "Paws:%"
      ("c" ∷ [])
      0
      (Grown.apply_all replay (set_dispatch_seq "c" 1 noted)))
second_is_returned = rw only_the_second (here refl)

dispatched_stays_example : is_key "m1" "c" second_note ≡ false
dispatched_stays_example =
    Grown.dispatched_stays none_own "Paws:%" ("c" ∷ []) 0 noted "c" 1 replay first_note second_note
      (here refl) refl (omega arith) second_is_returned

not_yet : is_stored "m2" "c" (Grown.apply_all (Grown.store (note "m1") ∷ []) empty).messages ≡ false
unfolding Grown.apply_all any_where is_key
not_yet = refl

below : 1 ≤ max_seq (Grown.apply_all (Grown.store (note "m1") ∷ []) empty).messages
unfolding Grown.apply_all max_seq
below = omega arith

listed : any_where (λ c. c == "c") ("c" ∷ []) ≡ true
unfolding any_where
listed = refl

late_message_returned_example :
    IsIngested none_own "Paws:%"
      ("c" ∷ [])
      1
      (Grown.apply_all (Grown.store (note "m1") ∷ []) empty)
      (store_message (note "m2") (Grown.apply_all (Grown.store (note "m1") ∷ []) empty))
      (ingested
        (max_seq (Grown.apply_all (Grown.store (note "m1") ∷ []) empty).messages + 1)
        (note "m2"))
late_message_returned_example =
    late_message_returned none_own "Paws:%" ("c" ∷ []) 1 (Grown.store (note "m1") ∷ []) (note "m2")
      not_yet listed refl below
