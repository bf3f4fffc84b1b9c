-- ===== src/Lease.antt =====
-- packages/openhands-agent-server/src/conversationLease.ts: the lease on a conversation's directory.
-- Each operation runs under the lock file, so it is one function of the lease file. The host, the
-- process table and the clock are arguments.
pub mod Holder
pub mod Exclusive
use smolpaws.Base.{
  ℕ, ◌+◌, String, Bool, true, false, Option, none, some, ◌==◌, ◌=?◌, ◌&&◌, ◌||◌, not, leb, ltb,
  if◌then◌else◌,
}
use smolpaws.Json.{Json, string, number, object, Fields, end, field, get_field, as_string}

pub record LeasePayload : Type 0 where
  pub owner_instance_id : String
  pub generation : ℕ
  pub expires_at : ℕ
  pub owner_host : Option String
  pub owner_pid : Option ℕ

pub record LeaseClaim : Type 0 where
  pub generation : ℕ
  pub takeover : Bool

-- What the file system holds at the lease's path; a text is carried as the value it parses to.
pub data LeaseFile : Type 0 where
  missing : LeaseFile
  unreadable : LeaseFile
  not_json : LeaseFile
  stored : Json → LeaseFile

pub data LeaseError : Type 0 where
  lease_held : String → ℕ → LeaseError
  ownership_lost : String → ℕ → LeaseError
  lease_invalid : String → LeaseError

pub data Checked {ℓ} (A : Type ℓ) : Type ℓ where
  fine : A → Checked A
  thrown : LeaseError → Checked A

-- Number.isSafeInteger of a natural number, and positive.
abbrev pub max_safe : ℕ
max_safe = 9_007_199_254_740_991

abbrev pub is_count : ℕ → Bool
is_count n = leb n max_safe && ltb 0 n

abbrev pub owner_of : Option Json → Option String
owner_of (some (string s)) = if s == "" then none else some s
owner_of _ = none

abbrev pub count_of : Option Json → Option ℕ
count_of (some (number n)) = if is_count n then some n else none
count_of _ = none

abbrev pub time_of : Option Json → Option ℕ
time_of (some (number n)) = some n
time_of _ = none

-- An optional field: absent, or of its type.
abbrev pub host_of : Option Json → Option (Option String)
host_of none = some none
host_of (some (string s)) = some (some s)
host_of (some _) = none

abbrev pub pid_of : Option Json → Option (Option ℕ)
pid_of none = some none
pid_of (some (number n)) = if is_count n then some (some n) else none
pid_of (some _) = none

abbrev pub payload_of :
    Option String
    → Option ℕ
    → Option ℕ
    → Option (Option String)
    → Option (Option ℕ)
    → Option LeasePayload
payload_of (some owner) (some generation) (some expires) (some host) (some pid) = some (record {
  owner_instance_id = owner;
  generation = generation;
  expires_at = expires;
  owner_host = host;
  owner_pid = pid;
})
payload_of _ _ _ _ _ = none

-- isLeasePayload, with the payload it accepts.
unfoldable pub decode_payload : Json → Option LeasePayload
unfolding get_field
decode_payload (object fields) =
    payload_of (owner_of (get_field "owner_instance_id" fields))
      (count_of (get_field "generation" fields)) (time_of (get_field "expires_at" fields))
      (host_of (get_field "owner_host" fields)) (pid_of (get_field "owner_pid" fields))
decode_payload _ = none

unfoldable pub read_payload : LeaseFile → Checked (Option LeasePayload)
unfolding decode_payload
read_payload missing = fine none
read_payload unreadable = thrown (lease_invalid "lease file could not be read")
read_payload not_json = thrown (lease_invalid "payload is not valid JSON")
read_payload (stored value) = elim (decode_payload value) [
  | none ↦ thrown (lease_invalid "payload does not match the lease schema")
  | some payload ↦ fine (some payload)
]

-- A server that contends for the lease: `ConversationLease` with its process.
pub record Server : Type 0 where
  pub owner_instance_id : String
  pub ttl_ms : ℕ
  pub host : String
  pub pid : ℕ

unfoldable pub write_payload : Server → ℕ → ℕ → LeaseFile
write_payload s generation expires_at = stored (
    object (
      field "owner_instance_id" (string s.owner_instance_id) (
        field "generation" (number generation) (
          field "expires_at" (number expires_at)
            (field "owner_host" (string s.host) (field "owner_pid" (number s.pid) end))))))

-- `exists` is what `process.kill(pid, 0)` finds out: false on ESRCH only.
abbrev pub is_gone_pid : (ℕ → Bool) → ℕ → Option ℕ → Bool
is_gone_pid exists own none = false
is_gone_pid exists own (some pid) = if pid =? own then false else not (exists pid)

abbrev pub same_host : String → Option String → Bool
same_host host none = false
same_host host (some h) = h == host

unfoldable pub owner_is_dead : (ℕ → Bool) → Server → LeasePayload → Bool
owner_is_dead exists s payload =
    same_host s.host payload.owner_host && is_gone_pid exists s.pid payload.owner_pid

-- The claim of a lease that is free, own, expired or of a dead owner.
unfoldable pub claim_over :
    (ℕ → Bool) → Server → ℕ → LeaseFile → LeasePayload → LeaseFile × Checked LeaseClaim
unfolding owner_is_dead write_payload
claim_over exists s now file payload =
    let same = payload.owner_instance_id == s.owner_instance_id in
    if not same && (ltb now payload.expires_at && not (owner_is_dead exists s payload))
    then (file, thrown (lease_held payload.owner_instance_id payload.expires_at))
    else (let generation = if same then payload.generation else payload.generation + 1 in
        (
          write_payload s generation (now + s.ttl_ms),
          fine (record { generation = generation; takeover = not same }),
        ))

unfoldable pub claim : (ℕ → Bool) → Server → ℕ → LeaseFile → LeaseFile × Checked LeaseClaim
unfolding read_payload claim_over write_payload
claim exists s now file = elim (read_payload file) [
  | thrown x ↦ (file, thrown x)
  | fine none ↦
      (write_payload s 1 (now + s.ttl_ms), fine (record { generation = 1; takeover = false }))
  | fine (some payload) ↦ claim_over exists s now file payload
]

abbrev pub is_owner : Server → ℕ → LeasePayload → Bool
is_owner s generation payload =
    payload.owner_instance_id == s.owner_instance_id && payload.generation =? generation

unfoldable pub assert_owner : Server → ℕ → LeaseFile → Checked (Unit {0})
unfolding read_payload
assert_owner s generation file = elim (read_payload file) [
  | thrown x ↦ thrown x
  | fine none ↦ thrown (ownership_lost s.owner_instance_id generation)
  | fine (some payload) ↦
      if is_owner s generation payload
      then fine tt
      else thrown (ownership_lost s.owner_instance_id generation)
]

unfoldable pub renew : Server → ℕ → ℕ → LeaseFile → LeaseFile × Checked (Unit {0})
unfolding assert_owner write_payload
renew s generation now file = elim (assert_owner s generation file) [
  | thrown x ↦ (file, thrown x)
  | fine _ ↦ (write_payload s generation (now + s.ttl_ms), fine tt)
]

-- The write runs under the lock once the owner was checked; the files it writes are `D`.
unfoldable pub guarded_write {ℓ} :
    {D : Type ℓ} → Server → ℕ → (D → D) → LeaseFile → D → D × Checked (Unit {0})
unfolding assert_owner
guarded_write s generation write file files = elim (assert_owner s generation file) [
  | thrown x ↦ (files, thrown x)
  | fine _ ↦ (write files, fine tt)
]

unfoldable pub release : Server → ℕ → LeaseFile → LeaseFile × Checked (Unit {0})
unfolding read_payload
release s generation file = elim (read_payload file) [
  | thrown x ↦ (file, thrown x)
  | fine none ↦ (file, fine tt)
  | fine (some payload) ↦
      if is_owner s generation payload then (missing, fine tt) else (file, fine tt)
]
