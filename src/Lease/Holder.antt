-- ===== src/Lease/Holder.antt =====
-- Who may write: packages/openhands-agent-server/src/conversationLease.ts.
use smolpaws.Base.{
  ℕ, ◌+◌, ◌≡◌, ◌≢◌, ◌<◌, refl, Bool, true, false, none, some, List, [], ◌∷◌, arith, eq_refl, eq_iff,
  Bool-cases, All, inl, inr, ◌==◌, ◌&&◌, ◌⊎◌, not, ltb,
}
use smolpaws.Json.{get_field}
use smolpaws.Lease.{
  LeasePayload, LeaseClaim, LeaseFile, LeaseError, Checked, fine, thrown, lease_held, is_count,
  decode_payload, read_payload, Server, write_payload, owner_is_dead, claim_over, claim,
  assert_owner, renew, release,
}

-- A server's payload as another server reads it back.
abbrev pub payload : Server → ℕ → ℕ → LeasePayload
payload s generation expires_at = record {
  owner_instance_id = s.owner_instance_id;
  generation = generation;
  expires_at = expires_at;
  owner_host = some s.host;
  owner_pid = some s.pid;
}

-- What the schema asks of a server and a generation.
pub record IsWritable (s : Server) (generation : ℕ) : Type 0 where
  pub named : (s.owner_instance_id == "") ≡ false
  pub process : is_count s.pid ≡ true
  pub counted : is_count generation ≡ true

read_payload-write_payload :
    (s : Server) (generation expires_at : ℕ)
    → IsWritable s generation
    → read_payload (write_payload s generation expires_at)
      ≡ fine (some (payload s generation expires_at))
unfolding read_payload write_payload decode_payload get_field
read_payload-write_payload s generation expires_at w =
    rw (w.named, w.process, w.counted, read_payload, decode_payload) refl

-- Whatever is read back names its writer.
pub read_payload-owner :
    (s : Server) (generation expires_at : ℕ) (p : LeasePayload)
    → read_payload (write_payload s generation expires_at) ≡ fine (some p)
    → p.owner_instance_id ≡ s.owner_instance_id
unfolding read_payload write_payload decode_payload get_field
read_payload-owner s generation expires_at p h = elim (Bool-cases (s.owner_instance_id == "")) [
  | inl a ↦ absurd (cc (rw (a, read_payload, decode_payload) at h))
  | inr a ↦ elim (Bool-cases (is_count generation)) [
    | inr b ↦ absurd (cc (rw (a, b, read_payload, decode_payload) at h))
    | inl b ↦ elim (Bool-cases (is_count s.pid)) [
      | inr c ↦ absurd (cc (rw (a, b, c, read_payload, decode_payload) at h))
      | inl c ↦ cc (rw (a, b, c, read_payload, decode_payload) at h)
    ]
  ]
]

-- The operations on a lease, and which server runs one.
pub data LeaseOp : Type 0 where
  claims : (ℕ → Bool) → Server → ℕ → LeaseOp
  renews : Server → ℕ → ℕ → LeaseOp
  writes : Server → ℕ → LeaseOp
  releases : Server → ℕ → LeaseOp

abbrev pub by : LeaseOp → Server
by (claims exists s now) = s
by (renews s generation now) = s
by (writes s generation) = s
by (releases s generation) = s

unfoldable pub lease_step : LeaseOp → LeaseFile → LeaseFile
lease_step (claims exists s now) file = (claim exists s now file).0
lease_step (renews s generation now) file = (renew s generation now file).0
lease_step (writes s generation) file = file
lease_step (releases s generation) file = (release s generation file).0

unfoldable pub lease_run : List LeaseOp → LeaseFile → LeaseFile
lease_run [] file = file
lease_run (op ∷ ops) file = lease_run ops (lease_step op file)

abbrev pub IsOther : Server → LeaseOp → Type 0
IsOther s op = (by op).owner_instance_id ≢ s.owner_instance_id

-- Until `expires_at`, a claim does not find the owner dead.
abbrev pub InTime : Server → ℕ → ℕ → LeaseOp → Type 0
InTime s generation expires_at (claims exists t now) =
    (now < expires_at) × (owner_is_dead exists t (payload s generation expires_at) ≡ false)
InTime s generation expires_at _ = Unit

pub Checked-cases {ℓ} :
    {A : Type ℓ} (r : Checked A) → ((x : LeaseError) × (r ≡ thrown x)) ⊎ ((o : A) × (r ≡ fine o))
Checked-cases (fine o) = inr (o, refl)
Checked-cases (thrown x) = inl (x, refl)

pub claim-injective :
    {a b : LeaseFile} {c d : LeaseClaim}
    → ◌≡◌ {A = LeaseFile × Checked LeaseClaim} (a, fine c) (b, fine d)
    → (a ≡ b) × (c ≡ d)
claim-injective p = (cc, cc)

-- When a claim is refused because of the payload.
abbrev pub holds_off : (ℕ → Bool) → Server → ℕ → LeasePayload → Bool
holds_off exists s now p =
    not (p.owner_instance_id == s.owner_instance_id)
    && (ltb now p.expires_at && not (owner_is_dead exists s p))

claim_over-writes :
    (exists : ℕ → Bool) (s : Server) (now : ℕ) (file : LeaseFile) (p : LeasePayload)
    {file' : LeaseFile} {c : LeaseClaim}
    → claim_over exists s now file p ≡ (file', fine c)
    → file' ≡ write_payload s c.generation (now + s.ttl_ms)
unfolding claim_over
claim_over-writes exists s now file p h = elim (Bool-cases (holds_off exists s now p)) [
  | inl q ↦ absurd (cc (rw (q, claim_over) at h))
  | inr q ↦ let (a, b) = claim-injective (rw (q, claim_over) at h) in rw (← a, ← b) refl
]

-- The server of a claim that succeeded has written its payload.
pub claim-writes :
    (exists : ℕ → Bool) (s : Server) (now : ℕ) (file : LeaseFile) {file' : LeaseFile}
    {c : LeaseClaim}
    → claim exists s now file ≡ (file', fine c)
    → file' ≡ write_payload s c.generation (now + s.ttl_ms)
unfolding claim
claim-writes exists s now file h = elim (Checked-cases (read_payload file)) [
  | inl (x, q) ↦ absurd (cc (rw (q, claim) at h))
  | inr (none, q) ↦ let (a, b) = claim-injective (rw (q, claim) at h) in rw (← a, ← b) refl
  | inr (some p, q) ↦ claim_over-writes exists s now file p (rw (q, claim) at h)
]

module _ (s : Server) (generation expires_at : ℕ) (w : IsWritable s generation) where
  abbrev own : LeaseFile
  own = write_payload s generation expires_at

  abbrev mine : LeasePayload
  mine = payload s generation expires_at

  reads_own : read_payload own ≡ fine (some mine)
  reads_own = read_payload-write_payload s generation expires_at w

  other-false :
      (t : Server)
      → t.owner_instance_id ≢ s.owner_instance_id
      → (s.owner_instance_id == t.owner_instance_id) ≡ false
  other-false t n = ground (arith, n, eq_iff s.owner_instance_id t.owner_instance_id)

  claim-own :
      (exists : ℕ → Bool) (t : Server) (now : ℕ)
      → t.owner_instance_id ≢ s.owner_instance_id
      → now < expires_at
      → owner_is_dead exists t mine ≡ false
      → claim exists t now own ≡ (own, thrown (lease_held s.owner_instance_id expires_at))
  unfolding claim claim_over
  claim-own exists t now n early alive =
      let before : ltb now expires_at ≡ true = ground (arith, early) in
      rw (reads_own, other-false t n, before, alive, claim, claim_over) refl

  -- Another server's operation in time leaves the lease as it is.
  lease_step-own :
      (op : LeaseOp) → IsOther s op → InTime s generation expires_at op → lease_step op own ≡ own
  unfolding lease_step claim claim_over renew assert_owner release
  lease_step-own (claims exists t now) n i = rw (claim-own exists t now n i.0 i.1, lease_step) refl
  lease_step-own (renews t g now) n i =
      rw (reads_own, other-false t n, lease_step, renew, assert_owner) refl
  lease_step-own (writes t g) n i = refl
  lease_step-own (releases t g) n i = rw (reads_own, other-false t n, lease_step, release) refl

  pub lease_run-own :
      (ops : List LeaseOp)
      → All (IsOther s) ops
      → All (InTime s generation expires_at) ops
      → lease_run ops own ≡ own
  unfolding lease_run
  lease_run-own [] n i = refl
  lease_run-own (op ∷ ops) n i =
      rw (lease_step-own op n.0 i.0, lease_run) (lease_run-own ops n.1 i.1)

  pub assert_owner-own : assert_owner s generation own ≡ fine tt
  unfolding assert_owner
  assert_owner-own = rw (reads_own, eq_refl s.owner_instance_id, assert_owner) (ground arith)
