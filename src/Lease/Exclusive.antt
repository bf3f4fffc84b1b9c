-- ===== src/Lease/Exclusive.antt =====
-- One writer at a time: packages/openhands-agent-server/src/conversationLease.ts.
use smolpaws.Base.{
  ℕ, ◌+◌, ◌≡◌, ◌≢◌, refl, ◌∙◌, sym, Bool, false, none, some, List, [], ◌∷◌, All, arith, eq_iff,
  Bool-cases, inl, inr, ◌==◌,
}
use smolpaws.Lease.{
  LeasePayload, LeaseClaim, LeaseFile, LeaseError, ownership_lost, fine, thrown, read_payload,
  Server, write_payload, claim, claim_over, assert_owner, renew, guarded_write, release, is_owner,
}
use smolpaws.Lease.Holder.{
  IsWritable, LeaseOp, claims, renews, writes, releases, lease_step, lease_run, IsOther, InTime,
  holds_off, Checked-cases, claim-writes, read_payload-owner, lease_run-own, assert_owner-own,
}

-- A claim whose owner id, process and generation fit the lease's schema holds until it expires:
-- while the servers of other ids work on the lease only before that time and none finds the owner
-- dead, the owner's guarded write goes through, with the files it writes.
pub lease_kept {ℓ} :
    {D : Type ℓ} (exists : ℕ → Bool) (s : Server) (now : ℕ) (file : LeaseFile) {file' : LeaseFile}
    {c : LeaseClaim}
    → claim exists s now file ≡ (file', fine c)
    → IsWritable s c.generation
    → (ops : List LeaseOp) → All (IsOther s) ops
    → All (InTime s c.generation (now + s.ttl_ms)) ops
    → (write : D → D) (files : D)
    → guarded_write s c.generation write (lease_run ops file') files ≡ (write files, fine tt)
unfolding guarded_write
lease_kept exists s now file {file'} {c} h w ops others early write files =
    rw
      (
        claim-writes exists s now file h,
        lease_run-own s c.generation (now + s.ttl_ms) w ops others early,
        assert_owner-own s c.generation (now + s.ttl_ms) w,
        guarded_write,
      )
      refl

-- The lease is not the server's, or cannot be read.
abbrev NotHeld : Server → LeaseFile → Type 0
NotHeld s file =
    (p : LeasePayload)
    → read_payload file ≡ fine (some p)
    → p.owner_instance_id ≢ s.owner_instance_id

module _ (s : Server) where
  written-NotHeld :
      (t : Server) (generation expires_at : ℕ)
      → t.owner_instance_id ≢ s.owner_instance_id
      → NotHeld s (write_payload t generation expires_at)
  written-NotHeld t generation expires_at n p h q =
      n (sym (read_payload-owner t generation expires_at p h) ∙ q)

  claim_over-NotHeld :
      (exists : ℕ → Bool) (t : Server) (now : ℕ) (file : LeaseFile) (p : LeasePayload)
      → t.owner_instance_id ≢ s.owner_instance_id
      → NotHeld s file
      → NotHeld s (claim_over exists t now file p).0
  unfolding claim_over
  claim_over-NotHeld exists t now file p n k = elim (Bool-cases (holds_off exists t now p)) [
    | inl q ↦ rw (q, claim_over) k
    | inr q ↦ rw (q, claim_over) (written-NotHeld t _ _ n)
  ]

  lease_step-NotHeld :
      (op : LeaseOp) (file : LeaseFile)
      → IsOther s op
      → NotHeld s file
      → NotHeld s (lease_step op file)
  unfolding lease_step claim renew release read_payload
  lease_step-NotHeld (claims exists t now) file n k = elim (Checked-cases (read_payload file)) [
    | inl (x, q) ↦ rw (q, lease_step, claim) k
    | inr (none, q) ↦ rw (q, lease_step, claim) (written-NotHeld t 1 _ n)
    | inr (some p, q) ↦ rw (q, lease_step, claim) (claim_over-NotHeld exists t now file p n k)
  ]
  lease_step-NotHeld (renews t g now) file n k = elim (Checked-cases (assert_owner t g file)) [
    | inl (x, q) ↦ rw (q, lease_step, renew) k
    | inr (u, q) ↦ rw (q, lease_step, renew) (written-NotHeld t g _ n)
  ]
  lease_step-NotHeld (writes t g) file n k = k
  lease_step-NotHeld (releases t g) file n k = elim (Checked-cases (read_payload file)) [
    | inl (x, q) ↦ rw (q, lease_step, release) k
    | inr (none, q) ↦ rw (q, lease_step, release) k
    | inr (some p, q) ↦ elim (Bool-cases (is_owner t g p)) [
      | inl r ↦ rw (q, r, lease_step, release) (λ p h. absurd (cc h))
      | inr r ↦ rw (q, r, lease_step, release) k
    ]
  ]

  lease_run-NotHeld :
      (ops : List LeaseOp) (file : LeaseFile)
      → All (IsOther s) ops
      → NotHeld s file
      → NotHeld s (lease_run ops file)
  unfolding lease_run
  lease_run-NotHeld [] file n k = k
  lease_run-NotHeld (op ∷ ops) file n k =
      lease_run-NotHeld ops (lease_step op file) n.1 (lease_step-NotHeld op file n.0 k)

  assert_owner-NotHeld :
      (generation : ℕ) (file : LeaseFile)
      → NotHeld s file
      → (x : LeaseError) × (assert_owner s generation file ≡ thrown x)
  unfolding assert_owner
  assert_owner-NotHeld generation file k = elim (Checked-cases (read_payload file)) [
    | inl (x, q) ↦ (x, rw (q, assert_owner) refl)
    | inr (none, q) ↦ (ownership_lost s.owner_instance_id generation, rw (q, assert_owner) refl)
    | inr (some p, q) ↦
        let other : (p.owner_instance_id == s.owner_instance_id) ≡ false =
          ground (arith, k p q, eq_iff p.owner_instance_id s.owner_instance_id) in
        (ownership_lost s.owner_instance_id generation, rw (q, other, assert_owner) refl)
  ]

-- When another server's claim of the lease succeeded, the former owner is fenced off: whatever
-- servers of other ids do next, its guarded write under any generation throws and writes nothing,
-- until it claims the lease again.
pub lease_lost {ℓ} :
    {D : Type ℓ} (exists : ℕ → Bool) (s t : Server) (now : ℕ) (file : LeaseFile) {file' : LeaseFile}
    {c : LeaseClaim}
    → t.owner_instance_id ≢ s.owner_instance_id
    → claim exists t now file ≡ (file', fine c)
    → (ops : List LeaseOp) → All (IsOther s) ops
    → (generation : ℕ) (write : D → D) (files : D)
    → (x : LeaseError) × (guarded_write s generation write (lease_run ops file') files
        ≡ (files, thrown x))
unfolding guarded_write
lease_lost exists s t now file {file'} {c} n h ops others generation write files =
    let k : NotHeld s file' =
      rw (claim-writes exists t now file h) (written-NotHeld s t c.generation _ n) in
    let (x, q) =
      assert_owner-NotHeld s generation (lease_run ops file')
        (lease_run-NotHeld s ops file' others k) in
    (x, rw (q, guarded_write) refl)
