-- ===== src/Examples/Leases.antt =====
-- A lease and its contenders, packages/openhands-agent-server/src/conversationLease.ts, and the
-- journal of runs, src/coordinator/runRecovery.ts.
use smolpaws.Base.{
  ℕ, Bool, ◌+◌, ◌≡◌, ◌≢◌, refl, String, true, false, List, [], ◌∷◌, any_where, arith, eq_iff,
}
use smolpaws.Json.{string, end, field}
use smolpaws.Relay.Events.{Event}
use smolpaws.Recovery.{is_id, is_open, progress_of}
use smolpaws.Recovery.Open.{actions_open}
use smolpaws.Lease.{
  missing, LeaseError, fine, thrown, Server, claim, claim_over, read_payload, decode_payload,
  write_payload, guarded_write, owner_is_dead,
}
use smolpaws.Lease.Holder.{IsWritable, LeaseOp, claims, renews, releases, lease_run}
use smolpaws.Lease.Exclusive.{lease_kept, lease_lost}

abbrev alice : Server
alice = record { owner_instance_id = "alice"; ttl_ms = 45_000; host = "h1"; pid = 10 }

abbrev bob : Server
bob = record { owner_instance_id = "bob"; ttl_ms = 45_000; host = "h2"; pid = 20 }

abbrev alive : ℕ → Bool
alive pid = true

bob_other : bob.owner_instance_id ≢ alice.owner_instance_id
bob_other p = cc ((eq_iff "bob" "alice").1 p)

alice-IsWritable : IsWritable alice 1
alice-IsWritable = record { named = refl; process = refl; counted = refl }

alice_claims :
    claim alive alice 100 missing
    ≡ (write_payload alice 1 45_100, fine (record { generation = 1; takeover = false }))
unfolding claim read_payload write_payload
alice_claims = refl

-- Another server tries to claim, and to release what it does not hold.
abbrev contention : List LeaseOp
contention = claims alive bob 200 ∷ releases bob 1 ∷ []

lease_kept_example :
    guarded_write alice 1 (λ n. n + 1) (lease_run contention (write_payload alice 1 45_100)) 7
    ≡ (8, fine tt)
unfolding owner_is_dead
lease_kept_example =
    lease_kept alive alice 100 missing alice_claims alice-IsWritable contention
      (bob_other, (bob_other, tt)) ((ground arith, refl), (tt, tt)) (λ n. n + 1) 7

-- The lease of the first server has run out.
bob_takes :
    claim alive bob 50_000 (write_payload alice 1 45_100)
    ≡ (write_payload bob 2 95_000, fine (record { generation = 2; takeover = true }))
unfolding claim claim_over read_payload decode_payload write_payload
bob_takes = refl

lease_lost_example :
    (x : LeaseError) × (guarded_write alice 1
        (λ n. n + 1)
        (lease_run (renews bob 2 60_000 ∷ []) (write_payload bob 2 95_000))
        7
      ≡ (7, thrown x))
lease_lost_example =
    lease_lost alive alice bob 50_000 (write_payload alice 1 45_100) bob_other bob_takes
      (renews bob 2 60_000 ∷ []) (bob_other, tt) 1 (λ n. n + 1) 7

abbrev called : String → Event
called id = record { id = id; kind = "ActionEvent"; fields = end }

abbrev observed : String → Event
observed id = record {
  id = "o";
  kind = "ObservationEvent";
  fields = field "action_id" (string id) end;
}

actions_open_example :
    any_where (is_id "a2") (progress_of (called "a2" ∷ observed "a1" ∷ called "a1" ∷ [])).actions
    ≡ is_open "a2" (called "a2" ∷ observed "a1" ∷ called "a1" ∷ [])
actions_open_example = actions_open "a2" (called "a2" ∷ observed "a1" ∷ called "a1" ∷ [])
