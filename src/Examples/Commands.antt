-- ===== src/Examples/Commands.antt =====
-- A message and a command that come twice, src/coordinator/store.ts.
use smolpaws.Base.{◌≡◌, refl, true, false, none, some, List, [], ◌∷◌}
use smolpaws.Json.{null}
use smolpaws.Work.{WorkRow}
use smolpaws.Store.{Store, empty, ok, get_lane}
use smolpaws.Store.Lanes.{resolve_lane, read_back, insert_lane}
use smolpaws.Store.Accept.{
  IntakeInput, accept_intake, insert_work, insert_command, max_sequence, unsupported,
}
use smolpaws.Store.Commands.{start_command}
use smolpaws.Store.Claims.{claim_ready, claim_first}
use smolpaws.History.{
  Op, step, run, run-Refines, empty-IsWellFormed, resolves, accepts, claims, requeues, reconciles,
}
use smolpaws.History.Accepting.{accept_once}
use smolpaws.History.Attempted.{attempted_once}
use smolpaws.Examples.{env, bound, lane, message, row, first_claim}

abbrev accepted_store : Store
accepted_store = run env (resolves lane "conv" 10 ∷ accepts "slack:a:c" (message "1") 11 ∷ []) empty

message_accepted :
    accept_intake env "slack:a:c" (message "1") 11 (run env bound empty)
    ≡ ok (accepted_store, row "w" "1" 1 11)
unfolding run step resolve_lane read_back insert_lane get_lane accept_intake insert_work
    insert_command max_sequence
message_accepted = refl

-- The platform sends the message again after it was claimed.
accept_once_example :
    (row' : WorkRow) × (accept_intake env "slack:a:c"
        (message "1")
        30
        (run env (claims "worker" 20 none ∷ []) accepted_store)
      ≡ ok (run env (claims "worker" 20 none ∷ []) accepted_store, row'))
    × (row'.id ≡ "w")
accept_once_example =
    accept_once env 11 (run env bound empty) (run-Refines env bound empty empty-IsWellFormed).well
      "slack:a:c" (message "1") message_accepted (claims "worker" 20 none ∷ []) "slack:a:c"
      (message "1") 30 refl

abbrev condense : IntakeInput
condense = record {
  command = some (record { kind = "condense" });
  source_key = "1";
  agent_event_id = "e1";
  payload = null;
}

abbrev command_claimed : List Op
command_claimed =
    resolves lane "conv" 10 ∷ accepts "slack:a:c" condense 11 ∷ claims "worker" 20 none ∷ []

command_starts : (start_command first_claim 25 1_000 (run env command_claimed empty)).1 ≡ true
unfolding run step resolve_lane read_back insert_lane get_lane accept_intake insert_work
    insert_command max_sequence claim_ready claim_first start_command unsupported
command_starts = refl

-- The attempt's deadline passes, and the claim is tried again.
attempted_once_example :
    let st =
      run env
        (reconciles 9_000 ∷ requeues "w" 9_001 ∷ [])
        (start_command first_claim 25 1_000 (run env command_claimed empty)).0 in
    start_command first_claim 9_002 1_000 st ≡ (st, false)
attempted_once_example =
    attempted_once env first_claim 25 1_000 (run env command_claimed empty) command_starts
      (reconciles 9_000 ∷ requeues "w" 9_001 ∷ []) first_claim 9_002 1_000 refl
