-- ===== src/Examples/Runs.antt =====
-- Runs of the store's operations, src/coordinator/store.ts.
use smolpaws.Base.{◌≡◌, refl, true, none, some, Has, here, there, ◌∷◌, [], arith}
use smolpaws.Work.{WorkState, is_resolved, settle_done, settle_fail}
use smolpaws.Store.{empty, ok, get_lane}
use smolpaws.Store.Settle.{settle, settle_current, settlement}
use smolpaws.Store.Commands.{command_is}
use smolpaws.Store.Claims.{claim_ready, claim_first}
use smolpaws.Store.Lanes.{resolve_lane, read_back, insert_lane}
use smolpaws.Store.Accept.{accept_intake, insert_work, insert_command, max_sequence}
use smolpaws.Invariant.{Refines}
use smolpaws.History.{step, run, run-Refines, empty-IsWellFormed, claims}
use smolpaws.History.Order.{no_overtaking, single_flight}
use smolpaws.History.Settling.{settle_once}
use smolpaws.Claiming.{ClaimsResult, claim_ready_lem}
use smolpaws.Examples.{
  env, queued, claimed_work, worked, worked_once, first_claim, first_done, second_claimed,
}

worked_rows : (run env worked empty).work ≡ second_claimed ∷ first_done ∷ []
unfolding run step resolve_lane read_back insert_lane get_lane accept_intake insert_work
    insert_command claim_ready settle settle_current command_is settlement max_sequence claim_first
worked_rows = refl

second_Has : Has second_claimed (run env worked empty).work
second_Has = rw worked_rows (here refl)

first_Has : Has first_done (run env worked empty).work
first_Has = rw worked_rows (there (here refl))

run-Refines_example : Refines empty (run env worked empty)
run-Refines_example = run-Refines env worked empty empty-IsWellFormed

no_overtaking_example : is_resolved first_done.state ≡ true
no_overtaking_example =
    no_overtaking env worked second_claimed first_done second_Has first_Has refl refl (ground arith)
      (ground arith)

single_flight_example : second_claimed ≡ second_claimed
single_flight_example =
    single_flight env worked second_claimed second_claimed second_Has second_Has refl refl refl refl

claimed_settles :
    settle env first_claim (settle_done none) 30 (run env claimed_work empty)
    ≡ ok (run env worked_once empty, some WorkState.done)
unfolding run step resolve_lane read_back insert_lane get_lane accept_intake insert_work
    insert_command claim_ready settle settle_current command_is settlement max_sequence claim_first
claimed_settles = refl

-- The worker's second settle comes after another worker's claim.
settle_once_example :
    settle env first_claim
      (settle_fail (some "late"))
      50
      (run env (claims "other" 40 none ∷ []) (run env worked_once empty))
    ≡ ok (run env (claims "other" 40 none ∷ []) (run env worked_once empty), none)
settle_once_example =
    settle_once env first_claim (settle_done none) 30 (run env claimed_work empty)
      (run-Refines env claimed_work empty empty-IsWellFormed).well claimed_settles
      (claims "other" 40 none ∷ []) (settle_fail (some "late")) 50

claim_ready_lem_example :
    ClaimsResult env "worker" 20 none
      (run env queued empty)
      (run-Refines env queued empty empty-IsWellFormed).well
      (claim_ready env "worker" 20 none (run env queued empty))
claim_ready_lem_example =
    claim_ready_lem env "worker" 20 none (run env queued empty)
      (run-Refines env queued empty empty-IsWellFormed).well
