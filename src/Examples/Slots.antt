-- ===== src/Examples/Slots.antt =====
-- A pool of one slot, packages/openhands-agent-server/src/runAdmission.ts.
use smolpaws.Base.{false, List, [], ◌∷◌, refl}
use smolpaws.Admission.{fresh_pool, new_admission}
use smolpaws.Admission.Capacity.{
  AdmissionOp, acquires, shares, releases, admission_run, capacity_kept,
}
use smolpaws.Admission.Balanced.{IsBalanced}

-- The second call waits; the shared slot is released twice over.
abbrev calls : List AdmissionOp
calls = acquires 1 false ∷ acquires 2 false ∷ shares 0 ∷ releases 0 ∷ releases 0 ∷ releases 1 ∷ []

capacity_kept_example : IsBalanced 1 (admission_run calls (fresh_pool 1))
unfolding new_admission
capacity_kept_example = capacity_kept 1 (fresh_pool 1) calls refl
