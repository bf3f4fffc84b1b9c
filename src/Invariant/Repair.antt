-- ===== src/Invariant/Repair.antt =====
-- The operator's operations keep the store well-formed: src/coordinator/store.ts.
use smolpaws.Base.{ℕ, ◌≡◌, refl, String, true, Option, arith}
use smolpaws.Work.{WorkState}
use smolpaws.Store.{Store}
use smolpaws.Store.Repair.{blocked_at, unknown_at, is_unknown, skip, confirm_delivered, requeue}
use smolpaws.Lifecycle.{Edge, skips, confirms, requeues}
use smolpaws.Invariant.{IsWellFormed, Refines, update_where-Refines, plain-Step}

confirms-Edge : (s : WorkState) (g : ℕ) → is_unknown s ≡ true → Edge s g WorkState.done g
confirms-Edge WorkState.delivery_unknown g e = confirms
confirms-Edge _ g e = absurd (ground arith)

module _ (id : String) (now : ℕ) (st : Store) (v : IsWellFormed st) where
  pub skip-Refines : Refines st (skip id now st).0
  unfolding skip
  skip-Refines =
      update_where-Refines st (blocked_at id) _
        (λ r h e. plain-Step st.work r _ (ground arith) (skips (ground arith)) refl) v

  pub confirm_delivered-Refines :
      (external : Option String) → Refines st (confirm_delivered id external now st).0
  unfolding confirm_delivered
  confirm_delivered-Refines external =
      update_where-Refines st (unknown_at id) _
        (λ r h e.
          plain-Step st.work r _ (ground arith) (confirms-Edge r.state r.generation (ground arith))
            refl)
        v

  pub requeue-Refines : Refines st (requeue id now st).0
  unfolding requeue
  requeue-Refines =
      update_where-Refines st (blocked_at id) _
        (λ r h e. plain-Step st.work r _ (ground arith) (requeues (ground arith)) refl) v
