-- ===== src/History/Attempts.antt =====
-- Work whose command is no longer pending stays so: the journal of src/coordinator/store.ts.
use smolpaws.Base.{
  ℕ, ◌≡◌, refl, sym, ◌∙◌, ap, String, Bool, true, false, Option, none, some, List, [], ◌∷◌, Has,
  here, there, map-Has, Has-map, guarded, update_where, find_first, not-any_where, any_where,
  count_where, arith, eq_refl, Bool-cases, Option-cases, inl, inr, subst, ◌=?◌, ◌==◌, ◌&&◌,
}
use smolpaws.Work.{WorkRow, WorkKind, WorkState, ClaimedWork, SettleOutcome, DeliveryInput}
use smolpaws.Command.{CommandResult, CommandRejectionReason, rejected, RelayCommand, is_pending}
use smolpaws.Store.{
  Store, Env, CommandRow, ok, >>=-eq-ok, ok-injective, ok-eq, get_work, get_work_by_source_key,
}
use smolpaws.Store.Accept.{
  WorkFields, IntakeInput, insert_work, insert_delivery, insert_command, accept_intake, unsupported,
}
use smolpaws.Store.Commands.{
  is_command, pending_command, is_live, start_command, complete_command, finish_command, may_finish,
  may_complete, command_is,
}
use smolpaws.Store.Claims.{claim_first, still_ready}
use smolpaws.Store.Settle.{settle, settle_current, fenced, gives_up}
use smolpaws.Store.Reconcile.{complete_all}
use smolpaws.Invariant.Insert.{insert_work_cases}

-- The work has its command, and no entry of it is pending.
pub record Used (id : String) (commands : List CommandRow) : Type 0 where
  pub entry : CommandRow
  pub present : Has entry commands
  pub named : entry.work_id ≡ id
  pub used : (c : CommandRow) → Has c commands → c.work_id ≡ id → is_pending c.status ≡ false

module _ (id : String) where
  pub update_where-Used :
      (p : CommandRow → Bool) (f : CommandRow → CommandRow) (cs : List CommandRow)
      → ((c : CommandRow) → p c ≡ true → (f c).work_id ≡ c.work_id)
      → ((c : CommandRow)
          → p c ≡ true
          → is_pending c.status ≡ false
          → is_pending (f c).status ≡ false)
      → Used id cs
      → Used id (update_where p f cs)
  update_where-Used p f cs w s u = record {
    entry = guarded p f u.entry;
    present = map-Has (guarded p f) cs u.present;
    named = same u.entry ∙ u.named;
    used = λ c h i.
        let (d, m, e) = Has-map (guarded p f) cs h in
        rw (ap (λ (x : CommandRow). is_pending x.status) e)
          (kept d (u.used d m (sym (same d) ∙ ap (λ (x : CommandRow). x.work_id) (sym e) ∙ i)));
  }
    where
      same : (c : CommandRow) → (guarded p f c).work_id ≡ c.work_id
      same c = elim (Bool-cases (p c)) [ inl e ↦ rw e (w c e) | inr e ↦ rw e refl ]

      kept :
          (c : CommandRow) → is_pending c.status ≡ false → is_pending (guarded p f c).status ≡ false
      kept c q = elim (Bool-cases (p c)) [ inl e ↦ rw e (s c e q) | inr e ↦ rw e q ]

  insert_command-Used :
      (command : Option RelayCommand) (st : Store) (row : WorkRow) {st' : Store} {row' : WorkRow}
      → Used id st.commands
      → insert_command command (st, row) ≡ ok (st', row')
      → Used id st'.commands
  unfolding insert_command
  insert_command-Used none st row u p = rw (← (ok-injective p).0) u
  insert_command-Used (some command) st row u p =
      elim (Bool-cases (any_where (λ (c : CommandRow). c.work_id == row.id) st.commands)) [
        | inl q ↦ absurd (cc (rw (q, insert_command) at p))
        | inr q ↦
            let other : (u.entry.work_id == row.id) ≡ false =
              not-any_where _ st.commands q u.present in
            rw (← (ok-injective (rw (q, insert_command) at p)).0) (record {
              entry = u.entry;
              present = there u.present;
              named = u.named;
              used = added refl other;
            })
      ]
    where
      added :
          {new : CommandRow}
          → new.work_id ≡ row.id
          → (u.entry.work_id == row.id) ≡ false
          → (c : CommandRow) → Has c (new ∷ st.commands)
          → c.work_id ≡ id
          → is_pending c.status ≡ false
      added n o c (here q) i =
          absurd
            (ground (arith, o, ap (λ (x : CommandRow). x.work_id) q, n, i, u.named, eq_refl id))
      added n o c (there h) i = u.used c h i

  insert_work-Used :
      (e : Env) (kind : WorkKind) (f : WorkFields) (now : ℕ) (st : Store) {st' : Store}
      {row : WorkRow}
      → insert_work e kind f now st ≡ ok (st', row)
      → st.commands ≡ st'.commands
  insert_work-Used e kind f now st {st'} {row} =
      insert_work_cases (λ r. r ≡ ok (st', row) → st.commands ≡ st'.commands) e kind f now st
        (λ x q. absurd (cc q)) (λ old lane q p. ap (λ (x : Store). x.commands) (ok-injective p).0)
        (λ lane new free p. ap (λ (x : Store). x.commands) (ok-injective p).0)

  pub insert_delivery-Used :
      (e : Env) (input : DeliveryInput) (now : ℕ) (st : Store) {st' : Store} {row : WorkRow}
      → insert_delivery e input now st ≡ ok (st', row)
      → st.commands ≡ st'.commands
  unfolding insert_delivery
  insert_delivery-Used e input now st p = insert_work-Used e WorkKind.delivery _ now st p

  pub accept_intake-Used :
      (e : Env) (lane : String) (input : IntakeInput) (now : ℕ) (st : Store) {st' : Store}
      {row : WorkRow}
      → Used id st.commands
      → accept_intake e lane input now st ≡ ok (st', row)
      → Used id st'.commands
  unfolding accept_intake
  accept_intake-Used e lane input now st u p =
      elim (Option-cases (get_work_by_source_key st WorkKind.intake input.source_key)) [
        | inr (old, q) ↦ rw (← (ok-injective (rw (q, accept_intake) at p)).0) u
        | inl new ↦ elim (Bool-cases (unsupported input.command)) [
          | inl bad ↦ absurd (cc (rw (new, bad, accept_intake) at p))
          | inr fine ↦
              let (pair, q, r) =
                >>=-eq-ok {A = Store × WorkRow} _ _ (rw (new, fine, accept_intake) at p) in
              insert_command-Used input.command pair.0 pair.1
                (subst (Used id) (insert_work-Used e WorkKind.intake _ now st q) u) r
        ]
      ]

  complete_command-Used :
      (e : Env) (row : WorkRow) (result : CommandResult) (now : ℕ)
      (reason : Option CommandRejectionReason) (st : Store) {st' : Store}
      → Used id st.commands
      → complete_command e row result now reason st ≡ ok st'
      → Used id st'.commands
  unfolding complete_command
  complete_command-Used e row result now reason st u p =
      let (pair, q, r) = >>=-eq-ok {A = Store × WorkRow} _ _ p in
      subst (λ (x : Store). Used id x.commands) (ok-eq r)
        (subst (Used id) (insert_delivery-Used e _ now _ q)
          (update_where-Used (is_command row.id) _ st.commands (λ c m. refl) (λ c m k. refl) u))

  pub complete_all-Used :
      (e : Env) (result : CommandResult) (now : ℕ) (rows : List WorkRow) (st : Store) {st' : Store}
      → Used id st.commands
      → complete_all e result now rows st ≡ ok st'
      → Used id st'.commands
  unfolding complete_all
  complete_all-Used e result now [] st u p = subst (λ (x : Store). Used id x.commands) (ok-eq p) u
  complete_all-Used e result now (row ∷ rows) st u p =
      let (st1, q, r) = >>=-eq-ok (complete_command e row result now none st) _ p in
      complete_all-Used e result now rows st1 (complete_command-Used e row result now none st u q) r

  pub start_command-Used :
      (c : ClaimedWork) (now timeout_ms : ℕ) (st : Store)
      → Used id st.commands
      → Used id (start_command c now timeout_ms st).0.commands
  unfolding start_command
  start_command-Used c now timeout_ms st u = elim (Option-cases (find_first (is_live c) st.work)) [
    | inl q ↦ rw (q, start_command) u
    | inr (current, q) ↦
        elim (Bool-cases (count_where (pending_command c.row.id) st.commands =? 0)) [
          | inl z ↦ rw (q, z, start_command) u
          | inr z ↦
              rw (q, z, start_command)
                (update_where-Used (pending_command c.row.id) _ st.commands (λ x m. refl)
                  (λ x m k. refl) u)
        ]
  ]

  pub finish_command-Used :
      (e : Env) (c : ClaimedWork) (result : CommandResult) (now : ℕ)
      (reason : Option CommandRejectionReason) (st : Store) {st' : Store} {b : Bool}
      → Used id st.commands
      → finish_command e c result now reason st ≡ ok (st', b)
      → Used id st'.commands
  unfolding finish_command
  finish_command-Used e c result now reason st u p =
      elim (Option-cases (find_first (may_finish c) st.work)) [
        | inl q ↦ rw (← (ok-injective (rw (q, finish_command) at p)).0) u
        | inr (row, q) ↦ elim (Bool-cases (may_complete st row result)) [
          | inr z ↦ rw (← (ok-injective (rw (q, z, finish_command) at p)).0) u
          | inl z ↦
              let (st1, r, t) = >>=-eq-ok _ _ (rw (q, z, finish_command) at p) in
              subst (λ (x : Store). Used id x.commands) (ok-injective t).0
                (complete_command-Used e row result now reason st u r)
        ]
      ]

  pub claim_first-Used :
      (worker : String) (until now : ℕ) (rows : List WorkRow) (st : Store)
      → Used id st.commands
      → Used id (claim_first worker until now rows st).0.commands
  unfolding claim_first
  claim_first-Used worker until now [] st u = u
  claim_first-Used worker until now (c ∷ rows) st u =
      elim (Bool-cases (count_where (still_ready c) st.work =? 1)) [
        | inl e ↦ rw (e, claim_first) u
        | inr e ↦ rw (e, claim_first) (claim_first-Used worker until now rows st u)
      ]

  pub settle-Used :
      (e : Env) (claim : ClaimedWork) (outcome : SettleOutcome) (now : ℕ) (st : Store) {st' : Store}
      {s : Option WorkState}
      → Used id st.commands
      → settle e claim outcome now st ≡ ok (st', s)
      → Used id st'.commands
  unfolding settle settle_current
  settle-Used e claim outcome now st u p = elim (Option-cases (get_work st claim.row.id)) [
    | inl q ↦ rw (← (ok-injective (rw (q, settle) at p)).0) u
    | inr (current, q) ↦ elim (Bool-cases (fenced claim current)) [
      | inr z ↦ rw (← (ok-injective (rw (q, z, settle) at p)).0) u
      | inl z ↦
          elim (Bool-cases
            (command_is is_pending st current.id && gives_up e.policy outcome current)) [
              | inl w ↦
                  let (st1, r, t) = >>=-eq-ok _ _ (rw (q, z, w, settle, settle_current) at p) in
                  subst (λ (x : Store). Used id x.commands) (ok-injective t).0
                    (complete_command-Used e current rejected now none st u r)
              | inr w ↦ rw (← (ok-injective (rw (q, z, w, settle, settle_current) at p)).0) u
            ]
    ]
  ]
