-- ===== src/Invariant/Commands.antt =====
-- The command journal keeps the store well-formed: `startCommand`, `finishCommand` and
-- `completeCommand` of src/coordinator/store.ts.
use smolpaws.Base.{
  ℕ, ◌+◌, ◌<◌, ◌≡◌, refl, sym, subst, ◌∙◌, Bool, true, false, Option, none, some, List, Has,
  Has-map, Has-find, find_first, count_where, update_where, guarded, ◌=?◌, arith, ==→eq, Bool-cases,
  Option-cases, inl, inr, String,
}
use Prim.Native.String.{◌++◌}
use smolpaws.Work.{WorkRow, WorkKind, ClaimedWork, is_ready}
use smolpaws.Command.{CommandResult, CommandRejectionReason, attempted, finished}
use smolpaws.Store.{Store, Env, CommandRow, ok, >>=-eq-ok, ok-injective, ok-eq, has_id, has_source}
use smolpaws.Store.Commands.{
  is_command, is_live, pending_command, start_command, finish_row, complete_command, may_finish,
  may_complete, finish_command,
}
use smolpaws.Lifecycle.{keeps, finishes}
use smolpaws.Lifecycle.Soundness.{same_id}
use smolpaws.Lifecycle.Fence.{Tracked, IsStarted, Changes-Started}
use smolpaws.Invariant.{
  IsWellFormed, IsJournalled, Refines, Refines-refl, Refines-trans, update_where-Refines,
  journal-Refines, plain-Step,
}
use smolpaws.Invariant.Accept.{insert_delivery-Inserts}

-- The tracked row is the one under its id.
pub Tracked-started :
    (rows : List WorkRow) (r : WorkRow) (id : String)
    → ((x y : WorkRow) → Has x rows → Has y rows → x.id ≡ y.id → x ≡ y)
    → Tracked IsStarted id rows
    → Has r rows
    → r.id ≡ id
    → 0 < r.generation
Tracked-started rows r id unique t h e = rw (unique r t.row h t.present (e ∙ sym t.named)) t.phase

module _ (st : Store) (id : String) (p : CommandRow → Bool) (f : CommandRow → CommandRow)
    (named : (c : CommandRow) → p c ≡ true → (c.work_id ≡ id) × ((f c).work_id ≡ c.work_id))
    (t : Tracked IsStarted id st.work) (v : IsWellFormed st) where
  progress_one : (c : CommandRow) → Has c st.commands → IsJournalled st.work (guarded p f c)
  progress_one c h = elim (Bool-cases (p c)) [
    | inr e ↦ rw e (v.journal c h)
    | inl e ↦
        let (n, m) = named c e in
        rw e (record {
          row = t.row;
          present = t.present;
          named = t.named ∙ sym (m ∙ n);
          started = λ q. t.phase;
        })
  ]

  progress_journal :
      (c : CommandRow) → Has c (update_where p f st.commands) → IsJournalled st.work c
  progress_journal c h =
      let (x, m, e) = Has-map (guarded p f) st.commands h in rw e (progress_one x m)

  -- A command of work that was claimed may take any status.
  pub progress-Refines : Refines st (record st { commands = update_where p f st.commands })
  progress-Refines = journal-Refines st _ progress_journal v

pub live-Started :
    (st : Store) (r : WorkRow) (id : String)
    → IsWellFormed st
    → Has r st.work
    → r.id ≡ id
    → is_ready r.state ≡ false
    → Tracked IsStarted id st.work
live-Started st r id v h e s = record {
  row = r;
  present = h;
  named = e;
  phase = v.sound.started r h s;
}

finish_row-Refines :
    (st : Store) (id : String) (now : ℕ)
    → Tracked IsStarted id st.work
    → IsWellFormed st
    → Refines st (record st { work = update_where (has_id id) (finish_row now) st.work })
unfolding finish_row
finish_row-Refines st id now t v =
    update_where-Refines st (has_id id) (finish_row now)
      (λ r h e.
        plain-Step st.work r (finish_row now r) (ground arith)
          (finishes (
            Tracked-started st.work r id (λ x y. same_id x y st.work v.sound.apart) t h
              (==→eq r.id id e)))
          refl)
      v

-- What completing a command does: the machine's steps to a store where the receipt is queued,
-- then the row is finished.
pub record Completes (st st' : Store) (row : WorkRow) (result : CommandResult) (now : ℕ)
    (reason : Option CommandRejectionReason) : Type 0 where
  pub queued : Store
  pub refines : Refines st queued
  pub receipt : WorkRow
  pub present : Has receipt queued.work
  pub keyed : has_source WorkKind.delivery ("command:" ++ row.id ++ ":receipt") receipt ≡ true
  pub journal :
      queued.commands
      ≡ update_where
          (is_command row.id)
          (λ c. record c { status = finished result; attempt_deadline = none })
          st.commands
  pub final :
      st' ≡ record queued { work = update_where (has_id row.id) (finish_row now) queued.work }

pub complete_command-Completes :
    (e : Env) (row : WorkRow) (result : CommandResult) (now : ℕ)
    (reason : Option CommandRejectionReason) (st : Store) {st' : Store}
    → IsWellFormed st
    → Tracked IsStarted row.id st.work
    → complete_command e row result now reason st ≡ ok st'
    → Completes st st' row result now reason
unfolding complete_command
complete_command-Completes e row result now reason st {st'} v t p =
    let journal =
      progress-Refines st row.id (is_command row.id)
        (λ c. record c { status = finished result; attempt_deadline = none })
        (λ c q. (==→eq c.work_id row.id q, refl)) t v in
    let (pair, q, r) = >>=-eq-ok _ _ p in
    let i = insert_delivery-Inserts e _ now _ journal.well q in
    record {
      queued = pair.0;
      refines = Refines-trans journal i.refines;
      receipt = pair.1;
      present = i.present;
      keyed = i.keyed;
      journal = i.commands;
      final = sym (ok-eq r);
    }

-- Completing a command follows the machine, whoever holds the claim.
pub complete_command-Refines :
    (e : Env) (row : WorkRow) (result : CommandResult) (now : ℕ)
    (reason : Option CommandRejectionReason) (st : Store) {st' : Store}
    → IsWellFormed st
    → Tracked IsStarted row.id st.work
    → complete_command e row result now reason st ≡ ok st'
    → Refines st st'
complete_command-Refines e row result now reason st v t p =
    let c = complete_command-Completes e row result now reason st v t p in
    Refines-trans c.refines (
      rw c.final (
        finish_row-Refines c.queued row.id now (Changes-Started c.refines.changes t)
          c.refines.well))

module _ (live : ClaimedWork) (now timeout_ms : ℕ) (st : Store) (v : IsWellFormed st) where
  extend-Refines :
      (until : ℕ)
      → Refines st (record st {
        work =
            update_where (has_id live.row.id) (λ r. record r { claim_until = some until }) st.work;
      })
  extend-Refines until =
      update_where-Refines st (has_id live.row.id) _
        (λ r h e. record { same = ground arith; edge = keeps; head = λ p q. absurd (ground arith) })
        v

  started-Refines :
      (current : WorkRow)
      → Has current st.work
      → is_live live current ≡ true
      → Refines st (record st {
        commands =
            update_where
              (pending_command live.row.id)
              (λ c. record c { status = attempted; attempt_deadline = some (now + timeout_ms) })
              st.commands;
        work =
            update_where
              (has_id live.row.id)
              (λ r. record r { claim_until = some (now + timeout_ms) })
              st.work;
      })
  started-Refines current h e =
      let longer = extend-Refines (now + timeout_ms) in
      let t =
        live-Started st current live.row.id v h (==→eq current.id live.row.id (ground arith))
          (ground arith) in
      Refines-trans longer (
        progress-Refines _ live.row.id (pending_command live.row.id) _
          (λ c q. (==→eq c.work_id live.row.id (ground arith), refl))
          (Changes-Started longer.changes t) longer.well)

  -- Starting a command follows the machine.
  pub start_command-Refines : Refines st (start_command live now timeout_ms st).0
  unfolding start_command
  start_command-Refines = elim (Option-cases (find_first (is_live live) st.work)) [
    | inl q ↦ rw (q, start_command) (Refines-refl st v)
    | inr (current, q) ↦
        elim (Bool-cases (count_where (pending_command live.row.id) st.commands =? 0)) [
          | inl z ↦ rw (q, z, start_command) (Refines-refl st v)
          | inr z ↦
              let (h, e) = Has-find (is_live live) st.work q in
              rw (q, z, start_command) (started-Refines current h e)
        ]
  ]

-- Finishing a command follows the machine.
pub finish_command-Refines :
    (e : Env) (live : ClaimedWork) (result : CommandResult) (now : ℕ)
    (reason : Option CommandRejectionReason) (st : Store) {st' : Store} {b : Bool}
    → IsWellFormed st
    → finish_command e live result now reason st ≡ ok (st', b)
    → Refines st st'
unfolding finish_command
finish_command-Refines e live result now reason st v p =
    elim (Option-cases (find_first (may_finish live) st.work)) [
      | inl q ↦ rw (← (ok-injective (rw (q, finish_command) at p)).0) (Refines-refl st v)
      | inr (row, q) ↦ elim (Bool-cases (may_complete st row result)) [
        | inr z ↦ rw (← (ok-injective (rw (q, z, finish_command) at p)).0) (Refines-refl st v)
        | inl z ↦
            let (st1, r, s) = >>=-eq-ok _ _ (rw (q, z, finish_command) at p) in
            let (h, m) = Has-find (may_finish live) st.work q in
            subst (Refines st) (ok-injective s).0 (
              complete_command-Refines e row result now reason st v
                (live-Started st row row.id v h refl (ground arith)) r)
      ]
    ]
