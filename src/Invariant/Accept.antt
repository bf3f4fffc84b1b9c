-- ===== src/Invariant/Accept.antt =====
-- Accepting work keeps the store well-formed: `insertWork` and `acceptIntake` of
-- src/coordinator/store.ts.
use smolpaws.Base.{
  ℕ, suc, ◌+◌, ◌≡◌, refl, true, false, Option, none, some, ◌∷◌, Has, here, there, Has-find,
  any_where, ◌==◌, arith, eq_refl, Bool-cases, Option-cases, inl, inr, String,
}
use smolpaws.Work.{WorkRow, WorkKind, intake, DeliveryInput, same_kind}
use smolpaws.Command.{pending, RelayCommand}
use smolpaws.Store.{
  Store, Env, CommandRow, ok, >>=-eq-ok, ok-injective, has_id, has_source, is_lane,
  get_work_by_source_key,
}
use smolpaws.Store.Accept.{
  WorkFields, IntakeInput, max_sequence, new_work, insert_work, insert_delivery, insert_command,
  unsupported, accept_intake,
}
use smolpaws.Lifecycle.Edges.{same_kind-of_eq}
use smolpaws.Invariant.{
  IsWellFormed, IsJournalled, Refines, Refines-refl, Refines-trans, journal-Refines,
}
use smolpaws.Invariant.Insert.{new-Fresh, inserts-Refines, insert_work_cases}

-- What a successful insert guarantees: the machine's steps, and that the row it returns is there.
pub record Inserts (st st' : Store) (kind : WorkKind) (key : String) (row : WorkRow) : Type 0 where
  pub refines : Refines st st'
  pub present : Has row st'.work
  pub keyed : has_source kind key row ≡ true
  pub commands : st'.commands ≡ st.commands

pub same_kind_refl : (k : WorkKind) → same_kind k k ≡ true
same_kind_refl k = same_kind-of_eq k k refl

found-Inserts :
    (kind : WorkKind) (key : String) (st : Store) (old : WorkRow)
    → IsWellFormed st
    → get_work_by_source_key st kind key ≡ some old
    → Inserts st st kind key old
unfolding get_work_by_source_key
found-Inserts kind key st old v q =
    let (m, k) = Has-find (has_source kind key) st.work q in
    record { refines = Refines-refl st v; present = m; keyed = k; commands = refl }

module _ (e : Env) (kind : WorkKind) (f : WorkFields) (now : ℕ) (st : Store)
    (v : IsWellFormed st) where
  added-Inserts :
      let r = new_work (e.uuid st.drawn) kind f (max_sequence f.lane_key kind st.work + 1) now in
      any_where (is_lane f.lane_key) st.lanes ≡ true
      → get_work_by_source_key st kind f.source_key ≡ none
      → any_where (has_id (e.uuid st.drawn)) st.work ≡ false
      → Inserts st (record st { work = r ∷ st.work; drawn = suc st.drawn }) kind f.source_key r
  unfolding new_work get_work_by_source_key
  added-Inserts lane new free =
      let r = new_work (e.uuid st.drawn) kind f (max_sequence f.lane_key kind st.work + 1) now in
      record {
        refines =
            inserts-Refines st r (suc st.drawn) (new-Fresh st.work r free new refl refl refl) lane
              v;
        present = here refl;
        keyed = ground (arith, same_kind_refl kind, eq_refl f.source_key);
        commands = refl;
      }

  pub insert_work-Inserts :
      {st' : Store} {row : WorkRow}
      → insert_work e kind f now st ≡ ok (st', row)
      → Inserts st st' kind f.source_key row
  insert_work-Inserts {st'} {row} =
      insert_work_cases (λ r. r ≡ ok (st', row) → Inserts st st' kind f.source_key row) e kind f now
        st (λ x q. absurd (cc q))
        (λ old lane q p.
          let (a, b) = ok-injective p in rw (← a, ← b) (found-Inserts kind f.source_key st old v q))
        (λ lane new free p.
          let (a, b) = ok-injective p in rw (← a, ← b) (added-Inserts lane new free))

module _ (st : Store) (row : WorkRow) (v : IsWellFormed st) (m : Has row st.work) where
  insert_command_journal :
      (new : CommandRow)
      → new.work_id ≡ row.id
      → new.status ≡ pending
      → (c : CommandRow) → Has c (new ∷ st.commands)
      → IsJournalled st.work c
  insert_command_journal new i s c (here q) = record {
    row = row;
    present = m;
    named = cc (q, i);
    started = λ e. absurd (ground arith);
  }
  insert_command_journal new i s c (there h) = v.journal c h

  insert_command-Refines :
      (command : Option RelayCommand) {st' : Store} {row' : WorkRow}
      → insert_command command (st, row) ≡ ok (st', row')
      → Refines st st'
  unfolding insert_command
  insert_command-Refines none p = rw (← (ok-injective p).0) (Refines-refl st v)
  insert_command-Refines (some command) p =
      elim (Bool-cases (any_where (λ (c : CommandRow). c.work_id == row.id) st.commands)) [
        | inl taken ↦ absurd (cc (rw (taken, insert_command) at p))
        | inr free ↦
            rw (← (ok-injective (rw (free, insert_command) at p)).0)
              (journal-Refines st _ (insert_command_journal _ refl refl) v)
      ]

pub insert_command-work :
    (command : Option RelayCommand) (st : Store) (row : WorkRow) {st' : Store} {row' : WorkRow}
    → insert_command command (st, row) ≡ ok (st', row')
    → st.work ≡ st'.work
unfolding insert_command
insert_command-work none st row p = ground arith
insert_command-work (some command) st row p = ground arith

pub insert_command-row :
    (command : Option RelayCommand) (st : Store) (row : WorkRow) {st' : Store} {row' : WorkRow}
    → insert_command command (st, row) ≡ ok (st', row')
    → row ≡ row'
unfolding insert_command
insert_command-row none st row p = ground arith
insert_command-row (some command) st row p = ground arith

-- Accepting a message, new or seen before, follows the machine.
pub accept_intake-Refines :
    (e : Env) (lane : String) (input : IntakeInput) (now : ℕ) (st : Store) {st' : Store}
    {row : WorkRow}
    → IsWellFormed st
    → accept_intake e lane input now st ≡ ok (st', row)
    → Refines st st'
unfolding accept_intake
accept_intake-Refines e lane input now st {st'} {row} v p =
    elim (Option-cases (get_work_by_source_key st intake input.source_key)) [
      | inr (old, q) ↦ rw (← (ok-injective (rw (q, accept_intake) at p)).0) (Refines-refl st v)
      | inl new ↦ elim (Bool-cases (unsupported input.command)) [
        | inl bad ↦ absurd (cc (rw (new, bad, accept_intake) at p))
        | inr fine ↦
            let (pair, q, r) = >>=-eq-ok _ _ (rw (new, fine, accept_intake) at p) in
            let i = insert_work-Inserts e intake _ now st v q in
            Refines-trans i.refines
              (insert_command-Refines pair.0 pair.1 i.refines.well i.present input.command r)
      ]
    ]

pub insert_delivery-Inserts :
    (e : Env) (input : DeliveryInput) (now : ℕ) (st : Store) {st' : Store} {row : WorkRow}
    → IsWellFormed st
    → insert_delivery e input now st ≡ ok (st', row)
    → Inserts st st' WorkKind.delivery input.source_key row
unfolding insert_delivery
insert_delivery-Inserts e input now st v p = insert_work-Inserts e WorkKind.delivery _ now st v p
