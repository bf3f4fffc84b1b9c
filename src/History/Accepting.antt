-- ===== src/History/Accepting.antt =====
-- One row for each source key, for ever: `acceptIntake` and `insertDelivery` of
-- src/coordinator/store.ts.
use smolpaws.Base.{
  ℕ, ◌≡◌, refl, sym, ◌∙◌, ap, String, true, some, List, Has, there, map-Has, Has-find, find-none,
  arith, ==→eq, eq_refl, Option-cases, Bool-cases, inl, inr, subst,
}
use smolpaws.Work.{WorkRow, WorkKind, same_kind}
use smolpaws.Store.{Store, Env, ok, >>=-eq-ok, ok-injective, has_source, get_work_by_source_key}
use smolpaws.Store.Accept.{IntakeInput, accept_intake, unsupported}
use smolpaws.Lifecycle.{Change, updates, inserts, Changes, start, next}
use smolpaws.Lifecycle.Soundness.{same_source}
use smolpaws.Lifecycle.Edges.{same_kind-of_eq}
use smolpaws.Invariant.{IsWellFormed}
use smolpaws.Invariant.Accept.{
  insert_work-Inserts, insert_command-work, insert_command-row, accept_intake-Refines,
}
use smolpaws.History.{Op, run, run-Refines}

same_kind-eq : (a b : WorkKind) → same_kind a b ≡ true → a ≡ b
same_kind-eq a b e = ground arith

-- The row of this id has the key.
pub record Keyed (id : String) (kind : WorkKind) (key : String) (rows : List WorkRow) : Type 0 where
  pub row : WorkRow
  pub present : Has row rows
  pub named : row.id ≡ id
  pub kind_of : row.kind ≡ kind
  pub key_of : row.source_key ≡ key

module _ {id : String} {kind : WorkKind} {key : String} where
  Change-Keyed :
      {rows rows' : List WorkRow}
      → Change rows rows'
      → Keyed id kind key rows
      → Keyed id kind key rows'
  Change-Keyed {rows} (updates f steps) k =
      let s = (steps k.row k.present).same in
      record {
        row = f k.row;
        present = map-Has f rows k.present;
        named = s.id ∙ k.named;
        kind_of = s.kind ∙ k.kind_of;
        key_of = s.source_key ∙ k.key_of;
      }
  Change-Keyed (inserts r new) k = record {
    row = k.row;
    present = there k.present;
    named = k.named;
    kind_of = k.kind_of;
    key_of = k.key_of;
  }

  pub Changes-Keyed :
      {rows rows' : List WorkRow}
      → Changes rows rows'
      → Keyed id kind key rows
      → Keyed id kind key rows'
  Changes-Keyed start k = k
  Changes-Keyed (next q c) k = Change-Keyed c (Changes-Keyed q k)

  -- The key leads to the row.
  pub lookup-Keyed :
      (st : Store)
      → IsWellFormed st
      → Keyed id kind key st.work
      → (w : WorkRow) × (get_work_by_source_key st kind key ≡ some w) × (w.id ≡ id)
  unfolding get_work_by_source_key
  lookup-Keyed st v k = elim (Option-cases (get_work_by_source_key st kind key)) [
    | inl q ↦ absurd (
        ground (
          arith,
          find-none (has_source kind key) st.work q k.present,
          same_kind-of_eq k.row.kind kind k.kind_of,
          k.key_of,
          eq_refl key,
        ))
    | inr (w, q) ↦
        let (h, m) = Has-find (has_source kind key) st.work q in
        let one =
          same_source w k.row st.work v.sound.apart h k.present
            (same_kind-eq w.kind kind (ground arith) ∙ sym k.kind_of)
            (==→eq w.source_key key (ground arith) ∙ sym k.key_of) in
        (w, q, ap (λ (x : WorkRow). x.id) one ∙ k.named)
  ]

found-Keyed :
    (kind : WorkKind) (key : String) (row : WorkRow) (rows : List WorkRow)
    → Has row rows
    → has_source kind key row ≡ true
    → Keyed row.id kind key rows
found-Keyed kind key row rows h m = record {
  row = row;
  present = h;
  named = refl;
  kind_of = same_kind-eq row.kind kind (ground arith);
  key_of = ==→eq row.source_key key (ground arith);
}

accept_intake-known :
    (e : Env) (lane : String) (input : IntakeInput) (now : ℕ) (st : Store) {w : WorkRow}
    → get_work_by_source_key st WorkKind.intake input.source_key ≡ some w
    → accept_intake e lane input now st ≡ ok (st, w)
unfolding accept_intake
accept_intake-known e lane input now st q = rw (q, accept_intake) refl

module _ (e : Env) (now : ℕ) (st : Store) {st' : Store} {row : WorkRow} (v : IsWellFormed st) where
  pub accept_intake-Keyed :
      (lane : String) (input : IntakeInput)
      → accept_intake e lane input now st ≡ ok (st', row)
      → Keyed row.id WorkKind.intake input.source_key st'.work
  unfolding accept_intake get_work_by_source_key
  accept_intake-Keyed lane input p =
      elim (Option-cases (get_work_by_source_key st WorkKind.intake input.source_key)) [
        | inr (old, q) ↦
            let (a, b) = ok-injective (rw (q, accept_intake) at p) in
            let (h, m) = Has-find (has_source WorkKind.intake input.source_key) st.work q in
            rw (← a, ← b) (found-Keyed WorkKind.intake input.source_key old st.work h m)
        | inl new ↦ elim (Bool-cases (unsupported input.command)) [
          | inl bad ↦ absurd (cc (rw (new, bad, accept_intake) at p))
          | inr fine ↦
              let (pair, q, r) =
                >>=-eq-ok {A = Store × WorkRow} _ _ (rw (new, fine, accept_intake) at p) in
              let i = insert_work-Inserts e WorkKind.intake _ now st v q in
              let k =
                found-Keyed WorkKind.intake input.source_key pair.1 pair.0.work i.present i.keyed in
              subst (λ (x : List WorkRow). Keyed row.id WorkKind.intake input.source_key x)
                (insert_command-work input.command pair.0 pair.1 r)
                (subst (λ (x : WorkRow). Keyed x.id WorkKind.intake input.source_key pair.0.work)
                  (insert_command-row input.command pair.0 pair.1 r) k)
        ]
      ]

  -- On a well-formed store: once a message was accepted, the same source key, with whatever content
  -- and in whatever lane, and after any operations of any workers, is accepted again as the same
  -- work, and the store does not change.
  pub accept_once :
      (lane : String) (input : IntakeInput)
      → accept_intake e lane input now st ≡ ok (st', row)
      → (ops : List Op) (lane' : String) (again : IntakeInput) (later : ℕ)
      → again.source_key ≡ input.source_key
      → (row' : WorkRow) × (accept_intake e lane' again later (run e ops st')
          ≡ ok (run e ops st', row'))
        × (row'.id ≡ row.id)
  accept_once lane input p ops lane' again later same =
      let first = accept_intake-Refines e lane input now st v p in
      let rest = run-Refines e ops st' first.well in
      let (w, q, i) =
        lookup-Keyed (run e ops st') rest.well
          (Changes-Keyed rest.changes (accept_intake-Keyed lane input p)) in
      (
        w,
        accept_intake-known e lane' again later (run e ops st')
            (ap (get_work_by_source_key (run e ops st') WorkKind.intake) same ∙ q),
        i,
      )
