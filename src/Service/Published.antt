-- ===== src/Service/Published.antt =====
-- Idempotent appends, recovery and publication: packages/openhands-agent-server/src/eventService.ts.
use smolpaws.Base.{
  ℕ, ◌+◌, count_where, ◌≡◌, refl, ◌∙◌, ap, sym, String, Bool, true, false, not, ◌||◌, Option, List,
  [], ◌∷◌, ◌++◌, ◌==◌, if◌then◌else◌, any_where, select, arith, Bool-cases, inl, inr, eq_iff,
  eq_refl, Has, here, there, select-Has, not-Has-nil,
}
use mathlib.Core.List.{append-nil}
use smolpaws.Service.{Event, ExecutionStatus}
use smolpaws.Service.Send.{
  Publisher, holds_id, publish_event_once, publish_events, completes, is_completed, interrupted,
  error_for, error_events, recover_interrupted_tools,
}

-- How often subscribers were sent an event with the id.
abbrev pub times : String → Publisher → ℕ
times id p = count_where (λ e. e.id == id) p.output

count-append :
    (id : String) (es : List Event) (e : Event)
    → count_where (λ x. x.id == id) (es ++ e ∷ [])
      ≡ count_where (λ x. x.id == id) es + (if e.id == id then 1 else 0)
unfolding count_where
count-append id [] e = ground arith
count-append id (f ∷ es) e = ground (arith, count-append id es e)

publish-times :
    (id : String) (e : Event) (p : Publisher)
    → times id p ≡ (if holds_id id p.published_event_ids then 1 else 0)
    → times e.id p ≡ (if holds_id e.id p.published_event_ids then 1 else 0)
    → let q = publish_event_once e p in
      (times id q ≡ (if holds_id id q.published_event_ids then 1 else 0))
      × (holds_id id q.published_event_ids ≡ (holds_id id p.published_event_ids || e.id == id))
unfolding publish_event_once holds_id any_where
publish-times id e p h k = elim (Bool-cases (holds_id e.id p.published_event_ids)) [
  | inl q ↦ rw (q, publish_event_once) (h, ground (arith, q, eq_iff e.id id))
  | inr q ↦
      rw (q, publish_event_once)
        (
          ground (arith, q, h, k, count-append id p.output e, eq_iff e.id id),
          ground (arith, eq_iff e.id id),
        )
]

-- The marks that the publisher keeps are those of what it sent.
abbrev pub IsMarked : Publisher → Type 0
IsMarked p = (id : String) → times id p ≡ (if holds_id id p.published_event_ids then 1 else 0)

-- Publishing events, in any order and with repetitions, as the runs and the appends of a
-- conversation do, sends subscribers each of them once, an event that was sent before not again, and
-- no other.
pub publish_events-times :
    (es : List Event) (p : Publisher)
    → IsMarked p
    → (id : String)
    → times id (publish_events es p)
      ≡ (if holds_id id p.published_event_ids || any_where (λ e. e.id == id) es then 1 else 0)
unfolding publish_events
publish_events-times [] p h id = ground (arith, h id)
publish_events-times (e ∷ es) p h id =
    let first = λ (i : String). publish-times i e p (h i) (h e.id) in
    let rest = publish_events-times es (publish_event_once e p) (λ i. (first i).0) id in
    rest ∙ ground (arith, (first id).1)

is_completed-append :
    (es more : List Event) (call : String)
    → is_completed (es ++ more) call ≡ (is_completed es call || is_completed more call)
unfolding is_completed
is_completed-append [] more call = refl
is_completed-append (e ∷ es) more call = ground (arith, is_completed-append es more call)

-- The errors complete the calls of their actions.
is_completed-error_events :
    (fresh : Event → String × Option ℕ) (actions : List Event) {a : Event}
    → Has a actions
    → is_completed (error_events fresh actions) a.tool_call_id ≡ true
unfolding is_completed error_events error_for completes
is_completed-error_events fresh [] h = absurd (not-Has-nil h)
is_completed-error_events fresh (b ∷ actions) {a} (here e) =
    let same : (b.tool_call_id == a.tool_call_id) ≡ true = rw e (eq_refl b.tool_call_id) in
    rw (same, is_completed, any_where) refl
is_completed-error_events fresh (b ∷ actions) {a} (there h) =
    elim (Bool-cases (b.tool_call_id == a.tool_call_id)) [
      | inl q ↦ rw (q, is_completed, any_where) refl
      | inr q ↦ rw (q, is_completed, any_where) (is_completed-error_events fresh actions h)
    ]

select-nil {ℓ} :
    {A : Type ℓ} (p : A → Bool) (xs : List A)
    → ((x : A) → Has x xs → p x ≡ false)
    → select p xs ≡ []
unfolding select
select-nil p [] h = refl
select-nil p (x ∷ xs) h = rw (h x (here refl), select) (select-nil p xs (λ y m. h y (there m)))

interrupted-none :
    (fresh : Event → String × Option ℕ) (pending events : List Event)
    → interrupted pending (events ++ error_events fresh (interrupted pending events)) ≡ []
unfolding interrupted
interrupted-none fresh pending events = select-nil _ pending (λ a m.
    elim (Bool-cases (is_completed events a.tool_call_id)) [
      | inl q ↦ completed a q (is_completed-append events _ a.tool_call_id)
      | inr q ↦
          let found = is_completed-error_events fresh (interrupted pending events) (kept a m q) in
          by_error a found (is_completed-append events _ a.tool_call_id)
    ])
  where
    later : List Event
    later = error_events fresh (interrupted pending events)

    completed :
        (a : Event)
        → is_completed events a.tool_call_id ≡ true
        → is_completed (events ++ later) a.tool_call_id
          ≡ (is_completed events a.tool_call_id || is_completed later a.tool_call_id)
        → not (is_completed (events ++ later) a.tool_call_id) ≡ false
    completed a q e = ground arith

    by_error :
        (a : Event)
        → is_completed later a.tool_call_id ≡ true
        → is_completed (events ++ later) a.tool_call_id
          ≡ (is_completed events a.tool_call_id || is_completed later a.tool_call_id)
        → not (is_completed (events ++ later) a.tool_call_id) ≡ false
    by_error a q e = ground arith

    kept :
        (a : Event)
        → Has a pending
        → is_completed events a.tool_call_id ≡ false
        → Has a (interrupted pending events)
    kept a m q = select-Has _ pending m (ground arith)

recovered_log :
    (fresh : Event → String × Option ℕ) (pending events : List Event) (status : ExecutionStatus)
    (found : List Event)
    → interrupted pending events ≡ found
    → (recover_interrupted_tools fresh pending status events).0
      ≡ events ++ error_events fresh (interrupted pending events)
unfolding recover_interrupted_tools error_events
recovered_log fresh pending events status [] e =
    rw (e, recover_interrupted_tools) (sym (append-nil events))
recovered_log fresh pending events status (a ∷ actions) e = rw (e, recover_interrupted_tools) refl

recover_clean :
    (fresh : Event → String × Option ℕ) (pending : List Event) (status : ExecutionStatus)
    (log : List Event)
    → interrupted pending log ≡ []
    → recover_interrupted_tools fresh pending status log ≡ (log, false, status)
unfolding recover_interrupted_tools
recover_clean fresh pending status log e = rw (e, recover_interrupted_tools) refl

-- After a recovery no call of a tool lacks a result: a second one over the same
-- actions appends nothing and leaves the status.
pub recover_once :
    (fresh : Event → String × Option ℕ) (pending : List Event) (status again : ExecutionStatus)
    (events : List Event)
    → let log = (recover_interrupted_tools fresh pending status events).0 in
      recover_interrupted_tools fresh pending again log ≡ (log, false, again)
recover_once fresh pending status again events =
    let grown = recovered_log fresh pending events status (interrupted pending events) refl in
    recover_clean fresh pending again _
      (ap (interrupted pending) grown ∙ interrupted-none fresh pending events)
