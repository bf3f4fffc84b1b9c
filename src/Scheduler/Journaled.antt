-- ===== src/Scheduler/Journaled.antt =====
-- Which steps of the scheduler keep the journal of commands.
use smolpaws.Base.{ℕ, ◌≡◌, refl, String, any_where, Bool-cases, Option-cases, inl, inr, ◌==◌, ◌⊎◌}
use Prim.Native.String.{◌++◌}
use smolpaws.Text.{trim}
use smolpaws.Json.{Fields, get_field, as_string}
use smolpaws.Scheduler.{
  ScheduledLane, ScheduledTask, Scheduler, Attempt, returns, throws, Clock, get_lane, open_of,
  is_task,
}
use smolpaws.Scheduler.Tasks.{
  apply, apply_to, schedule_task, create_task, resume_task, change_task, cancel_task, find_task,
  text_or,
}
use smolpaws.Scheduler.Targets.{insert_task, target_of, next_time, is_visible, scope_of}

pub Attempt-cases {ℓ} :
    {A : Type ℓ} (r : Attempt A) → ((x : String) × (r ≡ throws x)) ⊎ ((a : A) × (r ≡ returns a))
Attempt-cases (returns a) = inr (a, refl)
Attempt-cases (throws x) = inl (x, refl)

-- What a command that returns leaves of the journal.
unfoldable pub Keeps : Scheduler → Attempt (Scheduler × String) → Type 0
Keeps s (returns (s', text)) = s'.commands ≡ s.commands
Keeps s (throws x) = Unit

module _ (c : Clock) where
  create_task-Keeps :
      (target : ScheduledLane) (prompt : String) (action : Fields) (key : String) (now : ℕ)
      (s : Scheduler)
      → Keeps s (create_task c target prompt action key now s)
  unfolding Keeps create_task insert_task
  create_task-Keeps target prompt action key now s =
      elim (Attempt-cases (
        next_time c (c.to_text (get_field "schedule_type" action))
          (c.to_text (get_field "schedule_value" action)) now)) [
            | inl (x, q) ↦ rw (q, create_task) tt
            | inr (next, q) ↦
                elim (Bool-cases
                  (any_where (is_task ("task-" ++ c.derive_conversation_id key)) s.tasks)) [
                    | inl r ↦ rw (q, r, create_task, insert_task) tt
                    | inr r ↦ rw (q, r, create_task, insert_task) refl
                  ]
          ]

  schedule_task-Keeps :
      (source : ScheduledLane) (action : Fields) (key : String) (now : ℕ) (s : Scheduler)
      → Keeps s (schedule_task c source action key now s)
  unfolding Keeps schedule_task
  schedule_task-Keeps source action key now s =
      let scope = scope_of (as_string (get_field "target_group" action)) source.scope_id in
      elim (Bool-cases (is_visible source.scope_id scope)) [
        | inr v ↦ rw (v, schedule_task) tt
        | inl v ↦ elim (Attempt-cases (target_of c source scope s)) [
          | inl (x, q) ↦ rw (v, q, schedule_task) tt
          | inr (target, q) ↦ elim (Option-cases (as_string (get_field "prompt" action))) [
            | inl r ↦ rw (v, q, r, schedule_task) tt
            | inr (prompt, r) ↦ elim (Bool-cases (trim prompt == "")) [
              | inl b ↦ rw (v, q, r, b, schedule_task) tt
              | inr b ↦
                  rw (v, q, r, b, schedule_task) (create_task-Keeps target prompt action key now s)
            ]
          ]
        ]
      ]

  resume_task-Keeps :
      (task : ScheduledTask) (now : ℕ) (s : Scheduler) → Keeps s (resume_task c task now s)
  unfolding Keeps resume_task
  resume_task-Keeps task now s = elim (Bool-cases (any_where (open_of task.id) s.runs)) [
    | inl b ↦ rw (b, resume_task) refl
    | inr b ↦ elim (Attempt-cases (next_time c task.schedule_type task.schedule_value now)) [
      | inl (x, q) ↦ rw (b, q, resume_task) tt
      | inr (next, q) ↦ rw (b, q, resume_task) refl
    ]
  ]

  change_task-Keeps :
      (task : ScheduledTask) (action : Fields) (now : ℕ) (s : Scheduler)
      → Keeps s (change_task c task action now s)
  unfolding Keeps change_task
  change_task-Keeps task action now s =
      elim (Bool-cases (trim (text_or c task.prompt (get_field "prompt" action)) == "")) [
        | inl b ↦ rw (b, change_task) tt
        | inr b ↦
            elim (Attempt-cases (
              next_time c (text_or c task.schedule_type (get_field "schedule_type" action))
                (text_or c task.schedule_value (get_field "schedule_value" action)) now)) [
                  | inl (x, q) ↦ rw (b, q, change_task) tt
                  | inr (next, q) ↦ rw (b, q, change_task) refl
                ]
      ]

  apply_to-Keeps :
      (task : ScheduledTask) (kind : String) (action : Fields) (now : ℕ) (s : Scheduler)
      → Keeps s (apply_to c task kind action now s)
  unfolding Keeps apply_to cancel_task
  apply_to-Keeps task kind action now s = elim (Bool-cases (kind == "pause_task")) [
    | inl a ↦ rw (a, apply_to) refl
    | inr a ↦ elim (Bool-cases (kind == "cancel_task")) [
      | inl b ↦ rw (a, b, apply_to) refl
      | inr b ↦ elim (Bool-cases (kind == "resume_task")) [
        | inl d ↦ rw (a, b, d, apply_to) (resume_task-Keeps task now s)
        | inr d ↦ elim (Bool-cases (kind == "update_task")) [
          | inl f ↦ rw (a, b, d, f, apply_to) (change_task-Keeps task action now s)
          | inr f ↦ rw (a, b, d, f, apply_to) tt
        ]
      ]
    ]
  ]

  pub apply-Keeps :
      (conversation_id kind : String) (action : Fields) (key : String) (now : ℕ) (s : Scheduler)
      → Keeps s (apply c conversation_id kind action key now s)
  unfolding Keeps apply
  apply-Keeps conversation_id kind action key now s =
      elim (Option-cases (get_lane conversation_id s)) [
        | inl q ↦ rw (q, apply) tt
        | inr (source, q) ↦ elim (Bool-cases (kind == "list_tasks")) [
          | inl a ↦ rw (q, a, apply) refl
          | inr a ↦ elim (Bool-cases (kind == "schedule_task")) [
            | inl b ↦ rw (q, a, b, apply) (schedule_task-Keeps source action key now s)
            | inr b ↦ elim (Option-cases (find_task c source action s)) [
              | inl r ↦ rw (q, a, b, r, apply) tt
              | inr (task, r) ↦ rw (q, a, b, r, apply) (apply_to-Keeps task kind action now s)
            ]
          ]
        ]
      ]
