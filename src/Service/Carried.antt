-- ===== src/Service/Carried.antt =====
-- What carries a request to run on: packages/openhands-agent-server/src/eventService.ts.
use smolpaws.Base.{
  ℕ, ◌≡◌, ◌≢◌, ◌⊎◌, refl, Bool, true, false, not, ◌||◌, arith, Bool-cases, inl, inr, ◌=?◌, subst,
  Option, String,
}
use smolpaws.Service.Runs.{
  Phase, at_rest, at_top, waiting, preparing, executing, publishing, Runner, is_unread,
  needs_continuation, is_stopped, release_slot, request_run, runner_of, finish, begin_iteration,
  loop_top, capacity, RunEnd, refused, already_running, read_up_to, threw, keeps_slot, run_ended,
  executed, published, remember, with_message, after_append, Input, go, answer, ended, run, stop,
  append, resume, act,
}

-- The generation in which the ticket began.
abbrev pub generation_of : Phase → ℕ
generation_of at_rest = 0
generation_of (at_top g h) = g
generation_of (waiting g) = g
generation_of (preparing g) = g
generation_of (executing g) = g
generation_of (publishing g h f) = g

-- The ticket is at work, and not about to record that its run failed.
abbrev pub is_working : Phase → Bool
is_working at_rest = false
is_working (publishing g h failed) = not failed
is_working _ = true

abbrev pub is_preparing : Phase → Bool
is_preparing (preparing g) = true
is_preparing _ = false

-- An iteration is about to read the log, or the latest message has been read.
abbrev pub is_attended : Runner → Bool
is_attended s = is_preparing s.phase || not (is_unread s)

-- The inputs that are no stop and no throw of the agent library's run.
abbrev pub is_calm : Input → Bool
is_calm (stop closes) = false
is_calm (ended threw) = false
is_calm _ = true

-- A ticket that was not stopped knows of a request.
pub record IsRequested (s : Runner) : Type 0 where
  pub working : is_working s.phase ≡ true
  pub current : is_stopped (generation_of s.phase) s ≡ false
  pub requested : s.rerun_requested ≡ true

unfoldable pub Carried : Runner → Type 0
Carried s = IsRequested s ⊎ (is_attended s ≡ true)

same_generation : (g : ℕ) → (g =? g) ≡ true
same_generation g = ground arith

-- A ticket that ends with a request has another begin, or nothing is unread.
finish-Carried :
    (g : ℕ) (h : Bool) (s : Runner)
    → is_stopped g s ≡ false
    → s.rerun_requested ≡ true
    → Carried (finish g h s)
unfolding Carried finish release_slot request_run runner_of is_stopped needs_continuation
finish-Carried g h s c r = by_slot h
  where
    is_open : s.closing ≡ false
    is_open = ground arith

    current : (g =? s.stop_generation) ≡ true
    current = ground arith

    by_slot : (h : Bool) → Carried (finish g h s)
    by_slot true = elim (Bool-cases (is_unread s)) [
      | inl u ↦
          rw (u, is_open, current, r, finish)
            (inl (record {
              working = refl;
              current = rw (same_generation s.stop_generation) refl;
              requested = refl;
            }))
      | inr u ↦ rw (u, is_open, current, r, finish) (inr (rw u refl))
    ]
    by_slot false = elim (Bool-cases (is_unread s)) [
      | inl u ↦
          rw (u, is_open, current, r, finish)
            (inl (record {
              working = refl;
              current = rw (same_generation s.stop_generation) refl;
              requested = refl;
            }))
      | inr u ↦ rw (u, is_open, current, r, finish) (inr (rw u refl))
    ]

moved :
    (g : ℕ) (p : Phase) (s : Runner)
    → is_stopped g s ≡ false
    → is_stopped g (record s { phase = p }) ≡ false
unfolding is_stopped
moved g p s c = c

published_to :
    (g : ℕ) (kept : Bool) (id : Option String) (s : Runner)
    → is_stopped g s ≡ false
    → s.rerun_requested ≡ true
    → IsRequested (record (release_slot (not kept) (record s { last_step_user_message_id = id })) {
      phase = publishing g kept false;
      status = s.status;
    })
unfolding is_stopped release_slot
published_to g true id s c r = record { working = refl; current = c; requested = r }
published_to g false id s c r = record { working = refl; current = c; requested = r }

pub open_at : (g : ℕ) (s : Runner) → is_stopped g s ≡ false → s.closing ≡ false
unfolding is_stopped
open_at g s c = ground arith

-- A request while a ticket is under way is refused.
pub busy :
    (wait granted : Bool) (s : Runner) (p : Phase)
    → s.phase ≡ p
    → p ≢ at_rest
    → s.closing ≡ false
    → request_run wait granted s ≡ refused already_running (record s { selection_requested = true })
unfolding request_run
busy wait granted s at_rest q n o = absurd (n refl)
busy wait granted s (at_top g h) q n o = ground arith
busy wait granted s (waiting g) q n o = ground arith
busy wait granted s (preparing g) q n o = ground arith
busy wait granted s (executing g) q n o = ground arith
busy wait granted s (publishing g h f) q n o = ground arith

pub not_resting : (p : Phase) → is_working p ≡ true → p ≢ at_rest
not_resting p w e = cc (rw e at w)

module _ (s : Runner) (v : IsRequested s) where
  current_at : (p : Phase) → s.phase ≡ p → is_stopped (generation_of p) s ≡ false
  current_at p q = subst (λ (x : Phase). is_stopped (generation_of x) s ≡ false) q v.current

  loop_top-Carried : (g : ℕ) (h : Bool) → s.phase ≡ at_top g h → Carried (loop_top g h s)
  unfolding Carried loop_top begin_iteration
  loop_top-Carried g true q = rw (current_at (at_top g true) q, loop_top) (inr refl)
  loop_top-Carried g false q =
      let c = current_at (at_top g false) q in
      rw (c, loop_top)
        (inl
          (record { working = refl; current = moved g (waiting g) s c; requested = v.requested }))

  capacity-Carried : (g : ℕ) (ok : Bool) → s.phase ≡ waiting g → Carried (capacity g ok s)
  unfolding Carried capacity begin_iteration is_stopped
  capacity-Carried g true q = rw (current_at (waiting g) q, capacity) (inr refl)
  capacity-Carried g false q = finish-Carried g false s (current_at (waiting g) q) v.requested

  ended-Carried :
      (g : ℕ) (r : RunEnd)
      → is_calm (ended r) ≡ true
      → s.phase ≡ executing g
      → Carried (executed g r s)
  unfolding Carried executed run_ended
  ended-Carried g threw n q = absurd (cc n)
  ended-Carried g (read_up_to id) n q = inl (
      published_to g (keeps_slot g false (record s { last_step_user_message_id = id })) id s
        (current_at (executing g) q) v.requested)

  published-Carried :
      (g : ℕ) (h failed ok : Bool)
      → s.phase ≡ publishing g h failed
      → Carried (published g h failed ok s)
  unfolding Carried published
  published-Carried g h true ok q =
      absurd (cc (subst (λ (x : Phase). is_working x ≡ true) q v.working))
  published-Carried g h false false q =
      finish-Carried g h s (current_at (publishing g h false) q) v.requested
  published-Carried g h false true q =
      let c = current_at (publishing g h false) q in
      elim (Bool-cases (needs_continuation s)) [
        | inl n ↦
            rw (n, published)
              (inl (record {
                working = refl;
                current = moved g (at_top g h) s c;
                requested = v.requested;
              }))
        | inr n ↦ rw (n, published) (finish-Carried g h s c v.requested)
      ]

  -- The ticket's own steps carry the request on.
  resume-Carried :
      (i : Input) (p : Phase)
      → is_calm i ≡ true
      → is_attended s ≡ false
      → s.phase ≡ p
      → Carried (resume i p s)
  unfolding Carried resume
  resume-Carried go (at_top g h) n a q = loop_top-Carried g h q
  resume-Carried (answer ok) (waiting g) n a q = capacity-Carried g ok q
  resume-Carried (answer ok) (preparing g) n a q = absurd (cc (rw q at a))
  resume-Carried (ended r) (executing g) n a q = ended-Carried g r n q
  resume-Carried (answer ok) (publishing g h f) n a q = published-Carried g h f ok q
  resume-Carried _ _ n a q = inl v

  is_open : s.closing ≡ false
  is_open = open_at (generation_of s.phase) s v.current

  -- What others do carries it on as well.
  pub act-Carried : (i : Input) → is_calm i ≡ true → is_attended s ≡ false → Carried (act i s)
  unfolding Carried act runner_of after_append remember with_message is_stopped
  act-Carried (run wait granted) n a =
      rw (busy wait granted s s.phase refl (not_resting s.phase v.working) is_open)
        (inl (record { working = v.working; current = v.current; requested = v.requested }))
  act-Carried (stop closes) n a = absurd (cc n)
  act-Carried (append true granted e) n a =
      rw
        (busy false granted (with_message e s) s.phase refl (not_resting s.phase v.working) is_open)
        (inl (record { working = v.working; current = v.current; requested = refl }))
  act-Carried (append false granted e) n a =
      inl (record { working = v.working; current = v.current; requested = v.requested })
  act-Carried go n a = resume-Carried go s.phase n a refl
  act-Carried (answer ok) n a = resume-Carried (answer ok) s.phase n a refl
  act-Carried (ended r) n a = resume-Carried (ended r) s.phase n a refl
