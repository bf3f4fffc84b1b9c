-- ===== src/Service/Slots.antt =====
-- The slots of the runs and when a conversation rests:
-- packages/openhands-agent-server/src/eventService.ts.
use smolpaws.Base.{
  ℕ, ◌+◌, ◌≡◌, refl, Bool, true, false, List, [], ◌∷◌, if◌then◌else◌, arith, Bool-cases, inl, inr,
}
use smolpaws.Service.Runs.{
  Phase, at_rest, at_top, waiting, preparing, executing, publishing, Runner, needs_continuation,
  is_stopped, release_slot, request_run, runner_of, finish, begin_iteration, loop_top, capacity,
  read_up_to, threw, keeps_slot, run_ended, prepared, executed, published, remember, with_message,
  after_append, stop_scheduled_work, Input, go, answer, ended, run, stop, append, resume, act,
}

abbrev pub holds_slot : Phase → Bool
holds_slot at_rest = false
holds_slot (at_top generation held) = held
holds_slot (waiting generation) = false
holds_slot (preparing generation) = true
holds_slot (executing generation) = true
holds_slot (publishing generation held failed) = held

abbrev held : Bool → ℕ
held b = if b then 1 else 0

-- What was taken from the pool is given back or held.
abbrev pub IsAccounted : Runner → Type 0
IsAccounted s = s.taken ≡ s.released + held (holds_slot s.phase)

finish-IsAccounted :
    (generation : ℕ) (h : Bool) (s : Runner)
    → s.taken ≡ s.released + held h
    → IsAccounted (finish generation h s)
unfolding finish release_slot request_run runner_of is_stopped
finish-IsAccounted generation true s e = ground arith
finish-IsAccounted generation false s e = ground arith

begin-IsAccounted :
    (generation : ℕ) (s : Runner)
    → s.taken ≡ s.released + 1
    → IsAccounted (begin_iteration generation s)
unfolding begin_iteration
begin-IsAccounted generation s e = e

loop_top-IsAccounted :
    (generation : ℕ) (h : Bool) (s : Runner)
    → s.taken ≡ s.released + held h
    → IsAccounted (loop_top generation h s)
unfolding loop_top
loop_top-IsAccounted generation h s e = elim (Bool-cases (is_stopped generation s)) [
  | inl q ↦ rw (q, loop_top) (finish-IsAccounted generation h s e)
  | inr q ↦ rw (q, loop_top) (to_slot h e)
]
  where
    to_slot :
        (h : Bool)
        → s.taken ≡ s.released + held h
        → IsAccounted
            (if h then begin_iteration generation s else record s { phase = waiting generation })
    to_slot true e = begin-IsAccounted generation s e
    to_slot false e = e

capacity-IsAccounted :
    (generation : ℕ) (ok : Bool) (s : Runner)
    → s.taken ≡ s.released + 0
    → IsAccounted (capacity generation ok s)
unfolding capacity
capacity-IsAccounted generation true s e =
    let got : Runner = record s { taken = s.taken + 1 } in
    let more : got.taken ≡ got.released + 1 = omega arith in
    elim (Bool-cases (is_stopped generation got)) [
      | inl q ↦ rw (q, capacity) (finish-IsAccounted generation true got more)
      | inr q ↦ rw (q, capacity) (begin-IsAccounted generation got more)
    ]
capacity-IsAccounted generation false s e = finish-IsAccounted generation false s e

run_ended-IsAccounted :
    (generation : ℕ) (failed : Bool) (s : Runner)
    → s.taken ≡ s.released + 1
    → IsAccounted (run_ended generation failed s)
unfolding run_ended release_slot
run_ended-IsAccounted generation failed s e = elim (Bool-cases (keeps_slot generation failed s)) [
  | inl q ↦ rw (q, run_ended, release_slot) e
  | inr q ↦ rw (q, run_ended, release_slot) (omega arith)
]

prepared-IsAccounted :
    (generation : ℕ) (ready : Bool) (s : Runner)
    → s.taken ≡ s.released + 1
    → IsAccounted (prepared generation ready s)
unfolding prepared
prepared-IsAccounted generation true s e = elim (Bool-cases (is_stopped generation s)) [
  | inl q ↦ rw (q, prepared) (finish-IsAccounted generation true s e)
  | inr q ↦ rw (q, prepared) e
]
prepared-IsAccounted generation false s e =
    run_ended-IsAccounted generation true (record s { rerun_requested = false }) e

published-IsAccounted :
    (generation : ℕ) (h failed ok : Bool) (s : Runner)
    → s.taken ≡ s.released + held h
    → IsAccounted (published generation h failed ok s)
unfolding published
published-IsAccounted generation h failed false s e = finish-IsAccounted generation h s e
published-IsAccounted generation h true true s e =
    finish-IsAccounted generation h (record s { rerun_requested = false }) e
published-IsAccounted generation h false true s e = elim (Bool-cases (needs_continuation s)) [
  | inl q ↦ rw (q, published) e
  | inr q ↦ rw (q, published) (finish-IsAccounted generation h s e)
]

resume-IsAccounted :
    (i : Input) (p : Phase) (s : Runner) → s.phase ≡ p → IsAccounted s → IsAccounted (resume i p s)
unfolding resume executed
resume-IsAccounted go (at_top g h) s q e = loop_top-IsAccounted g h s (rw q at e)
resume-IsAccounted (answer ok) (waiting g) s q e = capacity-IsAccounted g ok s (rw q at e)
resume-IsAccounted (answer ok) (preparing g) s q e = prepared-IsAccounted g ok s (rw q at e)
resume-IsAccounted (ended (read_up_to id)) (executing g) s q e =
    run_ended-IsAccounted g false (record s { last_step_user_message_id = id }) (rw q at e)
resume-IsAccounted (ended threw) (executing g) s q e =
    run_ended-IsAccounted g true (record s { rerun_requested = false }) (rw q at e)
resume-IsAccounted (answer ok) (publishing g h f) s q e =
    published-IsAccounted g h f ok s (rw q at e)
resume-IsAccounted _ _ s q e = e

request-IsAccounted :
    (wait granted : Bool) (s : Runner) (p : Phase)
    → s.phase ≡ p
    → IsAccounted s
    → IsAccounted (runner_of (request_run wait granted s))
      × IsAccounted (remember (request_run wait granted s))
unfolding request_run runner_of remember
request-IsAccounted wait granted s at_rest q e = ground arith
request-IsAccounted wait granted s (at_top g h) q e = ground arith
request-IsAccounted wait granted s (waiting g) q e = ground arith
request-IsAccounted wait granted s (preparing g) q e = ground arith
request-IsAccounted wait granted s (executing g) q e = ground arith
request-IsAccounted wait granted s (publishing g h f) q e = ground arith

act-IsAccounted : (i : Input) (s : Runner) → IsAccounted s → IsAccounted (act i s)
unfolding act after_append stop_scheduled_work with_message
act-IsAccounted (run wait granted) s e = (request-IsAccounted wait granted s s.phase refl e).0
act-IsAccounted (stop closes) s e = e
act-IsAccounted (append true granted v) s e =
    (request-IsAccounted false granted (with_message v s) s.phase refl e).1
act-IsAccounted (append false granted v) s e = e
act-IsAccounted go s e = resume-IsAccounted go s.phase s refl e
act-IsAccounted (answer ok) s e = resume-IsAccounted (answer ok) s.phase s refl e
act-IsAccounted (ended r) s e = resume-IsAccounted (ended r) s.phase s refl e

unfoldable pub act_all : List Input → Runner → Runner
act_all [] s = s
act_all (i ∷ is) s = act_all is (act i s)

-- Whatever happens, in any order, stops, failures and aborts of waiting included, the conversation
-- has given back every slot that it got from the pool, but the one that its ticket holds.
pub act_all-IsAccounted :
    (is : List Input) (s : Runner) → IsAccounted s → IsAccounted (act_all is s)
unfolding act_all
act_all-IsAccounted [] s e = e
act_all-IsAccounted (i ∷ is) s e = act_all-IsAccounted is (act i s) (act-IsAccounted i s e)
