-- ===== src/Relay/Extract/Notices.antt =====
-- What an error event may tell the sender: `conversationErrorExtractor` of
-- src/coordinator/messageRelay.ts.
use smolpaws.Base.{
  ℕ, ◌≤◌, ◌≡◌, refl, String, Option, none, some, ◌==◌, leb, leb→le, Bool-cases, Option-cases, inl,
  inr,
}
use smolpaws.Json.{Json}
use smolpaws.Relay.Events.{Event, text_of, is_text}
use smolpaws.Relay.Extract.{
  thread_message, strip_prefix, match_steps, max_safe_integer, limit_of, generic_notice,
  step_notice, conversation_error_extractor,
}

-- The texts that a notice is one of.
pub data IsNotice (print : ℕ → String) : String → Type 0 where
  generic : IsNotice print generic_notice
  stopped : IsNotice print (step_notice print none)
  stopped_at : (n : ℕ) → n ≤ max_safe_integer → IsNotice print (step_notice print (some n))

limit_of-safe : (detail : Option String) (n : ℕ) → limit_of detail ≡ some n → n ≤ max_safe_integer
unfolding limit_of
limit_of-safe none n p = absurd (cc p)
limit_of-safe (some detail) n p =
    elim (Option-cases (strip_prefix "Agent reached maximum iterations limit (" detail)) [
      | inl q ↦ absurd (cc (rw (q, limit_of) at p))
      | inr (rest, q) ↦ elim (Option-cases (match_steps rest)) [
        | inl r ↦ absurd (cc (rw (q, r, limit_of) at p))
        | inr (m, r) ↦ elim (Bool-cases (leb m max_safe_integer)) [
          | inr s ↦ absurd (cc (rw (q, r, s, limit_of) at p))
          | inl s ↦
              let same : m ≡ n = cc (rw (q, r, s, limit_of) at p) in
              rw (← same) (leb→le m max_safe_integer s)
        ]
      ]
    ]

module _ (print : ℕ → String) (event : Event) where
  step_notice-IsNotice :
      (limit : Option ℕ)
      → ((n : ℕ) → limit ≡ some n → n ≤ max_safe_integer)
      → IsNotice print (step_notice print limit)
  step_notice-IsNotice none safe = stopped
  step_notice-IsNotice (some n) safe = stopped_at n (safe n refl)

  -- Whatever an agent event holds, an error notice is one of three fixed texts, the only part that
  -- varies being a step limit that is a safe integer: neither the error's code nor its detail
  -- reaches the sender otherwise.
  pub conversation_error_extractor-IsNotice :
      (intent : Json)
      → conversation_error_extractor print event ≡ some intent
      → (text : String) × IsNotice print text × (intent ≡ thread_message text)
  unfolding conversation_error_extractor
  conversation_error_extractor-IsNotice intent p =
      elim (Bool-cases (event.kind == "ConversationErrorEvent")) [
        | inr k ↦ absurd (cc (rw (k, conversation_error_extractor) at p))
        | inl k ↦ elim (Bool-cases (is_text "MaxIterationsReached" (text_of event "code"))) [
          | inr c ↦ (generic_notice, generic, cc (rw (k, c, conversation_error_extractor) at p))
          | inl c ↦
              let limit = limit_of (text_of event "detail") in
              (
                step_notice print limit,
                step_notice-IsNotice limit (limit_of-safe (text_of event "detail")),
                cc (rw (k, c, conversation_error_extractor) at p),
              )
        ]
      ]
