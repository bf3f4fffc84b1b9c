-- ===== src/Work.antt =====
-- The relay's core types: src/coordinator/types.ts and the row types of src/coordinator/store.ts.
-- A timestamp is a number of milliseconds: an ISO-8601 UTC string of `toISOString` is ordered as
-- the instant that it names, and the code compares these strings by `<=` and sorts by them only.
use smolpaws.Base.{ℕ, String, Bool, true, false, Option}
use smolpaws.Json.{Json}

pub data WorkKind : Type 0 where
  intake delivery : WorkKind

pub data WorkState : Type 0 where
  ready claimed done retry_wait failed delivery_unknown skipped : WorkState

-- RESOLVED_STATES: what no longer blocks later work of the lane.
abbrev pub is_resolved : WorkState → Bool
is_resolved done = true
is_resolved skipped = true
is_resolved _ = false

abbrev pub is_ready : WorkState → Bool
is_ready ready = true
is_ready _ = false

abbrev pub is_claimed : WorkState → Bool
is_claimed claimed = true
is_claimed _ = false

-- state IN ('failed', 'delivery_unknown').
abbrev pub is_blocked : WorkState → Bool
is_blocked failed = true
is_blocked delivery_unknown = true
is_blocked _ = false

abbrev pub same_kind : WorkKind → WorkKind → Bool
same_kind intake intake = true
same_kind delivery delivery = true
same_kind _ _ = false

pub record LaneRow : Type 0 where
  pub lane_key : String
  pub conversation_id : String
  pub platform : String
  pub account_id : Option String
  pub chat_id : String
  pub thread_id : Option String
  pub display_name : Option String
  pub conversation_ready : Bool
  pub created_at : ℕ
  pub last_seen_at : ℕ

pub record WorkRow : Type 0 where
  pub id : String
  pub kind : WorkKind
  pub source_key : String
  pub lane_key : String
  pub sequence : ℕ
  pub agent_event_id : Option String
  pub state : WorkState
  pub available_at : ℕ
  pub claim_owner : Option String
  pub claim_until : Option ℕ
  pub generation : ℕ
  pub attempts : ℕ
  pub send_attempted : Bool
  pub last_error : Option String
  pub external_message_id : Option String
  pub payload : Json
  pub created_at : ℕ
  pub updated_at : ℕ

-- What a worker holds: `generation` is the fence token.
pub record ClaimedWork : Type 0 where
  pub row : WorkRow
  pub owner : String
  pub generation : ℕ

pub record LaneDescriptor : Type 0 where
  pub lane_key : String
  pub platform : String
  pub account_id : Option String
  pub chat_id : String
  pub thread_id : Option String
  pub display_name : Option String

pub record LaneBinding : Type 0 where
  pub lane_key : String
  pub conversation_id : String
  pub conversation_ready : Bool
  pub created : Bool

pub record DeliveryInput : Type 0 where
  pub source_key : String
  pub lane_key : String
  pub agent_event_id : String
  pub payload : Json

pub data SettleOutcome : Type 0 where
  settle_done : Option String → SettleOutcome
  settle_retry : Option String → SettleOutcome
  settle_unknown : Option String → SettleOutcome
  settle_fail : Option String → SettleOutcome

pub record ReconcileReport : Type 0 where
  pub expired_to_ready : ℕ
  pub expired_to_delivery_unknown : ℕ
  pub retry_wait_to_ready : ℕ

-- An omitted `jitterMs` is the function 0.
pub record RetryPolicy : Type 0 where
  pub max_attempts : ℕ
  pub base_backoff_ms : ℕ
  pub cap_backoff_ms : ℕ
  pub claim_ttl_ms : ℕ
  pub jitter_ms : ℕ → ℕ

abbrev pub default_retry_policy : RetryPolicy
default_retry_policy = record {
  max_attempts = 8;
  base_backoff_ms = 1_000;
  cap_backoff_ms = 300_000;
  claim_ttl_ms = 60_000;
  jitter_ms = λ _. 0;
}
