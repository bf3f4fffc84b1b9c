-- ===== src/Relay/Dispatch.antt =====
-- src/coordinator/deliveryDispatcher.ts: claim, validate, mark, send, settle. The send is the one
-- await; what precedes it and what follows it are two segments.
use smolpaws.Base.{ℕ, String, Bool, Option, none, some, List, [], ◌∷◌, ◌==◌, if◌then◌else◌}
use Prim.Native.String.{◌++◌}
use smolpaws.Json.{Json}
use smolpaws.Work.{
  WorkKind, WorkState, LaneRow, ClaimedWork, settle_done, settle_unknown, settle_fail,
}
use smolpaws.Store.{Store, Env, StoreError, Result, ok, err, get_lane}
use smolpaws.Store.Claims.{claim_ready, mark_sending, release}
use smolpaws.Store.Settle.{settle}

-- A platform's target: the message of the error that `validate` throws, and whether the transport
-- is ready, true where the target does not say.
pub record Target : Type 0 where
  pub validate : LaneRow → Json → Option String
  pub is_ready : Bool

-- DeliveryTargetRegistry: the latest registration of a platform counts.
abbrev pub Targets : Type 0
Targets = List (String × Target)

unfoldable pub register : String → Target → Targets → Targets
register platform target targets = (platform, target) ∷ targets

unfoldable pub get_target : String → Targets → Option Target
get_target platform [] = none
get_target platform ((p, t) ∷ targets) =
    if p == platform then some t else get_target platform targets

pub data DispatchOutcome : Type 0 where
  idle : DispatchOutcome
  delivered : String → Option String → DispatchOutcome
  failed : String → String → DispatchOutcome
  delivery_unknown : String → String → DispatchOutcome
  stale : String → DispatchOutcome
  transport_unavailable : String → DispatchOutcome

-- A call has returned, the store's error has left it, or the send is under way.
pub data Dispatch : Type 0 where
  returned : DispatchOutcome → Dispatch
  threw : StoreError → Dispatch
  sending : ClaimedWork → LaneRow → Dispatch

abbrev pub settled_as :
    Store
    → Result (Store × Option WorkState)
    → (Option WorkState → DispatchOutcome)
    → Store × Dispatch
settled_as st (err x) f = (st, threw x)
settled_as st (ok (st', s)) f = (st', returned (f s))

unfoldable pub fail_dispatch : Env → ClaimedWork → String → ℕ → Store → Store × Dispatch
fail_dispatch e claim error now st =
    settled_as st (settle e claim (settle_fail (some error)) now st)
      (λ _. failed claim.row.id error)

-- Validation comes before the mark, and so does the transport's readiness.
unfoldable pub send_to : Env → Target → ClaimedWork → LaneRow → ℕ → Store → Store × Dispatch
send_to e target claim lane now st = elim (target.validate lane claim.row.payload) [
  | some error ↦ fail_dispatch e claim error now st
  | none ↦
      if target.is_ready
      then (let (st', marked) = mark_sending claim now st in
          if marked then (st', sending claim lane) else (st', returned (stale claim.row.id)))
      else ((release claim now st).0, returned (transport_unavailable claim.row.id))
]

unfoldable pub dispatch_claim : Env → Targets → ClaimedWork → ℕ → Store → Store × Dispatch
unfolding get_target
dispatch_claim e targets claim now st = elim (get_lane st claim.row.lane_key) [
  | none ↦ fail_dispatch e claim ("delivery lane not found: " ++ claim.row.lane_key) now st
  | some lane ↦ elim (get_target lane.platform targets) [
    | none ↦ fail_dispatch e claim ("delivery target not registered: " ++ lane.platform) now st
    | some target ↦ send_to e target claim lane now st
  ]
]

unfoldable pub dispatch_next : Env → Targets → String → ℕ → Store → Store × Dispatch
dispatch_next e targets worker now st =
    let (st', found) = claim_ready e worker now (some WorkKind.delivery) st in
    elim found [ none ↦ (st', returned idle) | some claim ↦ dispatch_claim e targets claim now st' ]

-- How the race of `deliver` with its timer ends: the message's platform id, or the error's message.
pub data SendReply : Type 0 where
  sent : Option String → SendReply
  send_failed : String → SendReply

abbrev pub delivered_as : String → Option String → Option WorkState → DispatchOutcome
delivered_as id external none = stale id
delivered_as id external (some _) = delivered id external

unfoldable pub after_send : Env → ClaimedWork → SendReply → ℕ → Store → Store × Dispatch
after_send e claim (sent external) now st =
    settled_as st (settle e claim (settle_done external) now st)
      (delivered_as claim.row.id external)
after_send e claim (send_failed error) now st =
    settled_as st (settle e claim (settle_unknown (some error)) now st)
      (λ _. delivery_unknown claim.row.id error)
