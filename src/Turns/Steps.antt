-- ===== src/Turns/Steps.antt =====
-- What can happen to the turns of a conversation, one part of a handler after another:
-- apps/agent-server/src/agent-server/conversationRuntime.ts.
use smolpaws.Base.{String, ◌≡◌, Option, some}
use smolpaws.Turns.{TurnState}
use smolpaws.Turns.Persist.{Dates, write_persisted_turn_state}
use smolpaws.Turns.Writable.{IsWritable}
use smolpaws.Turns.Processor.{
  Terminal, settle_active_turn, materialize_active_turn, materialize_pending_turn_messages,
  fail_active_turn, load_turn_state, granted, claim_turn_artifacts,
}
use smolpaws.Turns.Submit.{SubmitArgs, Draw, submit_turn_message, update_first, has_key}

-- A restart reads the file that was written last. The conversation is neither deleted nor created
-- again, as getOrCreateRecordForTurnSubmission does with one that is stale.
pub data Step (d : Dates) (s : TurnState) : TurnState → Type 0 where
  submit : (a : SubmitArgs) (w : Draw) → Step d s (submit_turn_message a w s).0
  materialize_active : (now : String) → Step d s (materialize_active_turn now s)
  materialize_known :
      (key now : String)
      → Step d s (record s {
        turns = update_first (has_key key) (materialize_pending_turn_messages now) s.turns;
      })
  settle :
      (terminal : Option Terminal) (now : String) → Step d s (settle_active_turn terminal now s)
  fail : (now message : String) → Step d s (fail_active_turn now message s)
  claim :
      {s' : TurnState} (turn_id owner now : String)
      → claim_turn_artifacts turn_id owner now s ≡ granted s'
      → Step d s s'
  restart : (now : String) → Step d s (load_turn_state d now (some (write_persisted_turn_state s)))

pub data Steps (d : Dates) (s : TurnState) : TurnState → Type 0 where
  done : Steps d s s
  then_step : {t u : TurnState} → Steps d s t → Step d t u → Steps d s u

-- A restart finds nothing in the file that its reader would trim, drop or reorder.
unfoldable pub ReadsBack : (d : Dates) {s s' : TurnState} → Step d s s' → Type 0
ReadsBack d (submit a w) = Unit {0}
ReadsBack d (materialize_active now) = Unit {0}
ReadsBack d (materialize_known key now) = Unit {0}
ReadsBack d (settle terminal now) = Unit {0}
ReadsBack d (fail now message) = Unit {0}
ReadsBack d (claim turn_id owner now e) = Unit {0}
ReadsBack d {s} (restart now) = IsWritable d s

unfoldable pub AllReadBack : (d : Dates) {s s' : TurnState} → Steps d s s' → Type 0
unfolding ReadsBack
AllReadBack d done = Unit {0}
AllReadBack d (then_step steps step) = AllReadBack d steps × ReadsBack d step
