-- ===== src/Examples/Relays.antt =====
-- Runs of the relay's loops, src/coordinator/messageRelay.ts and src/coordinator/deliveryDispatcher.ts.
use smolpaws.Base.{
  ◌≢◌, ◌<◌, ◌+◌, true, arith, ◌≡◌, refl, ℕ, zero, suc, String, none, some, List, ◌∷◌, [], length,
  false,
}
use Prim.Native.String.{◌++◌}
use smolpaws.Json.{string, object, end, field, get_field, as_string}
use smolpaws.Store.{Store, empty, get_lane}
use smolpaws.Store.Accept.{
  accept_intake, insert_work, insert_command, max_sequence, insert_delivery,
}
use smolpaws.Store.Lanes.{resolve_lane, read_back, insert_lane}
use smolpaws.Relay.{Options, default_is_retryable}
use smolpaws.Relay.Events.{Event, text_of}
use smolpaws.Relay.Extract.{
  bridge_response_extractor, send_message_extractor, terminal_response_extractor,
  final_response_extractor, assistant_text_message, conversation_error_extractor, thread_message,
  delivery_text,
}
use smolpaws.Relay.Outbox.{
  SearchReply, page, Synced, synced, sync_failed, sync_events, sync_event, queue_delivery,
  is_queued_final_echo, scan_back, is_queued_text, ends_turn, after_echo,
}
use smolpaws.Relay.Outbox.Replay.{replay_idle}
use smolpaws.Relay.Outbox.{sync_delivery_outbox, out_of_fuel}
use smolpaws.Relay.Outbox.Ends.{sync_ends}
use smolpaws.Relay.Extract.{limit_of, strip_prefix, match_steps, read_digits, step_notice}
use smolpaws.Relay.Extract.Notices.{IsNotice, conversation_error_extractor-IsNotice}
use smolpaws.History.{step, run}
use smolpaws.Examples.{env, queued}

abbrev options : Options
options = record {
  command_timeout_ms = 60_000;
  derive_conversation_id = λ d. "conv";
  derive_event_id = λ p id. p ++ ":" ++ id;
  build_intake_source_key = λ d id. id;
  extractor = bridge_response_extractor (λ n. "500");
  is_retryable = default_is_retryable;
  outbox_sync_page_size = 50;
}

abbrev tool_event : Event
tool_event = record {
  id = "e1";
  kind = "ActionEvent";
  fields =
      field "tool_name" (string "send_message")
        (field "action" (object (field "text" (string "hi") end)) end);
}

-- The turn's final response repeats the tool's text.
abbrev finish_event : Event
finish_event = record {
  id = "e2";
  kind = "ObservationEvent";
  fields =
      field "tool_name" (string "finish")
        (field "observation" (object (field "message" (string "hi") end)) end);
}

abbrev no_search : ℕ → ℕ → SearchReply
no_search offset limit = page [] false

abbrev store_of : Synced → Store
store_of (synced n st) = st
store_of (sync_failed x st) = st

abbrev page_events : List Event
page_events = tool_event ∷ finish_event ∷ []

abbrev first_pass : Synced
first_pass =
    sync_events env options no_search "slack:a:c" 0 [] page_events 50 0 (run env queued empty)

-- The tool's text is queued, its echo is not.
first_pass_queues : first_pass ≡ synced 1 (store_of first_pass)
unfolding run step resolve_lane read_back insert_lane get_lane accept_intake insert_work
    insert_command max_sequence sync_events sync_event queue_delivery insert_delivery
    bridge_response_extractor send_message_extractor terminal_response_extractor
    final_response_extractor assistant_text_message delivery_text after_echo is_queued_final_echo
    scan_back is_queued_text ends_turn thread_message
first_pass_queues = refl

replay_idle_example :
    sync_events env options no_search "slack:a:c" 0 [] page_events 50 0 (store_of first_pass)
    ≡ synced 0 (store_of first_pass)
replay_idle_example =
    replay_idle env options no_search "slack:a:c" 0 50 page_events (run env queued empty) 0
      first_pass_queues 0

abbrev limit_event : Event
limit_event = record {
  id = "e3";
  kind = "ConversationErrorEvent";
  fields =
      field "code" (string "MaxIterationsReached")
        (field "detail" (string "Agent reached maximum iterations limit (500).") end);
}

limit_notice :
    conversation_error_extractor (λ n. "500") limit_event
    ≡ some (thread_message (step_notice (λ n. "500") (some 500)))
unfolding conversation_error_extractor text_of get_field as_string limit_of strip_prefix match_steps
    read_digits step_notice thread_message
limit_notice = refl

conversation_error_extractor-IsNotice_example :
    (text : String) × IsNotice (λ n. "500") text
    × (thread_message (step_notice (λ n. "500") (some 500)) ≡ thread_message text)
conversation_error_extractor-IsNotice_example =
    conversation_error_extractor-IsNotice (λ n. "500") limit_event
      (thread_message (step_notice (λ n. "500") (some 500))) limit_notice

-- One page with a successor, then the last.
abbrev two_pages : ℕ → ℕ → SearchReply
two_pages zero limit = page (tool_event ∷ []) true
two_pages (suc offset) limit = page (finish_event ∷ []) false

two_pages-finite :
    (offset : ℕ) (items : List Event)
    → two_pages offset 50 ≡ page items true
    → (0 < length items) × (offset + length items < 2)
two_pages-finite zero items p = (ground arith, ground arith)
two_pages-finite (suc offset) items p = absurd (cc p)

sync_ends_example :
    sync_delivery_outbox 3 env options
      (λ n. "1")
      (λ s. none)
      two_pages
      "conv"
      50
      (run env queued empty)
    ≢ sync_failed out_of_fuel empty
sync_ends_example =
    sync_ends env options two_pages (ground arith) 50 2 two_pages-finite (λ n. "1") (λ s. none)
      "conv" (run env queued empty) empty
