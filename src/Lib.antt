-- ===== src/Lib.antt =====
-- SmolPaws: the durable message relay.
--
-- The relay takes messages from chat platforms to an agent-server and the agent's replies back.
-- Every message and every reply is a row of one work table in SQLite; a row belongs to a lane (a
-- chat or a thread) and a kind, and a lane's rows are worked on one at a time, in order. Workers
-- claim rows; a claim carries the row's generation as a fence. The agent-server behind it keeps
-- conversations: their turns, event log, runs with their slots, lease and queues. The chat bridge
-- keeps a ledger of messages and decides which mounts a container may have. This library models
-- src/coordinator of the repository, these parts of the agent-server, the ledger and the mounts, and
-- proves ordering, fencing and once-only properties for any interleaving of any number of workers.
--
-- Files and the code they model:
--   Work.antt, Relay/Events.antt: src/coordinator/types.ts, rows, claims, outcomes, events.
--   Json.antt, Text.antt: JSON values as the relay reads them, and String.prototype.trim.
--   Command.antt, Relay/Command.antt: src/coordinator/relayCommands.ts, and performCommand of
--     src/coordinator/messageRelay.ts.
--   Store.antt and Store/: src/coordinator/store.ts, the tables of src/coordinator/schema.ts. A
--     method is the function of the same name in snake case (claimReady is claim_ready); a
--     transaction is one function of the store, so an interleaving is a list of operations.
--   Relay/Extract.antt: the extractors of src/coordinator/messageRelay.ts.
--   Relay/Intake.antt: acceptInbound and integrateNextIntake, one function for each segment
--     between two awaits.
--   Relay/Outbox.antt: syncDeliveryOutbox and isQueuedFinalEcho.
--   Relay/Dispatch.antt: src/coordinator/deliveryDispatcher.ts, the segments before and after the
--     send.
--   Relay/Outbound.antt: src/coordinator/outboundRelay.ts, one tick of the outbound side.
--   Lease.antt: packages/openhands-agent-server/src/conversationLease.ts, the lease on a
--     conversation's directory; each method is a function of the lease file, since it runs under
--     the lock file.
--   Admission.antt: packages/openhands-agent-server/src/runAdmission.ts, the pool of run slots.
--   Recovery.antt: src/coordinator/runRecovery.ts, the journal of runs that may be interrupted.
--   Scheduler.antt, Scheduler/Targets.antt, Scheduler/Tasks.antt, Scheduler/Runs.antt:
--     src/coordinator/taskScheduler.ts, due occurrences, what a command may name, the tool's
--     commands, and the runs as their events are observed.
--   Notify.antt: src/coordinator/notifySmolpaws.ts, findings handed to a lane.
--   Network.antt: src/network-errors.ts, the classification of transient failures.
--   Turns.antt: apps/agent-server/src/runner/turnState.ts, the turns of a conversation;
--     Turns/Persist.antt and its modules, the file that they are kept in; Turns/Submit.antt,
--     Turns/Processor.antt and Turns/Steps.antt, what
--     apps/agent-server/src/agent-server/conversationRuntime.ts does with them.
--   Service.antt: packages/openhands-agent-server/src/eventService.ts; Service/Search.antt, pages of
--     events; Service/Send.antt, appends, recovery and publication; Service/Message.antt, all of
--     sendMessage; Service/Runs.antt, the runs and their slots between one await and the next.
--   Queue.antt: apps/agent-server/src/runner/outbox.ts, a conversation's queues.
--   Mounts.antt: src/mount-security.ts, additional mounts of containers.
--   Ledger.antt, Ledger/Cursors.antt: apps/whatsapp/src/ledger.ts, with the marks of
--     src/whatsapp-progress.ts.
--   Text.antt, Decimal.antt, Json.antt: texts, decimal numerals and JSON values, which belong to the
--     language. A number of a JSON value is a natural number.
-- The proofs:
--   Lifecycle.antt and Lifecycle/: the abstract machine of a row and of the table (the design's
--     state diagram, src/coordinator/DESIGN.md), its sound tables, and the generation as a fence.
--   Invariant.antt and Invariant/: well-formed stores, and that each operation refines the machine.
--   History.antt and History/: runs of any operations and what holds along them.
--   Claiming.antt: what a claim takes. Delivery.antt and Delivery/: runs with dispatches and sends.
--   Relay/Outbox/: replays and the end of the outbox's loops. Relay/Extract/Notices.antt: the error
--     notices. Lease/, Admission/, Recovery/, Notify/ and Scheduler/Once.antt: the holder of a lease,
--     the capacity of the pool, the open actions of a run, what a handoff leaves, the journal of the
--     scheduler's commands. Turns/Writable.antt and Turns/RoundTrip.antt: writing and reading back;
--     Turns/Keyed.antt to Turns/Orderly.antt: what the steps of a conversation keep.
--     Service/Pages.antt, Appended.antt, Published.antt, Slots.antt, Carried.antt and Woken.antt,
--     Queue/, Mounts/ and Ledger/: the search, the appends, the publication, the slots of a conversation and the
--     requests that it keeps, the items of a queue, safe mounts, marked messages. Examples.antt and
--     Examples/: concrete runs.
--
-- Numbers and bounds: a timestamp is a number of milliseconds, since the ISO texts of the code are
-- ordered as the instants they name. Counters (sequence, generation, attempts) are natural numbers;
-- the code's are integers that only grow, except attempts, whose MAX(attempts - 1, 0) is the
-- subtraction that stops at 0. The loop of syncDeliveryOutbox and the scan of isQueuedFinalEcho run
-- on fuel: the scan is given its offset and one, the loop any number that its caller gives.
--
-- Parameters: the values of randomUUID, the event ids of deterministicEventId, the retry policy with
-- its jitter, the relay's options, the replies of the agent-server and of the platform, the clock;
-- the process table for the lease; the parsers of dates and cron expressions, the language's String,
-- JSON.stringify and SQLite's order of texts for the scheduler; the append of the agent library's event
-- log; the test of dates for the turns; the file system of the mounts; SQLite's LIKE for the ledger.
--
-- Not modelled: the other methods of the client of the agent-server, timers and processes
-- (src/coordinator/relayRuntime.ts), schema migrations, SQLite's own failures, the lock file of the
-- lease, the scheduler's import and export, the recovery of a stale conversation before a
-- submission, which may delete it with its turns, the rest of the platform apps (apps/) and of the
-- agent-server (packages/), which are adapters of platform and agent libraries and request handlers,
-- and the rest of src/.
mod Base
pub mod Json
pub mod Text
pub mod Decimal
pub mod Turns
pub mod Service
pub mod Queue
pub mod Mounts
pub mod Ledger
pub mod Work
pub mod Command
pub mod Store
pub mod Lifecycle
pub mod Invariant
pub mod History
pub mod Claiming
pub mod Relay
pub mod Delivery
pub mod Lease
pub mod Admission
pub mod Recovery
pub mod Scheduler
pub mod Notify
pub mod Network
mod Examples
