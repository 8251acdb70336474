-- ===== src/Lib.antt =====
-- HYDRA-UMC job dispatcher: the engine of src/dispatcher, and the handlers of src/api over it.
--
-- The program keeps a queue of jobs and a registry of robots in memory, behind one mutex, and
-- writes both through to a store. Clients add jobs (AddJob, SubmitJob); robots register and send
-- heartbeats (UpsertRobot, UpdateRobot); a dispatch pass (DispatchOnce) gives pending jobs to
-- eligible robots; robots report the outcome (CompleteJobAttempt); jobs are cancelled, requeued and
-- replanned; a sweep (DetectStaleAssignmentsStop) looks for silent robots; finished jobs are
-- archived; events go to subscribers.
--
-- Since the mutex serialises the methods, each is a function from an engine to an engine and a
-- result, and a history is a list of calls. The maps of the program are lists of entries under a
-- key (Common.Keyed). A pointer to a job or a robot is the id under which the map holds it. The
-- store is the parameter `StoreOps`: what it answers to each call, its failures included, is free.
-- The clock is the field `now` of the engine, which the call `tick` sets to any instant.
--
-- Files:
--   Common and below    texts, integers, lists, Boolean tests, keyed lists.
--   Time, Model         instants, heartbeatFromFuture; the structs and enums of dispatcher.go.
--   Events              src/dispatcher/events.go: the hub, its buffer and its subscribers.
--   Engine              the engine's state and its writes: persistJobLocked, persistRobotLocked,
--                       beginBatchLocked, commitBatchLocked, recordPersistOutcome. Engine.Frame
--                       says what they leave alone.
--   Graph               validateDependencyShape, dependsTransitivelyLocked. Graph.Reach and
--                       Graph.Complete are about what the search finds.
--   Status              computeStatus and refreshBlocked. Below it: its passes, and the settled
--                       verdicts that they reach.
--   Held                heldBy: noteAssignedLocked, jobsHeldByLocked, and the index's proofs.
--   Tools, Settings     src/dispatcher/tools.go, toolconfirm.go, and the setters.
--   Requeue             src/dispatcher/replan.go and RequeueJob.
--   Registry            UpsertRobot, UpdateRobot, RemoveRobot.
--   Submit              AddJob, SubmitJob.
--   Dispatch            bestRobotFor, DispatchOnce; src/dispatcher/location.go.
--   Outcome             CompleteJobAttempt, CancelJob.
--   Stale               DetectStaleAssignmentsStop; src/dispatcher/stopconfirm.go.
--   Waiting, Queries    src/dispatcher/waiting.go, state.go, JobsPageFor and the other reads.
--   Archive             src/dispatcher/archive.go.
--   Eta                 src/dispatcher/eta.go: Eta the durations, Eta.Plan planLocked, Eta.Queue
--                       QueueETA; below it also their proofs.
--   Reservation         the invariant of the queue and the registry, one module below it for each
--                       group of methods.
--   Restart             NewEngineWithStore: what is loaded at start, and histories after it.
--   Lifecycle           the life of a job as an abstract machine, and what its steps keep; below it
--                       one module for each group of methods, which are shown to be such steps.
--   Run                 histories of calls. Run.Reserved and Run.Sound are what holds after each.
--   Api                 the handlers of src/api/api.go. Api.Routes is a request and its handler,
--                       Api.Calls is a table of the calls that requests ask for, Api.Served is
--                       about the handlers and the table, Api.Failing and Api.Refused about what
--                       an error leaves alone, and Api.Sound about what holds after any requests.
--                       Api.Entry and Api.Admitted are who is let in.
--   Examples            concrete data, and each theorem at it.
--
-- Fuel. The loop of refreshBlocked has two passes more than there are jobs. The search of
-- dependsTransitivelyLocked has one round more than there are roots and listed dependencies: each
-- round takes one id from the stack, and a job's dependencies are put on it once. The loop of
-- ArchiveFinished has one round more than there are candidates, of which each round but the last
-- takes one out. The loop of planLocked has one pass more than there are jobs to lay out.
--
-- Names of robots. UpsertRobot and UpdateRobot take an empty id too, which the index heldBy does not
-- note; handleRobots of src/api refuses it. `all_named` says of a history that its registrations and
-- heartbeats give an id.
--
-- Bounds. Instants are nanoseconds since year 1 and durations are not negative; the program's
-- 64-bit clock arithmetic is not bounded here, nor are the counters that rise by one at a time
-- (Load, Attempt, the submission order). A location cost is a finite float64 that is not negative,
-- and stands as a multiple of the smallest positive one.
--
-- Not modelled: the other routes of the HTTP interface (state, estimates, event
-- stream, maintenance, reload, metrics), the gRPC and MQTT interfaces, the SQLite store behind
-- StoreOps (but for the fields that it reads back),
-- webhooks and production events, maintenance windows, proposal checks, the configuration
-- file, and the process itself. The field eta of the engine is an argument of QueueETA, and the
-- arithmetic of float64 a parameter of its percentiles. The texts of errors and the warnings in the log are left out.
pub mod Common
pub mod Time
pub mod Events
pub mod Model
pub mod Engine
pub mod Graph
pub mod Status
pub mod Held
pub mod Tools
pub mod Requeue
pub mod Registry
pub mod Submit
pub mod Dispatch
pub mod Outcome
pub mod Stale
pub mod Reservation
pub mod Settings
pub mod Lifecycle
pub mod Restart
pub mod Eta
pub mod Api
pub mod Run
pub mod Waiting
pub mod Examples
pub mod Archive
pub mod Queries
