-- ===== src/Engine.antt =====
-- The engine's state, the store that it writes through, and the batches of writes
-- (src/dispatcher/dispatcher.go: Engine, Store, beginBatchLocked, commitBatchLocked,
-- persistJobLocked, persistRobotLocked, recordPersistOutcome). A *Job or *Robot of the program is
-- the id under which the engine's map holds it. The mutex makes each method one step.
pub mod Frame
use hydra_umc_job_dispatcher.Common.{
  ℕ, Bool, true, false, Option, none, some, List, [], ◌∷◌, Text, ltb, ltt, sort_by, filter_some,
  if◌then◌else◌, ◌&&◌,
}
use hydra_umc_job_dispatcher.Common.Int.{ℤ}
use hydra_umc_job_dispatcher.Common.Keyed.{find}
use mathlib.Core.Option
use hydra_umc_job_dispatcher.Time.{Instant, Duration}
use hydra_umc_job_dispatcher.Events.{EventHub, EventType, publish}
use hydra_umc_job_dispatcher.Model.{
  Job, Robot, Error, DedupEntry, Holding, ToolCatalog, LocationConfig, ReplanConfig, StopRequest,
  ToolConfirmation, PendingWrites, job_key, robot_key, add_text, skip,
}

-- Store, BatchStore, RobotDeleter and ArchiveStore: what a store of state `S` answers to each
-- call. A method that the store does not implement is absent.
pub record StoreOps (S : Type 0) : Type 0 where
  pub save_job : S → Job → S × Option Error
  pub save_robot : S → Robot → S × Option Error
  pub save_batch : Option (S → List Job → List Robot → S × Option Error)
  pub delete_robot : Option (S → Text → S × Option Error)
  pub archive_jobs : Option (S → List Text → ℤ → S × Option Error)

-- `now` is what the engine's clock answers during the operation at hand.
pub record Engine (S : Type 0) : Type 0 where
  pub jobs : List Job
  pub robots : List Robot
  pub next_seq : ℕ
  pub dedup_index : List DedupEntry
  pub held_by : List Holding
  pub store : Option S
  pub last_persist_err : Option Error
  pub robot_freshness : Duration
  pub tools : Option ToolCatalog
  pub location : LocationConfig
  pub replan : ReplanConfig
  pub archive_after : Duration
  pub stop_req : List StopRequest
  pub events : Option EventHub
  pub tool_check : ToolConfirmation
  pub now : Instant
  pub pending : Option PendingWrites

-- NewEngine
unfoldable pub new_engine : {S : Type 0} → Engine S
new_engine = record {
  jobs = [];
  robots = [];
  next_seq = 0;
  dedup_index = [];
  held_by = [];
  store = none;
  last_persist_err = none;
  robot_freshness = 0;
  tools = none;
  location = record { enabled = false; costs = [] };
  replan = record {
    enabled = false;
    on_stale = false;
    on_fault = false;
    stop_ack_timeout = 0;
    allow_unconfirmed = false;
  };
  archive_after = 0;
  stop_req = [];
  events = none;
  tool_check = record { enabled = false; ttl = 0; on_unconfirmed = skip; seen = [] };
  now = 0;
  pending = none;
}

abbrev pub is_nil : {A : Type 0} → List A → Bool
is_nil [] = true
is_nil (x ∷ xs) = false

-- The first error among several results.
unfoldable pub first_error : List (Option Error) → Option Error
first_error [] = none
first_error (none ∷ es) = first_error es
first_error (some e ∷ es) = some e

module _ {S : Type 0} where
  -- recordPersistOutcome
  unfoldable pub record_persist_outcome : List (Option Error) → Engine S → Engine S
  unfolding first_error
  record_persist_outcome errs e = record e { last_persist_err = first_error errs }

  -- emitLocked
  unfoldable pub emit : EventType → Job → Engine S → Engine S
  emit kind j e = record e {
    events = Option.map (publish kind j.id j.assigned_robot j.attempt) e.events;
  }

  unfoldable pub begin_batch : Engine S → Engine S
  begin_batch e = elim e.store [
    | none ↦ e
    | some _ ↦ record e { pending = some (record { job_ids = []; robot_ids = [] }) }
  ]

module _ {S : Type 0} (ops : StoreOps S) where
  unfoldable pub persist_job : Job → Engine S → Engine S × Option Error
  persist_job j e = elim e.store [
    | none ↦ (e, none)
    | some s ↦ elim e.pending [
      | some p ↦
          (record e { pending = some (record p { job_ids = add_text j.id p.job_ids }) }, none)
      | none ↦ let r = ops.save_job s j in (record e { store = some r.0 }, r.1)
    ]
  ]

  unfoldable pub persist_robot : Robot → Engine S → Engine S × Option Error
  persist_robot r e = elim e.store [
    | none ↦ (e, none)
    | some s ↦ elim e.pending [
      | some p ↦
          (record e { pending = some (record p { robot_ids = add_text r.id p.robot_ids }) }, none)
      | none ↦ let w = ops.save_robot s r in (record e { store = some w.0 }, w.1)
    ]
  ]

  -- The same through a pointer: the job and the robot as the engine holds them.
  unfoldable pub persist_job_at : Text → Engine S → Engine S × Option Error
  persist_job_at id e = elim (find job_key id e.jobs) [
    | none ↦ (e, none)
    | some j ↦ persist_job j e
  ]

  unfoldable pub persist_robot_at : Text → Engine S → Engine S × Option Error
  persist_robot_at id e = elim (find robot_key id e.robots) [
    | none ↦ (e, none)
    | some r ↦ persist_robot r e
  ]

  -- The loops of commitBatchLocked over a store without SaveBatch: every record is written, and
  -- the first error is kept.
  save_robots : List Robot → S → Option Error → S × Option Error
  unfolding first_error
  save_robots [] s first = (s, first)
  save_robots (r ∷ rs) s first =
      let w = ops.save_robot s r in save_robots rs w.0 (first_error (first ∷ w.1 ∷ []))

  save_jobs : List Job → S → Option Error → S × Option Error
  unfolding first_error
  save_jobs [] s first = (s, first)
  save_jobs (j ∷ js) s first =
      let w = ops.save_job s j in save_jobs js w.0 (first_error (first ∷ w.1 ∷ []))

  unfoldable pub write_records : List Job → List Robot → S → S × Option Error
  unfolding save_robots save_jobs
  write_records jobs robots s = elim ops.save_batch [
    | some save_batch ↦ save_batch s jobs robots
    | none ↦ let w = save_robots robots s none in save_jobs jobs w.0 w.1
  ]

  unfoldable pub commit_batch : Engine S → Engine S × Option Error
  unfolding write_records
  commit_batch e = elim e.pending [
    | none ↦ (record e { pending = none }, none)
    | some p ↦ elim e.store [
      | none ↦ (record e { pending = none }, none)
      | some s ↦
          let jobs =
            sort_by (λ a b. ltb a.seq b.seq)
              (filter_some (λ id. find job_key id e.jobs) p.job_ids) in
          let robots =
            sort_by (λ a b. ltt a.id b.id)
              (filter_some (λ id. find robot_key id e.robots) p.robot_ids) in
          let w = write_records jobs robots s in
          if is_nil p.job_ids && is_nil p.robot_ids
          then (record e { pending = none }, none)
          else (record e { pending = none; store = some w.0 }, w.1)
    ]
  ]
