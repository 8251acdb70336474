-- ===== src/Examples.antt =====
-- Concrete data for the runs of the model in the modules below.
pub mod History
pub mod Queue
pub mod Fleet
pub mod Feed
pub mod Past
pub mod Life
pub mod Again
pub mod Ahead
pub mod Served
use hydra_umc_job_dispatcher.Common.{ℕ, true, false, none, some, List, [], ◌∷◌, ◌++◌, Text}
use hydra_umc_job_dispatcher.Common.Int.{pos}
use hydra_umc_job_dispatcher.Model.{Job, JobStatus, Robot}
use hydra_umc_job_dispatcher.Engine.{Engine, StoreOps}
use hydra_umc_job_dispatcher.Run.{Call, tick, add, upsert, dispatch, started, run}

-- A store that remembers the ids of the jobs written to it.
abbrev pub ledger : StoreOps (List Text)
ledger = record {
  save_job = λ s j. (s ++ j.id ∷ [], none);
  save_robot = λ s r. (s, none);
  save_batch = none;
  delete_robot = none;
  archive_jobs = none;
}

abbrev pub weld : Text
weld = 119 ∷ []

abbrev pub paint : Text
paint = 112 ∷ 112 ∷ []

abbrev pub arm : Text
arm = 97 ∷ []

abbrev pub job_of : Text → List Text → Job
job_of id deps = record {
  id = id;
  priority = pos 1;
  required_tool = [];
  location = [];
  depends_on = deps;
  status = JobStatus.pending;
  assigned_robot = [];
  dedup_key = [];
  submitted_at_ms = pos 0;
  assigned_at_ms = pos 0;
  completed_at_ms = pos 0;
  attempt = 0;
  seq = 0;
}

abbrev pub robot_of : Text → ℕ → Robot
robot_of id load = record {
  id = id;
  location = [];
  tool = [];
  available = true;
  load = load;
  stop_capable = false;
  self_reported_unavailable = false;
  last_heartbeat = 0;
}

abbrev pub history : List Call
history =
    tick 63000000000000000000
    ∷ add (job_of weld [])
    ∷ add (job_of paint (weld ∷ []))
    ∷ upsert (robot_of arm 0)
    ∷ dispatch
    ∷ []

abbrev pub after : Engine (List Text)
after = run ledger history (started (some []))

abbrev pub welding : Job
welding = record (job_of weld []) {
  status = JobStatus.assigned;
  assigned_robot = arm;
  submitted_at_ms = pos 864403200000;
  assigned_at_ms = pos 864403200000;
  attempt = 1;
  seq = 1;
}
