-- ===== src/Run.antt =====
-- Any history of calls (src/dispatcher): the engine that the process starts with, and one step for
-- each method that changes it. The mutex of the engine makes a history a sequence of steps.
pub mod Reserved
pub mod Sound
use hydra_umc_job_dispatcher.Common.{
  ℕ, Bool, true, false, not, ◌&&◌, Option, none, some, List, [], ◌∷◌, Text, is_empty,
}
use hydra_umc_job_dispatcher.Common.Int.{ℤ}
use hydra_umc_job_dispatcher.Time.{Instant, Duration}
use hydra_umc_job_dispatcher.Events.{EventHub}
use hydra_umc_job_dispatcher.Model.{
  Job, JobStatus, Robot, ToolCatalog, LocationConfig, ReplanConfig, OnUnconfirmed,
}
use hydra_umc_job_dispatcher.Engine.{Engine, StoreOps, new_engine}
use hydra_umc_job_dispatcher.Tools.{confirm_tools}
use hydra_umc_job_dispatcher.Settings.{
  set_tool_catalog, set_robot_freshness, set_replan, set_location_costs, set_archive_after,
  set_events, set_tool_confirmation,
}
use hydra_umc_job_dispatcher.Submit.{add_job, submit_job}
use hydra_umc_job_dispatcher.Registry.{RobotUpdate, upsert_robot, update_robot, remove_robot}
use hydra_umc_job_dispatcher.Dispatch.{dispatch_once}
use hydra_umc_job_dispatcher.Outcome.{complete_job_attempt, cancel_job}
use hydra_umc_job_dispatcher.Requeue.{requeue_job, replan_robot}
use hydra_umc_job_dispatcher.Archive.{archive_finished}
use hydra_umc_job_dispatcher.Stale.{detect_stale, ack_stop}
use hydra_umc_job_dispatcher.Queries.{jobs_page_for}

-- A call of the engine; `tick` is the clock, which may go either way. The answers of the
-- controllers are the parameter of `confirm`; `page` is the reading of jobs, which prunes the index.
pub data Call : Type 0 where
  tick : Instant → Call
  tool_catalog : Option ToolCatalog → Call
  robot_freshness : Duration → Call
  replan : ReplanConfig → Call
  location_costs : LocationConfig → Call
  archive_after : Duration → Call
  events : Option EventHub → Call
  tool_confirmation : Bool → Duration → OnUnconfirmed → Bool → Call
  confirm : (Text → Option Text) → Call
  add submit : Job → Call
  upsert : Robot → Call
  update : RobotUpdate → Call
  remove : Text → Call
  dispatch : Call
  complete : Text → Bool → Text → ℕ → Call
  cancel : Text → Call
  requeue : Text → Text → Call
  replan_robot_of : Text → Call
  detect : Duration → Call
  acknowledge : Text → Text → Call
  archive : Call
  page : Text → Option JobStatus → ℤ → ℤ → Call

-- A registration or a heartbeat gives the id of a robot. UpsertRobot and UpdateRobot do not ask for
-- one; handleRobots (src/api/api.go) does, before it calls UpdateRobot.
abbrev pub names_robot : Call → Bool
names_robot (upsert r) = not (is_empty r.id)
names_robot (update u) = not (is_empty u.id)
names_robot _ = true

abbrev pub all_named : List Call → Bool
all_named [] = true
all_named (c ∷ cs) = names_robot c && all_named cs

module _ {S : Type 0} where
  -- The engine over a store that holds no record yet, or over none.
  unfoldable pub started : Option S → Engine S
  started s = record new_engine { store = s }

module _ {S : Type 0} (ops : StoreOps S) where
  unfoldable pub step : Call → Engine S → Engine S
  step (tick t) e = record e { now = t }
  step (tool_catalog c) e = set_tool_catalog c e
  step (robot_freshness d) e = set_robot_freshness d e
  step (replan c) e = set_replan c e
  step (location_costs c) e = set_location_costs c e
  step (archive_after d) e = set_archive_after d e
  step (events h) e = set_events h e
  step (tool_confirmation enabled ttl policy fetched) e =
      (set_tool_confirmation enabled ttl policy fetched e).0
  step (confirm fetch) e = (confirm_tools fetch e e).0
  step (add j) e = (add_job ops j e).0
  step (submit j) e = (submit_job ops j e).0
  step (upsert r) e = upsert_robot ops r e
  step (update u) e = update_robot ops u e
  step (remove id) e = (remove_robot ops id e).0
  step dispatch e = (dispatch_once ops e).0
  step (complete job_id success robot_id attempt) e =
      (complete_job_attempt ops job_id success robot_id attempt e).0
  step (cancel job_id) e = (cancel_job ops job_id e).0
  step (requeue job_id robot_id) e = (requeue_job ops job_id robot_id e).0
  step (replan_robot_of robot_id) e = (replan_robot ops robot_id e).0
  step (detect timeout) e = (detect_stale ops timeout e).0
  step (acknowledge robot_id job_id) e = (ack_stop ops robot_id job_id e).0
  step archive e = (archive_finished ops e).0
  step (page robot status offset limit) e = (jobs_page_for robot status offset limit e).0

  unfoldable pub run : List Call → Engine S → Engine S
  run [] e = e
  run (c ∷ cs) e = run cs (step c e)
