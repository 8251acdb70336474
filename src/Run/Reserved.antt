-- ===== src/Run/Reserved.antt =====
-- The reservations hold after every history of calls that gives the ids of its robots, whatever the
-- store answers to the writes.
use hydra_umc_job_dispatcher.Common.{
  ◌≡◌, refl, inl, inr, ℕ, Bool, true, false, Option, some, List, [], ◌∷◌, Text, Bool-cases, arith,
}
use hydra_umc_job_dispatcher.Common.Keyed.{find}
use hydra_umc_job_dispatcher.Model.{Job, Robot, OnUnconfirmed, job_key, robot_key, is_assigned}
use hydra_umc_job_dispatcher.Engine.{Engine, StoreOps, new_engine}
use hydra_umc_job_dispatcher.Engine.Frame.{SameQueue}
use hydra_umc_job_dispatcher.Tools.{confirm_tools}
use hydra_umc_job_dispatcher.Settings.{set_tool_confirmation}
use hydra_umc_job_dispatcher.Run.{
  Call, tick, tool_catalog, robot_freshness, replan, location_costs, archive_after, events,
  tool_confirmation, confirm, add, submit, upsert, update, remove, dispatch, complete, cancel,
  requeue, replan_robot_of, detect, acknowledge, archive, page, started, step, run, names_robot,
  all_named,
}
use hydra_umc_job_dispatcher.Reservation.{EngineIsReserved, SameQueue-IsReserved, prune-IsReserved}
use hydra_umc_job_dispatcher.Queries.{jobs_page_for}
use hydra_umc_job_dispatcher.Held.{jobs_held_by}
use hydra_umc_job_dispatcher.Reservation.Entering.{add_job-IsReserved, submit_job-IsReserved}
use hydra_umc_job_dispatcher.Reservation.Fleet.{
  upsert_robot-IsReserved, update_robot-IsReserved, remove_robot-IsReserved,
}
use hydra_umc_job_dispatcher.Reservation.Assigning.{dispatch_once-IsReserved}
use hydra_umc_job_dispatcher.Reservation.Ending.{
  complete_job_attempt-IsReserved, cancel_job-IsReserved,
}
use hydra_umc_job_dispatcher.Reservation.Returning.{requeue_job-IsReserved, replan_robot-IsReserved}
use hydra_umc_job_dispatcher.Archive.Reserved.{archive_finished-IsReserved}
use hydra_umc_job_dispatcher.Reservation.Silence.{detect_stale-IsReserved, ack_stop-IsReserved}

module _ {S : Type 0} where
  pub started-IsReserved : (s : Option S) → EngineIsReserved (started s)
  unfolding started new_engine find
  started-IsReserved s = record {
    reserved = λ x j f a. cc;
    exclusive = λ x y i j f g a b e. cc;
    indexed = λ x j f n. cc;
    named = refl;
    distinct = tt;
  }

  confirm-IsReserved :
      (fetch : Text → Option Text) (e : Engine S)
      → EngineIsReserved e
      → EngineIsReserved (confirm_tools fetch e e).0
  unfolding confirm_tools
  confirm-IsReserved fetch e v = elim (Bool-cases e.tool_check.enabled) [
    | inl on ↦ rw on v
    | inr off ↦ rw off v
  ]

  set_tool_confirmation-SameQueue :
      (enabled : Bool) (ttl : ℕ) (policy : OnUnconfirmed) (fetched : Bool) (e : Engine S)
      → SameQueue (set_tool_confirmation enabled ttl policy fetched e).0 e
  unfolding set_tool_confirmation
  set_tool_confirmation-SameQueue enabled ttl policy fetched e = ground arith

module _ {S : Type 0} (ops : StoreOps S) where
  step-IsReserved :
      (c : Call) (e : Engine S)
      → names_robot c ≡ true
      → EngineIsReserved e
      → EngineIsReserved (step ops c e)
  unfolding step jobs_page_for jobs_held_by
  step-IsReserved (tick t) e h v = v
  step-IsReserved (tool_catalog c) e h v = v
  step-IsReserved (robot_freshness d) e h v = v
  step-IsReserved (replan c) e h v = v
  step-IsReserved (location_costs c) e h v = v
  step-IsReserved (archive_after d) e h v = v
  step-IsReserved (events hub) e h v = v
  step-IsReserved (tool_confirmation enabled ttl policy fetched) e h v =
      SameQueue-IsReserved (set_tool_confirmation-SameQueue enabled ttl policy fetched e) v
  step-IsReserved (confirm fetch) e h v = confirm-IsReserved fetch e v
  step-IsReserved (add j) e h v = add_job-IsReserved ops j e v
  step-IsReserved (submit j) e h v = submit_job-IsReserved ops j e v
  step-IsReserved (upsert r) e h v = upsert_robot-IsReserved ops r e (ground arith) v
  step-IsReserved (update u) e h v = update_robot-IsReserved ops u e (ground arith) v
  step-IsReserved (remove id) e h v = remove_robot-IsReserved ops id e v
  step-IsReserved dispatch e h v = dispatch_once-IsReserved ops e v
  step-IsReserved (complete job_id success robot_id attempt) e h v =
      complete_job_attempt-IsReserved ops job_id success robot_id attempt e v
  step-IsReserved (cancel job_id) e h v = cancel_job-IsReserved ops job_id e v
  step-IsReserved (requeue job_id robot_id) e h v = requeue_job-IsReserved ops job_id robot_id e v
  step-IsReserved (replan_robot_of robot_id) e h v = replan_robot-IsReserved ops robot_id e v
  step-IsReserved (detect timeout) e h v = detect_stale-IsReserved ops timeout e v
  step-IsReserved (acknowledge robot_id job_id) e h v = ack_stop-IsReserved ops robot_id job_id e v
  step-IsReserved archive e h v = archive_finished-IsReserved ops e v
  step-IsReserved (page robot status offset limit) e h v = prune-IsReserved robot v

  pub run-IsReserved :
      (cs : List Call) (e : Engine S)
      → all_named cs ≡ true
      → EngineIsReserved e
      → EngineIsReserved (run ops cs e)
  unfolding run
  run-IsReserved [] e h v = v
  run-IsReserved (c ∷ cs) e h v =
      run-IsReserved cs (step ops c e) (ground arith) (step-IsReserved c e (ground arith) v)

  -- After every history of calls on an engine that started empty, in which each registration and
  -- heartbeat gives the id of its robot, whatever the store answered to the writes, two assigned jobs
  -- that name one robot are one job.
  pub one_job_per_robot :
      (s : Option S) (cs : List Call) (x y : Text) (i j : Job)
      → all_named cs ≡ true
      → find job_key x (run ops cs (started s)).jobs ≡ some i
      → find job_key y (run ops cs (started s)).jobs ≡ some j
      → is_assigned i.status ≡ true
      → is_assigned j.status ≡ true
      → i.assigned_robot ≡ j.assigned_robot
      → x ≡ y
  one_job_per_robot s cs x y i j h f g a b e =
      (run-IsReserved cs (started s) h (started-IsReserved s)).exclusive x y i j f g a b e

  -- After every history of calls on an engine that started empty, in which each registration and
  -- heartbeat gives the id of its robot, whatever the store answered to the writes, the robot of an
  -- assigned job is registered and not available.
  pub assigned_robot_taken :
      (s : Option S) (cs : List Call) (x : Text) (j : Job)
      → all_named cs ≡ true
      → find job_key x (run ops cs (started s)).jobs ≡ some j
      → is_assigned j.status ≡ true
      → (r : Robot) × (find robot_key j.assigned_robot (run ops cs (started s)).robots ≡ some r)
        × (r.available ≡ false)
  assigned_robot_taken s cs x j h f a =
      (run-IsReserved cs (started s) h (started-IsReserved s)).reserved x j f a
