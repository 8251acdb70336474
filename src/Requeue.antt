-- ===== src/Requeue.antt =====
-- Jobs that go back to the queue (src/dispatcher/replan.go: requeueJobLocked, requeueAllLocked,
-- ReplanRobot; src/dispatcher/dispatcher.go: RequeueJob).
use hydra_umc_job_dispatcher.Common.{
  true, false, ◌&&◌, not, Option, none, some, List, [], ◌∷◌, ◌++◌, map, Text, eqt, is_empty,
  if◌then◌else◌,
}
use hydra_umc_job_dispatcher.Common.Int.{pos}
use hydra_umc_job_dispatcher.Common.Keyed.{find, update, delete}
use hydra_umc_job_dispatcher.Model.{
  Job, JobStatus, Robot, Error, Result, ok, err, unknown_job, unknown_robot, job_finished,
  robot_mismatch, replan_off, job_key, robot_key, stop_request_key,
}
use hydra_umc_job_dispatcher.Engine.{
  Engine, StoreOps, persist_job, persist_robot, persist_robot_at, begin_batch, commit_batch,
  record_persist_outcome,
}
use hydra_umc_job_dispatcher.Status.{compute_status}
use hydra_umc_job_dispatcher.Held.{jobs_of_robot}

-- The robot is held unavailable until its own next heartbeat says otherwise.
abbrev pub hold_robot : Robot → Robot
hold_robot r = record r { available = false; self_reported_unavailable = true }

abbrev pub back_to_queue : JobStatus → Job → Job
back_to_queue s j = record j { assigned_robot = []; assigned_at_ms = pos 0; status = s }

module _ {S : Type 0} (ops : StoreOps S) where
  unfoldable pub hold_and_persist : Text → Engine S → Engine S × Option Error
  hold_and_persist robot_id e = elim (find robot_key robot_id e.robots) [
    | none ↦ (e, none)
    | some r ↦
        persist_robot ops (hold_robot r)
          (record e { robots = update robot_key robot_id hold_robot e.robots })
  ]

  -- requeueJobLocked on the job `id`, with the errors of its two writes.
  unfoldable pub requeue_locked : Text → Engine S → Engine S × List (Option Error)
  requeue_locked id e = elim (find job_key id e.jobs) [
    | none ↦ (e, [])
    | some j ↦
        let held = hold_and_persist j.assigned_robot e in
        let status = compute_status e.jobs j in
        let e' = record held.0 {
          stop_req = delete stop_request_key id held.0.stop_req;
          jobs = update job_key id (back_to_queue status) held.0.jobs;
        } in
        let w = persist_job ops (back_to_queue status j) e' in (w.0, held.1 ∷ w.1 ∷ [])
  ]

  unfoldable pub requeue_each : List Text → Engine S → Engine S × List (Option Error)
  requeue_each [] e = (e, [])
  requeue_each (id ∷ ids) e =
      let r = requeue_locked id e in let rest = requeue_each ids r.0 in (rest.0, r.1 ++ rest.1)

  unfoldable pub persist_extra : List Text → Engine S → Engine S × List (Option Error)
  persist_extra [] e = (e, [])
  persist_extra (id ∷ ids) e =
      let w = persist_robot_at ops id e in
      let rest = persist_extra ids w.0 in (rest.0, w.1 ∷ rest.1)

  -- requeueAllLocked: one transaction for the jobs and the robots given beside them.
  unfoldable pub requeue_all : List Text → List Text → Engine S → Engine S × List Text
  requeue_all ids extra e =
      let jobs = requeue_each ids (begin_batch e) in
      let robots = persist_extra extra jobs.0 in
      let commit = commit_batch ops robots.0 in
      (record_persist_outcome (jobs.1 ++ robots.1 ++ commit.1 ∷ []) commit.0, ids)

  -- The branch of RequeueJob for a job in flight.
  unfoldable pub requeue_checked : Job → Text → Engine S → Engine S × Result (Unit {0})
  requeue_checked j robot_id e =
      let r = requeue_locked j.id (begin_batch e) in
      let commit = commit_batch ops r.0 in
      if not (is_empty robot_id) && not (eqt robot_id j.assigned_robot)
      then (e, err robot_mismatch)
      else (record_persist_outcome (r.1 ++ commit.1 ∷ []) commit.0, ok tt)

  unfoldable pub requeue_by_status :
      JobStatus → Job → Text → Engine S → Engine S × Result (Unit {0})
  requeue_by_status JobStatus.pending j robot_id e = (e, ok tt)
  requeue_by_status JobStatus.blocked j robot_id e = (e, ok tt)
  requeue_by_status JobStatus.unreachable j robot_id e = (e, ok tt)
  requeue_by_status JobStatus.done j robot_id e = (e, err job_finished)
  requeue_by_status JobStatus.failed j robot_id e = (e, err job_finished)
  requeue_by_status JobStatus.cancelled j robot_id e = (e, err job_finished)
  requeue_by_status JobStatus.assigned j robot_id e = requeue_checked j robot_id e
  requeue_by_status JobStatus.unknown j robot_id e = requeue_checked j robot_id e

  unfoldable pub requeue_job : Text → Text → Engine S → Engine S × Result (Unit {0})
  requeue_job job_id robot_id e = elim (find job_key job_id e.jobs) [
    | none ↦ (e, err unknown_job)
    | some j ↦ requeue_by_status j.status j robot_id e
  ]

  -- ReplanRobot
  unfoldable pub replan_robot : Text → Engine S → Engine S × Result (List Text)
  replan_robot robot_id e =
      let failed = record e { robots = update robot_key robot_id hold_robot e.robots } in
      let jobs = jobs_of_robot robot_id true failed in
      let r = requeue_all (map job_key jobs.0) (robot_id ∷ []) jobs.1 in
      if not e.replan.enabled
      then (e, err replan_off)
      else elim (find robot_key robot_id e.robots) [
        | none ↦ (e, err unknown_robot)
        | some _ ↦ (r.0, ok r.1)
      ]
