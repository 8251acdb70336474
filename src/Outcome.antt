-- ===== src/Outcome.antt =====
-- How a job ends (src/dispatcher/dispatcher.go: CompleteJobAttempt, CompleteJob, CancelJob). The
-- production event that a completion hands to its sink after the lock is released is not modelled.
use hydra_umc_job_dispatcher.Common.{
  ℕ, ◌+◌, Bool, true, false, ◌&&◌, not, none, some, [], ◌∷◌, Text, eqt, ◌==◌, if◌then◌else◌,
}
use hydra_umc_job_dispatcher.Common.Int.{ℤ}
use hydra_umc_job_dispatcher.Common.Keyed.{find, update}
use hydra_umc_job_dispatcher.Time.{unix_milli}
use hydra_umc_job_dispatcher.Events.{EventType}
use hydra_umc_job_dispatcher.Model.{
  Job, JobStatus, Robot, Result, ok, err, unknown_job, unknown_robot, job_not_assigned,
  job_in_flight, job_finished, robot_mismatch, attempt_mismatch, job_key, robot_key, is_in_flight,
}
use hydra_umc_job_dispatcher.Engine.{
  Engine, StoreOps, persist_job, persist_job_at, persist_robot_at, begin_batch, commit_batch,
  record_persist_outcome, emit,
}
use hydra_umc_job_dispatcher.Status.{refresh_blocked}
use hydra_umc_job_dispatcher.Held.{robot_has_active_assignment}

abbrev pub outcome : Bool → JobStatus
outcome true = JobStatus.done
outcome false = JobStatus.failed

abbrev pub outcome_event : Bool → EventType
outcome_event true = EventType.done
outcome_event false = EventType.failed

abbrev pub finish : Bool → ℤ → Job → Job
finish success at j = record j { status = outcome success; completed_at_ms = at }

abbrev pub count_load : Robot → Robot
count_load r = record r { load = r.load + 1 }

abbrev pub free_robot : Robot → Robot
free_robot r = record r { available = true }

abbrev pub withdraw : ℤ → Job → Job
withdraw at j = record j { status = JobStatus.cancelled; assigned_robot = []; completed_at_ms = at }

module _ {S : Type 0} where
  -- The checks of CompleteJobAttempt, in their order; the robot is found if they pass.
  unfoldable pub complete_check : Text → Text → ℕ → Engine S → Result (Job × Robot)
  complete_check job_id robot_id attempt e = elim (find job_key job_id e.jobs) [
    | none ↦ err unknown_job
    | some j ↦
        if not (is_in_flight j.status)
        then err job_not_assigned
        else if not (eqt robot_id j.assigned_robot)
        then err robot_mismatch
        else if not (attempt == 0) && not (attempt == j.attempt)
        then err attempt_mismatch
        else elim (find robot_key j.assigned_robot e.robots) [
          | none ↦ err unknown_robot
          | some r ↦ ok (j, r)
        ]
  ]

  -- The robot comes back unless it holds another assigned job or reported itself unavailable.
  unfoldable pub release_robot : Robot → Engine S → Engine S
  release_robot r e =
      let active = robot_has_active_assignment r.id e in
      if not active.0 && not r.self_reported_unavailable
      then record active.1 { robots = update robot_key r.id free_robot active.1.robots }
      else active.1

module _ {S : Type 0} (ops : StoreOps S) where
  -- CompleteJobAttempt after its checks.
  unfoldable pub complete_checked : Job → Robot → Bool → Engine S → Engine S
  complete_checked j r success e =
      let at = unix_milli e.now in
      let begun = begin_batch e in
      let ended = record begun {
        robots = update robot_key r.id count_load begun.robots;
        jobs = update job_key j.id (finish success at) begun.jobs;
      } in
      let told = emit (outcome_event success) (finish success at j) ended in
      let released = release_robot r told in
      let w = persist_job_at ops j.id released in
      let v = persist_robot_at ops r.id w.0 in
      let refreshed = refresh_blocked ops v.0 in
      let commit = commit_batch ops refreshed.0 in
      record_persist_outcome (w.1 ∷ v.1 ∷ refreshed.1 ∷ commit.1 ∷ []) commit.0

  unfoldable pub complete_job_attempt :
      Text → Bool → Text → ℕ → Engine S → Engine S × Result (Unit {0})
  complete_job_attempt job_id success robot_id attempt e =
      elim (complete_check job_id robot_id attempt e) [
        | err x ↦ (e, err x)
        | ok (j, r) ↦ (complete_checked j r success e, ok tt)
      ]

  -- CompleteJob states no attempt.
  unfoldable pub complete_job : Text → Bool → Text → Engine S → Engine S × Result (Unit {0})
  complete_job job_id success robot_id e = complete_job_attempt job_id success robot_id 0 e

  unfoldable pub cancel_waiting : Job → Engine S → Engine S
  cancel_waiting j e =
      let at = unix_milli e.now in
      let begun = begin_batch e in
      let w =
        persist_job ops (withdraw at j)
          (record begun { jobs = update job_key j.id (withdraw at) begun.jobs }) in
      let refreshed = refresh_blocked ops w.0 in
      let commit = commit_batch ops refreshed.0 in
      record_persist_outcome (w.1 ∷ refreshed.1 ∷ commit.1 ∷ []) commit.0

  unfoldable pub cancel_by_status : JobStatus → Job → Engine S → Engine S × Result (Unit {0})
  cancel_by_status JobStatus.cancelled j e = (e, ok tt)
  cancel_by_status JobStatus.assigned j e = (e, err job_in_flight)
  cancel_by_status JobStatus.unknown j e = (e, err job_in_flight)
  cancel_by_status JobStatus.done j e = (e, err job_finished)
  cancel_by_status JobStatus.failed j e = (e, err job_finished)
  cancel_by_status JobStatus.pending j e = (cancel_waiting j e, ok tt)
  cancel_by_status JobStatus.blocked j e = (cancel_waiting j e, ok tt)
  cancel_by_status JobStatus.unreachable j e = (cancel_waiting j e, ok tt)

  -- CancelJob
  unfoldable pub cancel_job : Text → Engine S → Engine S × Result (Unit {0})
  cancel_job job_id e = elim (find job_key job_id e.jobs) [
    | none ↦ (e, err unknown_job)
    | some j ↦ cancel_by_status j.status j e
  ]
