-- ===== src/Reservation/Returning.antt =====
-- The methods that send jobs back to the queue or give up on them keep the reservations.
use hydra_umc_job_dispatcher.Common.{
  ◌≡◌, refl, inl, inr, Bool, true, ◌&&◌, not, List, [], ◌∷◌, Text, eqt, is_empty, Bool-cases,
  Option-cases,
}
use hydra_umc_job_dispatcher.Common.Keyed.{find, update}
use hydra_umc_job_dispatcher.Model.{Job, JobStatus, job_key, robot_key}
use hydra_umc_job_dispatcher.Engine.{Engine, StoreOps, persist_robot_at}
use hydra_umc_job_dispatcher.Engine.Frame.{
  begin_batch-SameQueue, commit_batch-SameQueue, record_persist_outcome-SameQueue,
  persist_job-SameQueue, persist_robot-SameQueue, persist_robot_at-SameQueue,
}
use hydra_umc_job_dispatcher.Status.{compute_status, is_waiting}
use hydra_umc_job_dispatcher.Status.Verdict.{compute_status-is_waiting}
use hydra_umc_job_dispatcher.Held.{jobs_held_by, jobs_of_robot}
use hydra_umc_job_dispatcher.Requeue.{
  hold_robot, back_to_queue, hold_and_persist, requeue_locked, requeue_each, persist_extra,
  requeue_all, requeue_checked, requeue_by_status, requeue_job, replan_robot,
}
use hydra_umc_job_dispatcher.Reservation.{
  EngineIsReserved, SameQueue-IsReserved, hold-IsReserved, prune-IsReserved,
}
use hydra_umc_job_dispatcher.Reservation.Sheds.{IsRelease, update-IsReserved, is_assigned_waiting}

back_to_queue-IsRelease : (s : JobStatus) → is_waiting s ≡ true → IsRelease (back_to_queue s)
back_to_queue-IsRelease s w j = let u = is_assigned_waiting s w in (refl, λ a. cc, λ n. cc, λ a. cc)

module _ {S : Type 0} where
  pub jobs_of_robot-IsReserved :
      (r : Text) (u : Bool) (e : Engine S)
      → EngineIsReserved e
      → EngineIsReserved (jobs_of_robot r u e).1
  unfolding jobs_of_robot jobs_held_by
  jobs_of_robot-IsReserved r u e v = prune-IsReserved r v

module _ {S : Type 0} (ops : StoreOps S) where
  hold_and_persist-IsReserved :
      (r : Text) (e : Engine S) → EngineIsReserved e → EngineIsReserved (hold_and_persist ops r e).0
  unfolding hold_and_persist
  hold_and_persist-IsReserved r e v = elim (Option-cases (find robot_key r e.robots)) [
    | inl q ↦ rw (q, hold_and_persist) v
    | inr (w, q) ↦
        rw (q, hold_and_persist)
          (SameQueue-IsReserved (persist_robot-SameQueue ops _ _)
            (hold-IsReserved r hold_robot (λ z. refl) (λ z u. refl) v))
  ]

  requeue_locked-IsReserved :
      (id : Text) (e : Engine S) → EngineIsReserved e → EngineIsReserved (requeue_locked ops id e).0
  unfolding requeue_locked
  requeue_locked-IsReserved id e v = elim (Option-cases (find job_key id e.jobs)) [
    | inl q ↦ rw (q, requeue_locked) v
    | inr (j, q) ↦
        let s = compute_status e.jobs j in
        let held = hold_and_persist-IsReserved j.assigned_robot e v in
        rw (q, requeue_locked)
          (SameQueue-IsReserved (persist_job-SameQueue ops _ _) (
            update-IsReserved id (back_to_queue s)
              (back_to_queue-IsRelease s (compute_status-is_waiting e.jobs j)) held))
  ]

  requeue_each-IsReserved :
      (ids : List Text) (e : Engine S)
      → EngineIsReserved e
      → EngineIsReserved (requeue_each ops ids e).0
  unfolding requeue_each
  requeue_each-IsReserved [] e v = v
  requeue_each-IsReserved (id ∷ ids) e v =
      requeue_each-IsReserved ids (requeue_locked ops id e).0 (requeue_locked-IsReserved id e v)

  persist_extra-IsReserved :
      (ids : List Text) (e : Engine S)
      → EngineIsReserved e
      → EngineIsReserved (persist_extra ops ids e).0
  unfolding persist_extra
  persist_extra-IsReserved [] e v = v
  persist_extra-IsReserved (id ∷ ids) e v =
      persist_extra-IsReserved ids (persist_robot_at ops id e).0
        (SameQueue-IsReserved (persist_robot_at-SameQueue ops id e) v)

  pub requeue_all-IsReserved :
      (ids extra : List Text) (e : Engine S)
      → EngineIsReserved e
      → EngineIsReserved (requeue_all ops ids extra e).0
  unfolding requeue_all
  requeue_all-IsReserved ids extra e v =
      let begun = SameQueue-IsReserved (begin_batch-SameQueue e) v in
      let jobs = requeue_each-IsReserved ids _ begun in
      let robots = persist_extra-IsReserved extra _ jobs in
      let commit = SameQueue-IsReserved (commit_batch-SameQueue ops _) robots in
      SameQueue-IsReserved (record_persist_outcome-SameQueue _ _) commit

  requeue_checked-IsReserved :
      (j : Job) (r : Text) (e : Engine S)
      → EngineIsReserved e
      → EngineIsReserved (requeue_checked ops j r e).0
  unfolding requeue_checked
  requeue_checked-IsReserved j r e v =
      let begun = SameQueue-IsReserved (begin_batch-SameQueue e) v in
      let back = requeue_locked-IsReserved j.id _ begun in
      let commit = SameQueue-IsReserved (commit_batch-SameQueue ops _) back in
      let done = SameQueue-IsReserved (record_persist_outcome-SameQueue _ _) commit in
      elim (Bool-cases (not (is_empty r) && not (eqt r j.assigned_robot))) [
        | inl q ↦ rw q v
        | inr q ↦ rw q done
      ]

  pub requeue_job-IsReserved :
      (job_id robot_id : Text) (e : Engine S)
      → EngineIsReserved e
      → EngineIsReserved (requeue_job ops job_id robot_id e).0
  unfolding requeue_job requeue_by_status
  requeue_job-IsReserved job_id robot_id e v = elim (Option-cases (find job_key job_id e.jobs)) [
    | inl q ↦ rw (q, requeue_job) v
    | inr (j, q) ↦ rw (q, requeue_job) (by_status j.status j)
  ]
    where
      by_status :
          (s : JobStatus) (j : Job) → EngineIsReserved (requeue_by_status ops s j robot_id e).0
      by_status JobStatus.assigned j = requeue_checked-IsReserved j robot_id e v
      by_status JobStatus.unknown j = requeue_checked-IsReserved j robot_id e v
      by_status _ j = v

  pub replan_robot-IsReserved :
      (r : Text) (e : Engine S) → EngineIsReserved e → EngineIsReserved (replan_robot ops r e).0
  unfolding replan_robot
  replan_robot-IsReserved r e v =
      let failed = hold-IsReserved r hold_robot (λ z. refl) (λ z u. refl) v in
      let listed =
        jobs_of_robot-IsReserved r true
          (record e { robots = update robot_key r hold_robot e.robots }) failed in
      let back = requeue_all-IsReserved _ (r ∷ []) _ listed in
      elim (Bool-cases e.replan.enabled) [
        | inr off ↦ rw off v
        | inl on ↦ elim (Option-cases (find robot_key r e.robots)) [
          | inl q ↦ rw (on, q, replan_robot) v
          | inr (w, q) ↦ rw (on, q, replan_robot) back
        ]
      ]
