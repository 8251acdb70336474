-- ===== src/Lifecycle/Fleet.antt =====
-- Heartbeats, registrations and removals, as steps of the queue.
use hydra_umc_job_dispatcher.Common.{
  ◌≡◌, refl, inl, inr, Bool, true, false, ◌&&◌, List, [], Text, map, Bool-cases, Option-cases,
}
use hydra_umc_job_dispatcher.Common.Keyed.{find, update}
use hydra_umc_job_dispatcher.Model.{Job, Robot, job_key, robot_key}
use hydra_umc_job_dispatcher.Engine.{Engine, StoreOps}
use hydra_umc_job_dispatcher.Engine.Frame.{
  persist_robot_at-SameQueue, record_persist_outcome-SameQueue,
}
use hydra_umc_job_dispatcher.Held.{robot_has_active_assignment, jobs_held_by, jobs_of_robot}
use hydra_umc_job_dispatcher.Registry.{
  RobotUpdate, note_fault, fault, availability, save_current, upsert_robot_locked, upsert_robot,
  update_robot, any_in_flight, delete_stored, remove_robot,
}
use hydra_umc_job_dispatcher.Lifecycle.{Steps}
use hydra_umc_job_dispatcher.Lifecycle.Builders.{then_same, SameQueue-Steps}
use hydra_umc_job_dispatcher.Lifecycle.Returning.{requeue_all-Steps, jobs_of_robot-IsOpen}

module _ {S : Type 0} (ops : StoreOps S) where
  delete_stored-jobs : (id : Text) (e : Engine S) → (delete_stored ops id e).0.jobs ≡ e.jobs
  unfolding delete_stored
  delete_stored-jobs id e = elim (Option-cases e.store) [
    | inl q ↦ rw (q, delete_stored) refl
    | inr (s, q) ↦ elim (Option-cases ops.delete_robot) [
      | inl p ↦ rw (q, p, delete_stored) refl
      | inr (d, p) ↦ elim (Option-cases (d s id).1) [
        | inl o ↦ rw (q, p, o, delete_stored) refl
        | inr (x, o) ↦ rw (q, p, o, delete_stored) refl
      ]
    ]
  ]

module _ {S : Type 0} (ops : StoreOps S) {js : List Job} where
  fault-Steps : (r : Text) (e : Engine S) → Steps js e.jobs → Steps js (fault ops r e).jobs
  unfolding fault jobs_of_robot jobs_held_by
  fault-Steps r e v =
      let noted : Engine S = record e { robots = update robot_key r note_fault e.robots } in
      elim (Bool-cases (e.replan.enabled && e.replan.on_fault)) [
        | inl on ↦ rw on (
            requeue_all-Steps ops (map job_key (jobs_of_robot r false noted).0) []
              (jobs_of_robot r false noted).1 (λ x m. jobs_of_robot-IsOpen r false noted x m) v)
        | inr off ↦ rw off v
      ]

  availability-Steps :
      (r : Robot) (given : Bool) (e : Engine S)
      → Steps js e.jobs
      → Steps js (availability ops r given e).jobs
  unfolding availability robot_has_active_assignment jobs_held_by
  availability-Steps r given e v = elim (Bool-cases given) [
    | inr unstated ↦ rw unstated v
    | inl stated ↦ elim (Bool-cases (robot_has_active_assignment r.id e).0) [
      | inr idle ↦ rw (stated, idle) v
      | inl busy ↦ elim (Bool-cases r.available) [
        | inl fine ↦ rw (stated, busy, fine) v
        | inr faulty ↦
            rw (stated, busy, faulty) (fault-Steps r.id (robot_has_active_assignment r.id e).1 v)
      ]
    ]
  ]

  save_current-Steps :
      (r : Text) (e : Engine S) → Steps js e.jobs → Steps js (save_current ops r e).jobs
  unfolding save_current
  save_current-Steps r e v =
      SameQueue-Steps (record_persist_outcome-SameQueue _ _)
        (SameQueue-Steps (persist_robot_at-SameQueue ops r e) v)

  upsert_robot_locked-Steps :
      (r : Robot) (given : Bool) (e : Engine S)
      → Steps js e.jobs
      → Steps js (upsert_robot_locked ops r given e).jobs
  unfolding upsert_robot_locked
  upsert_robot_locked-Steps r given e v = elim (Option-cases (find robot_key r.id e.robots)) [
    | inl new ↦ rw (new, upsert_robot_locked) (save_current-Steps r.id _ v)
    | inr (w, known) ↦
        rw (known, upsert_robot_locked) (save_current-Steps r.id _ (availability-Steps r given _ v))
  ]

  pub upsert_robot-Steps :
      (r : Robot) (e : Engine S) → Steps js e.jobs → Steps js (upsert_robot ops r e).jobs
  unfolding upsert_robot
  upsert_robot-Steps r e v = upsert_robot_locked-Steps r true e v

  pub update_robot-Steps :
      (u : RobotUpdate) (e : Engine S) → Steps js e.jobs → Steps js (update_robot ops u e).jobs
  unfolding update_robot
  update_robot-Steps u e v = upsert_robot_locked-Steps _ _ e v

  pub remove_robot-Steps :
      (id : Text) (e : Engine S) → Steps js e.jobs → Steps js (remove_robot ops id e).0.jobs
  unfolding remove_robot jobs_held_by
  remove_robot-Steps id e v = elim (Option-cases (find robot_key id e.robots)) [
    | inl q ↦ rw (q, remove_robot) v
    | inr (r, q) ↦ elim (Bool-cases (any_in_flight (jobs_held_by id e).0)) [
      | inl busy ↦ rw (q, remove_robot) (rw busy v)
      | inr free ↦
          rw (q, remove_robot)
            (rw free (then_same v (delete_stored-jobs ops id (jobs_held_by id e).1)))
    ]
  ]
