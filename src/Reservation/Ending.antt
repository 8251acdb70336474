-- ===== src/Reservation/Ending.antt =====
-- The methods that end a job keep the reservations.
use hydra_umc_job_dispatcher.Common.{
  ℕ, ◌≡◌, refl, sym, subst, ◌⊎◌, inl, inr, Bool, true, false, some, List, [], ◌∷◌, Text, is_empty,
  Bool-cases, Option-cases, arith,
}
use hydra_umc_job_dispatcher.Common.Int.{ℤ}
use hydra_umc_job_dispatcher.Common.Keyed.{find, find-key}
use hydra_umc_job_dispatcher.Time.{unix_milli}
use hydra_umc_job_dispatcher.Model.{
  Job, JobStatus, Robot, Holding, ok, Result-cases, job_key, robot_key, is_in_flight,
}
use hydra_umc_job_dispatcher.Engine.{Engine, StoreOps}
use hydra_umc_job_dispatcher.Engine.Frame.{
  begin_batch-SameQueue, commit_batch-SameQueue, record_persist_outcome-SameQueue, emit-SameQueue,
  persist_job-SameQueue, persist_job_at-SameQueue, persist_robot_at-SameQueue,
}
use hydra_umc_job_dispatcher.Held.{robot_has_active_assignment, jobs_held_by}
use hydra_umc_job_dispatcher.Held.Index.{no_active_assignment}
use hydra_umc_job_dispatcher.Outcome.{
  finish, count_load, free_robot, complete_check, release_robot, complete_checked,
  complete_job_attempt, withdraw, cancel_job, cancel_waiting, cancel_by_status, outcome_event,
}
use hydra_umc_job_dispatcher.Reservation.{
  IsReserved, EngineIsReserved, IsIdle, SameQueue-IsReserved, hold-IsReserved, free-IsReserved,
  prune-IsReserved,
}
use hydra_umc_job_dispatcher.Reservation.Sheds.{
  IsRelease, update-IsReserved, refresh_blocked-IsReserved,
}

pub finish-IsRelease : (success : Bool) (at : ℤ) → IsRelease (finish success at)
finish-IsRelease success at j = (refl, ground arith, λ n. refl, λ a. refl)

pub withdraw-IsRelease : (at : ℤ) → IsRelease (withdraw at)
withdraw-IsRelease at j = (refl, λ a. cc, λ n. cc, λ a. cc)

-- A registered robot has a name.
pub named_robot :
    {jobs : List Job} {robots : List Robot} {held : List Holding} (x : Text) {r : Robot}
    → IsReserved jobs robots held
    → find robot_key x robots ≡ some r
    → is_empty x ≡ false
named_robot [] v f = absurd (ground (arith, v.named))
named_robot (c ∷ x) v f = refl

module _ {S : Type 0} where
  -- Reading whether a robot is busy prunes its entry of the index and nothing else.
  pub active-IsReserved :
      (r : Text) (e : Engine S)
      → EngineIsReserved e
      → EngineIsReserved (robot_has_active_assignment r e).1
  unfolding robot_has_active_assignment jobs_held_by
  active-IsReserved r e v = prune-IsReserved r v

  pub active-IsIdle :
      (r : Text) (e : Engine S)
      → EngineIsReserved e
      → is_empty r ≡ false
      → (robot_has_active_assignment r e).0 ≡ false
      → IsIdle r (robot_has_active_assignment r e).1.jobs
  unfolding robot_has_active_assignment jobs_held_by
  active-IsIdle r e v n h = no_active_assignment e r v.indexed n h

  release_robot-IsReserved :
      (r : Robot) (e : Engine S)
      → is_empty r.id ≡ false
      → EngineIsReserved e
      → EngineIsReserved (release_robot r e)
  unfolding release_robot
  release_robot-IsReserved r e n v = elim (Bool-cases (robot_has_active_assignment r.id e).0) [
    | inl busy ↦ rw busy (active-IsReserved r.id e v)
    | inr free ↦ elim (Bool-cases r.self_reported_unavailable) [
      | inl faulty ↦ rw (free, faulty) (active-IsReserved r.id e v)
      | inr fine ↦
          rw (free, fine)
            (free-IsReserved r.id free_robot (λ w. refl) (active-IsIdle r.id e v n free)
              (active-IsReserved r.id e v))
    ]
  ]

-- A completion report that passes the checks is about a job of the queue in flight, comes from the
-- robot that the job names, which is registered, and states the attempt of the job or none.
pub complete_check_ok :
    {S : Type 0} (job_id robot_id : Text) (attempt : ℕ) (e : Engine S) (j : Job) (r : Robot)
    → complete_check job_id robot_id attempt e ≡ ok (j, r)
    → (find job_key job_id e.jobs ≡ some j)
      × (is_in_flight j.status ≡ true)
      × (j.assigned_robot ≡ robot_id)
      × ((attempt ≡ 0) ⊎ (attempt ≡ j.attempt))
      × (find robot_key j.assigned_robot e.robots ≡ some r)
unfolding complete_check
complete_check_ok job_id robot_id attempt e j r h = ground arith

-- A registered robot has a name, which is the key that it stands under.
pub robot_name :
    {S : Type 0} (e : Engine S) (r : Robot) (x : Text)
    → EngineIsReserved e
    → find robot_key x e.robots ≡ some r
    → is_empty r.id ≡ false
robot_name e r x v f =
    subst (λ z. is_empty z ≡ false) (sym (find-key robot_key x e.robots f)) (named_robot x v f)

module _ {S : Type 0} (ops : StoreOps S) where
  complete_checked-IsReserved :
      (j : Job) (r : Robot) (success : Bool) (e : Engine S)
      → is_empty r.id ≡ false
      → EngineIsReserved e
      → EngineIsReserved (complete_checked ops j r success e)
  unfolding complete_checked
  complete_checked-IsReserved j r success e n v =
      let at = unix_milli e.now in
      let begun = SameQueue-IsReserved (begin_batch-SameQueue e) v in
      let ended =
        update-IsReserved j.id (finish success at) (finish-IsRelease success at)
          (hold-IsReserved r.id count_load (λ w. refl) (λ w u. u) begun) in
      let told =
        SameQueue-IsReserved (emit-SameQueue (outcome_event success) (finish success at j) _)
          ended in
      let released = release_robot-IsReserved r _ n told in
      let w = SameQueue-IsReserved (persist_job_at-SameQueue ops j.id _) released in
      let x = SameQueue-IsReserved (persist_robot_at-SameQueue ops r.id _) w in
      let refreshed = refresh_blocked-IsReserved ops _ x in
      let commit = SameQueue-IsReserved (commit_batch-SameQueue ops _) refreshed in
      SameQueue-IsReserved (record_persist_outcome-SameQueue _ _) commit

  -- A completion, accepted or refused, leaves every robot with an assigned job taken, and no robot
  -- with two.
  pub complete_job_attempt-IsReserved :
      (job_id : Text) (success : Bool) (robot_id : Text) (attempt : ℕ) (e : Engine S)
      → EngineIsReserved e
      → EngineIsReserved (complete_job_attempt ops job_id success robot_id attempt e).0
  unfolding complete_job_attempt
  complete_job_attempt-IsReserved job_id success robot_id attempt e v =
      elim (Result-cases (complete_check job_id robot_id attempt e)) [
        | inr (x, q) ↦ rw (q, complete_job_attempt) v
        | inl ((j, r), q) ↦
            let c = complete_check_ok job_id robot_id attempt e j r q in
            rw (q, complete_job_attempt)
              (complete_checked-IsReserved j r success e (robot_name e r j.assigned_robot v c.4) v)
      ]

  cancel_waiting-IsReserved :
      (j : Job) (e : Engine S) → EngineIsReserved e → EngineIsReserved (cancel_waiting ops j e)
  unfolding cancel_waiting
  cancel_waiting-IsReserved j e v =
      let begun = SameQueue-IsReserved (begin_batch-SameQueue e) v in
      let ended =
        update-IsReserved j.id (withdraw (unix_milli e.now)) (withdraw-IsRelease (unix_milli e.now))
          begun in
      let w = SameQueue-IsReserved (persist_job-SameQueue ops _ _) ended in
      let refreshed = refresh_blocked-IsReserved ops _ w in
      let commit = SameQueue-IsReserved (commit_batch-SameQueue ops _) refreshed in
      SameQueue-IsReserved (record_persist_outcome-SameQueue _ _) commit

  pub cancel_job-IsReserved :
      (job_id : Text) (e : Engine S)
      → EngineIsReserved e
      → EngineIsReserved (cancel_job ops job_id e).0
  unfolding cancel_job cancel_by_status
  cancel_job-IsReserved job_id e v = elim (Option-cases (find job_key job_id e.jobs)) [
    | inl q ↦ rw (q, cancel_job) v
    | inr (j, q) ↦ rw (q, cancel_job) (by_status j.status j)
  ]
    where
      by_status : (s : JobStatus) (j : Job) → EngineIsReserved (cancel_by_status ops s j e).0
      by_status JobStatus.pending j = cancel_waiting-IsReserved j e v
      by_status JobStatus.blocked j = cancel_waiting-IsReserved j e v
      by_status JobStatus.unreachable j = cancel_waiting-IsReserved j e v
      by_status JobStatus.cancelled j = v
      by_status JobStatus.assigned j = v
      by_status JobStatus.unknown j = v
      by_status JobStatus.done j = v
      by_status JobStatus.failed j = v
