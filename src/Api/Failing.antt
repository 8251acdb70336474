-- ===== src/Api/Failing.antt =====
-- A method of the engine that gives an error leaves the jobs and the robots as they were.
use hydra_umc_job_dispatcher.Common.{
  ℕ, suc, ◌≡◌, refl, inl, inr, Bool, ◌&&◌, not, Text, is_empty, eqt, Bool-cases, Option-cases,
}
use hydra_umc_job_dispatcher.Common.Keyed.{find}
use hydra_umc_job_dispatcher.Model.{
  Job, JobStatus, Error, Result, Result-cases, err, job_key, robot_key, stop_request_key,
}
use hydra_umc_job_dispatcher.Engine.{Engine, StoreOps, persist_job}
use hydra_umc_job_dispatcher.Engine.Frame.{persist_job-SameQueue}
use hydra_umc_job_dispatcher.Held.{jobs_held_by}
use hydra_umc_job_dispatcher.Tools.{check_tool}
use hydra_umc_job_dispatcher.Submit.{
  add_refusal, stored_job, add_job_locked, add_job, retry_refusal, retry_job, earlier_job,
  submit_new, submit_job, may_retry,
}
use hydra_umc_job_dispatcher.Outcome.{
  complete_check, complete_job_attempt, cancel_by_status, cancel_job,
}
use hydra_umc_job_dispatcher.Requeue.{requeue_checked, requeue_by_status, requeue_job, replan_robot}
use hydra_umc_job_dispatcher.Registry.{any_in_flight, delete_stored, remove_robot}
use hydra_umc_job_dispatcher.Stale.{ack_stop, ack_open}

module _ {S : Type 0} where
  abbrev pub IsUntouched : Engine S → Engine S → Type 0
  IsUntouched a e = (a.jobs ≡ e.jobs) × (a.robots ≡ e.robots)

  -- With an error, nothing has been touched.
  abbrev pub IsSafe : {A : Type 0} → Engine S × Result A → Engine S → Type 0
  IsSafe out e = (x : Error) → out.1 ≡ err x → IsUntouched out.0 e

  kept : {A : Type 0} (r : Result A) (e : Engine S) → IsSafe (e, r) e
  kept r e x h = (refl, refl)

module _ {S : Type 0} (ops : StoreOps S) where
  add_job_locked-IsSafe : (j : Job) (e : Engine S) → IsSafe (add_job_locked ops j e) e
  unfolding add_job_locked
  add_job_locked-IsSafe j e = elim (Option-cases (add_refusal j e)) [
    | inr (x, q) ↦ rw (q, add_job_locked) (λ y h. (refl, refl))
    | inl q ↦
        let checked : Engine S = record e {
          tools = (check_tool j.required_tool e.tools).0;
          next_seq = suc e.next_seq;
        } in
        let same = persist_job-SameQueue ops (stored_job j e) checked in
        elim (Option-cases (persist_job ops (stored_job j e) checked).1) [
          | inr (x, w) ↦ rw (q, w, add_job_locked) (λ y h. (same.jobs, same.robots))
          | inl w ↦ rw (q, w, add_job_locked) (λ y h. absurd (cc))
        ]
  ]

  pub add_job-IsSafe : (j : Job) (e : Engine S) → IsSafe (add_job ops j e) e
  unfolding add_job
  add_job-IsSafe j e = elim (Result-cases (add_job_locked ops j e).1) [
    | inl (v, q) ↦ rw (q, add_job) (λ y h. absurd (cc))
    | inr (x, q) ↦ rw (q, add_job) (λ y h. add_job_locked-IsSafe j e x q)
  ]

  pub submit_job-IsSafe : (j : Job) (e : Engine S) → IsSafe (submit_job ops j e) e
  unfolding submit_job submit_new retry_job
  submit_job-IsSafe j e = elim (Option-cases (earlier_job j.dedup_key e)) [
    | inl q ↦ elim (Result-cases (add_job_locked ops j e).1) [
      | inl (v, w) ↦ rw (q, w, submit_job, submit_new) (λ y h. absurd (cc))
      | inr (x, w) ↦ rw (q, w, submit_job, submit_new) (λ y h. add_job_locked-IsSafe j e x w)
    ]
    | inr (k, q) ↦ elim (Bool-cases (may_retry k.status)) [
      | inr old ↦ rw (q, submit_job) (rw old (kept _ e))
      | inl again ↦ elim (Option-cases (retry_refusal j k e)) [
        | inr (x, w) ↦ rw (q, submit_job) (rw (again, w, retry_job) (kept _ e))
        | inl w ↦ rw (q, submit_job) (rw (again, w, retry_job) (λ y h. absurd (cc)))
      ]
    ]
  ]

  pub complete_job_attempt-IsSafe :
      (id : Text) (success : Bool) (robot_id : Text) (attempt : ℕ) (e : Engine S)
      → IsSafe (complete_job_attempt ops id success robot_id attempt e) e
  unfolding complete_job_attempt
  complete_job_attempt-IsSafe id success robot_id attempt e =
      elim (Result-cases (complete_check id robot_id attempt e)) [
        | inl (v, q) ↦ rw (q, complete_job_attempt) (λ y h. absurd (cc))
        | inr (x, q) ↦ rw (q, complete_job_attempt) (kept _ e)
      ]

  cancel_by_status-IsSafe :
      (s : JobStatus) (j : Job) (e : Engine S) → IsSafe (cancel_by_status ops s j e) e
  unfolding cancel_by_status
  cancel_by_status-IsSafe JobStatus.cancelled j e = kept _ e
  cancel_by_status-IsSafe JobStatus.assigned j e = kept _ e
  cancel_by_status-IsSafe JobStatus.unknown j e = kept _ e
  cancel_by_status-IsSafe JobStatus.done j e = kept _ e
  cancel_by_status-IsSafe JobStatus.failed j e = kept _ e
  cancel_by_status-IsSafe JobStatus.pending j e = λ y h. absurd (cc)
  cancel_by_status-IsSafe JobStatus.blocked j e = λ y h. absurd (cc)
  cancel_by_status-IsSafe JobStatus.unreachable j e = λ y h. absurd (cc)

  pub cancel_job-IsSafe : (id : Text) (e : Engine S) → IsSafe (cancel_job ops id e) e
  unfolding cancel_job
  cancel_job-IsSafe id e = elim (Option-cases (find job_key id e.jobs)) [
    | inl q ↦ rw (q, cancel_job) (kept _ e)
    | inr (j, q) ↦ rw (q, cancel_job) (cancel_by_status-IsSafe j.status j e)
  ]

  requeue_checked-IsSafe :
      (j : Job) (r : Text) (e : Engine S) → IsSafe (requeue_checked ops j r e) e
  unfolding requeue_checked
  requeue_checked-IsSafe j r e =
      elim (Bool-cases (not (is_empty r) && not (eqt r j.assigned_robot))) [
        | inl q ↦ rw q (kept _ e)
        | inr q ↦ rw q (λ y h. absurd (cc))
      ]

  requeue_by_status-IsSafe :
      (s : JobStatus) (j : Job) (r : Text) (e : Engine S) → IsSafe (requeue_by_status ops s j r e) e
  unfolding requeue_by_status
  requeue_by_status-IsSafe JobStatus.assigned j r e = requeue_checked-IsSafe j r e
  requeue_by_status-IsSafe JobStatus.unknown j r e = requeue_checked-IsSafe j r e
  requeue_by_status-IsSafe JobStatus.cancelled j r e = kept _ e
  requeue_by_status-IsSafe JobStatus.done j r e = kept _ e
  requeue_by_status-IsSafe JobStatus.failed j r e = kept _ e
  requeue_by_status-IsSafe JobStatus.pending j r e = kept _ e
  requeue_by_status-IsSafe JobStatus.blocked j r e = kept _ e
  requeue_by_status-IsSafe JobStatus.unreachable j r e = kept _ e

  pub requeue_job-IsSafe : (id r : Text) (e : Engine S) → IsSafe (requeue_job ops id r e) e
  unfolding requeue_job
  requeue_job-IsSafe id r e = elim (Option-cases (find job_key id e.jobs)) [
    | inl q ↦ rw (q, requeue_job) (kept _ e)
    | inr (j, q) ↦ rw (q, requeue_job) (requeue_by_status-IsSafe j.status j r e)
  ]

  pub replan_robot-IsSafe : (r : Text) (e : Engine S) → IsSafe (replan_robot ops r e) e
  unfolding replan_robot
  replan_robot-IsSafe r e = elim (Bool-cases (not e.replan.enabled)) [
    | inl off ↦ rw off (kept _ e)
    | inr on ↦ elim (Option-cases (find robot_key r e.robots)) [
      | inl q ↦ rw (on, q, replan_robot) (kept _ e)
      | inr (w, q) ↦ rw (on, q, replan_robot) (λ y h. absurd (cc))
    ]
  ]

  delete_stored-IsSafe : (id : Text) (e : Engine S) → IsSafe (delete_stored ops id e) e
  unfolding delete_stored
  delete_stored-IsSafe id e = elim (Option-cases e.store) [
    | inl q ↦ rw (q, delete_stored) (λ y h. absurd (cc))
    | inr (s, q) ↦ elim (Option-cases ops.delete_robot) [
      | inl p ↦ rw (q, p, delete_stored) (λ y h. absurd (cc))
      | inr (d, p) ↦ elim (Option-cases (d s id).1) [
        | inl o ↦ rw (q, p, o, delete_stored) (λ y h. absurd (cc))
        | inr (x, o) ↦ rw (q, p, o, delete_stored) (λ y h. (refl, refl))
      ]
    ]
  ]

  pub remove_robot-IsSafe : (id : Text) (e : Engine S) → IsSafe (remove_robot ops id e) e
  unfolding remove_robot jobs_held_by
  remove_robot-IsSafe id e = elim (Option-cases (find robot_key id e.robots)) [
    | inl q ↦ rw (q, remove_robot) (kept _ e)
    | inr (r, q) ↦ elim (Bool-cases (any_in_flight (jobs_held_by id e).0)) [
      | inl busy ↦ rw (q, remove_robot) (rw busy (λ y h. (refl, refl)))
      | inr free ↦ rw (q, remove_robot) (rw free (delete_stored-IsSafe id (jobs_held_by id e).1))
    ]
  ]

  pub ack_stop-IsSafe : (r id : Text) (e : Engine S) → IsSafe (ack_stop ops r id e) e
  unfolding ack_stop
  ack_stop-IsSafe r id e = elim (Bool-cases (not e.replan.enabled)) [
    | inl off ↦ rw off (kept _ e)
    | inr on ↦ elim (Option-cases (find job_key id e.jobs)) [
      | inl q ↦ rw (on, q, ack_stop) (kept _ e)
      | inr (j, q) ↦
          elim (Bool-cases (not (is_empty j.assigned_robot) && not (eqt j.assigned_robot r))) [
            | inl other ↦ rw (on, q, ack_stop) (rw other (kept _ e))
            | inr own ↦ elim (Bool-cases (ack_open j r (find stop_request_key id e.stop_req))) [
              | inl asked ↦ rw (on, q, ack_stop) (rw (own, asked) (λ y h. absurd (cc)))
              | inr closed ↦ rw (on, q, ack_stop) (rw (own, closed) (kept _ e))
            ]
          ]
    ]
  ]
