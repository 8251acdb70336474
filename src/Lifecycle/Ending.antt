-- ===== src/Lifecycle/Ending.antt =====
-- Completion, cancellation and the refresh of the verdicts, as steps of the queue.
use hydra_umc_job_dispatcher.Common.{
  ℕ, zero, suc, ◌≡◌, refl, sym, ap, subst, inl, inr, Bool, true, false, some, List, [], ◌∷◌, Text,
  map, length, Bool-cases, Option-cases, arith,
}
use hydra_umc_job_dispatcher.Common.Int.{ℤ}
use hydra_umc_job_dispatcher.Common.Keyed.{find, find-key}
use hydra_umc_job_dispatcher.Time.{unix_milli}
use hydra_umc_job_dispatcher.Model.{Job, JobStatus, Robot, Result-cases, job_key, is_in_flight}
use hydra_umc_job_dispatcher.Engine.{Engine, StoreOps, begin_batch}
use hydra_umc_job_dispatcher.Engine.Frame.{
  begin_batch-SameQueue, commit_batch-SameQueue, persist_job-SameQueue, persist_job_at-SameQueue,
  persist_robot_at-SameQueue, record_persist_outcome-SameQueue, emit-SameQueue,
}
use hydra_umc_job_dispatcher.Held.{jobs_held_by, robot_has_active_assignment}
use hydra_umc_job_dispatcher.Status.{compute_status, is_waiting, set_status, refresh_blocked}
use hydra_umc_job_dispatcher.Status.Passes.{
  Verdicts, visit, pass, loop, refresh_jobs, refresh_blocked-jobs,
}
use hydra_umc_job_dispatcher.Status.Settled.{visit-cases}
use hydra_umc_job_dispatcher.Outcome.{
  outcome_event, finish, complete_check, release_robot, complete_checked, complete_job_attempt,
  withdraw, cancel_waiting, cancel_by_status, cancel_job,
}
use hydra_umc_job_dispatcher.Reservation.Ending.{complete_check_ok}
use hydra_umc_job_dispatcher.Lifecycle.{Move, succeeded, failed, withdrawn, judged, Steps}
use hydra_umc_job_dispatcher.Lifecycle.Builders.{
  then_same, change-Steps, SameQueue-Steps, SameQueue-find,
}

module _ (js : List Job) where
  visit-Steps : (id : Text) (v : Verdicts) → Steps js v.jobs → Steps js (visit id v).jobs
  visit-Steps id v w = elim (visit-cases id v) [
    | inl (same, _) ↦ then_same w (ap (λ z. z.jobs) same)
    | inr (j, found, waits, _, q) ↦
        let s = compute_status v.jobs j in
        then_same
          (change-Steps id (set_status s) j v.jobs found (λ z. refl)
            (judged (ground arith) refl refl) w)
          (ap (λ z. z.jobs) q)
  ]

  pass-Steps : (ids : List Text) (v : Verdicts) → Steps js v.jobs → Steps js (pass ids v).jobs
  unfolding pass
  pass-Steps [] v w = w
  pass-Steps (id ∷ ids) v w = pass-Steps ids (visit id v) (visit-Steps id v w)

  loop-Steps :
      (fuel : ℕ) (ids : List Text) (v : Verdicts)
      → Steps js v.jobs
      → Steps js (loop fuel ids v).jobs
  unfolding loop
  loop-Steps zero ids v w = w
  loop-Steps (suc fuel) ids v w = elim (Bool-cases v.changed) [
    | inl e ↦ rw e (
        loop-Steps fuel ids (pass ids (record v { changed = false }))
          (pass-Steps ids (record v { changed = false }) w))
    | inr e ↦ rw e w
  ]

  refresh_jobs-Steps : (ks : List Job) → Steps js ks → Steps js (refresh_jobs ks)
  unfolding refresh_jobs
  refresh_jobs-Steps ks w =
      loop-Steps (suc (suc (length ks))) (map job_key ks) (record { jobs = ks; changed = true }) w

module _ {S : Type 0} (ops : StoreOps S) (js : List Job) where
  pub refresh_blocked-Steps :
      (e : Engine S) → Steps js e.jobs → Steps js (refresh_blocked ops e).0.jobs
  refresh_blocked-Steps e w =
      then_same (refresh_jobs-Steps js e.jobs w) (refresh_blocked-jobs ops e)

module _ {S : Type 0} where
  release_robot-jobs : (r : Robot) (e : Engine S) → (release_robot r e).jobs ≡ e.jobs
  unfolding release_robot robot_has_active_assignment jobs_held_by
  release_robot-jobs r e = ground arith

finish_move :
    (ks : List Job) (k : Job) (success : Bool) (at : ℤ)
    → is_in_flight k.status ≡ true
    → Move ks k (finish success at k)
finish_move ks k true at f = succeeded f refl refl
finish_move ks k false at f = failed f refl refl

module _ {S : Type 0} (ops : StoreOps S) (js : List Job) where
  complete_checked-Steps :
      (j : Job) (r : Robot) (success : Bool) (e : Engine S)
      → find job_key j.id e.jobs ≡ some j
      → is_in_flight j.status ≡ true
      → Steps js e.jobs
      → Steps js (complete_checked ops j r success e).jobs
  unfolding complete_checked
  complete_checked-Steps j r success e found flies v =
      let at = unix_milli e.now in
      let begun = begin_batch-SameQueue e in
      let ended =
        change-Steps j.id (finish success at) j (begin_batch e).jobs
          (SameQueue-find j.id begun found) (λ z. refl)
          (finish_move (begin_batch e).jobs j success at flies) (SameQueue-Steps begun v) in
      let told =
        SameQueue-Steps (emit-SameQueue (outcome_event success) (finish success at j) _) ended in
      let released = then_same told (release_robot-jobs r _) in
      let w = SameQueue-Steps (persist_job_at-SameQueue ops j.id _) released in
      let x = SameQueue-Steps (persist_robot_at-SameQueue ops r.id _) w in
      let refreshed = refresh_blocked-Steps ops js _ x in
      let commit = SameQueue-Steps (commit_batch-SameQueue ops _) refreshed in
      SameQueue-Steps (record_persist_outcome-SameQueue _ _) commit

  pub complete_job_attempt-Steps :
      (job_id : Text) (success : Bool) (robot_id : Text) (attempt : ℕ) (e : Engine S)
      → Steps js e.jobs
      → Steps js (complete_job_attempt ops job_id success robot_id attempt e).0.jobs
  unfolding complete_job_attempt
  complete_job_attempt-Steps job_id success robot_id attempt e v =
      elim (Result-cases (complete_check job_id robot_id attempt e)) [
        | inr (x, q) ↦ rw (q, complete_job_attempt) v
        | inl ((j, r), q) ↦
            let (found, flies, _, _, _) = complete_check_ok job_id robot_id attempt e j r q in
            rw (q, complete_job_attempt)
              (complete_checked-Steps j r success e
                (subst (λ z. find job_key z e.jobs ≡ some j)
                  (sym (find-key job_key job_id e.jobs {v = j} found)) found)
                flies v)
      ]

  cancel_waiting-Steps :
      (j : Job) (e : Engine S)
      → find job_key j.id e.jobs ≡ some j
      → is_waiting j.status ≡ true
      → Steps js e.jobs
      → Steps js (cancel_waiting ops j e).jobs
  unfolding cancel_waiting
  cancel_waiting-Steps j e found waits v =
      let begun = begin_batch-SameQueue e in
      let ended =
        change-Steps j.id (withdraw (unix_milli e.now)) j (begin_batch e).jobs
          (SameQueue-find j.id begun found) (λ z. refl) (withdrawn waits refl refl)
          (SameQueue-Steps begun v) in
      let w = SameQueue-Steps (persist_job-SameQueue ops _ _) ended in
      let refreshed = refresh_blocked-Steps ops js _ w in
      let commit = SameQueue-Steps (commit_batch-SameQueue ops _) refreshed in
      SameQueue-Steps (record_persist_outcome-SameQueue _ _) commit

  by_status-Steps :
      (s : JobStatus) (j : Job) (e : Engine S)
      → find job_key j.id e.jobs ≡ some j
      → j.status ≡ s
      → Steps js e.jobs
      → Steps js (cancel_by_status ops s j e).0.jobs
  unfolding cancel_by_status
  by_status-Steps JobStatus.pending j e f q v = cancel_waiting-Steps j e f (ground arith) v
  by_status-Steps JobStatus.blocked j e f q v = cancel_waiting-Steps j e f (ground arith) v
  by_status-Steps JobStatus.unreachable j e f q v = cancel_waiting-Steps j e f (ground arith) v
  by_status-Steps JobStatus.assigned j e f q v = v
  by_status-Steps JobStatus.unknown j e f q v = v
  by_status-Steps JobStatus.done j e f q v = v
  by_status-Steps JobStatus.failed j e f q v = v
  by_status-Steps JobStatus.cancelled j e f q v = v

  pub cancel_job-Steps :
      (job_id : Text) (e : Engine S) → Steps js e.jobs → Steps js (cancel_job ops job_id e).0.jobs
  unfolding cancel_job
  cancel_job-Steps job_id e v = elim (Option-cases (find job_key job_id e.jobs)) [
    | inl q ↦ rw (q, cancel_job) v
    | inr (j, q) ↦
        rw (q, cancel_job)
          (by_status-Steps j.status j e
            (subst (λ z. find job_key z e.jobs ≡ some j)
              (sym (find-key job_key job_id e.jobs {v = j} q)) q)
            refl v)
  ]
