-- ===== src/Reservation/Entering.antt =====
-- A submission keeps the reservations: a new job, a duplicate, a retry and a refusal.
use hydra_umc_job_dispatcher.Common.{
  suc, ◌≡◌, refl, inl, inr, false, is_empty, Bool-cases, Option-cases, arith,
}
use hydra_umc_job_dispatcher.Model.{Job, Result-cases, is_assigned}
use hydra_umc_job_dispatcher.Engine.{Engine, StoreOps, persist_job}
use hydra_umc_job_dispatcher.Engine.Frame.{persist_job-SameQueue, record_persist_outcome-SameQueue}
use hydra_umc_job_dispatcher.Held.{note_assigned}
use hydra_umc_job_dispatcher.Status.Verdict.{compute_status-is_waiting}
use hydra_umc_job_dispatcher.Tools.{check_tool}
use hydra_umc_job_dispatcher.Submit.{
  add_refusal, stored_job, insert_job, retry_refusal, retried_job, add_job_locked, add_job,
  retry_job, earlier_job, submit_new, submit_job, may_retry,
}
use hydra_umc_job_dispatcher.Reservation.{EngineIsReserved, SameQueue-IsReserved}
use hydra_umc_job_dispatcher.Reservation.Changes.{enter-IsReserved}
use hydra_umc_job_dispatcher.Reservation.Sheds.{
  IsRelease, is_assigned_waiting, update-IsReserved, refresh_blocked-IsReserved,
}

module _ {S : Type 0} where
  retried_job-IsRelease : (j : Job) (e : Engine S) → IsRelease (retried_job j e)
  unfolding retried_job
  retried_job-IsRelease j e k =
      let waits =
        is_assigned_waiting _
          (compute_status-is_waiting e.jobs (record k { depends_on = j.depends_on })) in
      (refl, λ a. absurd (ground arith), λ n. absurd (ground arith), λ a. absurd (ground arith))

  insert_job-IsReserved :
      (k : Job) (e : Engine S)
      → is_assigned k.status ≡ false
      → EngineIsReserved e
      → EngineIsReserved (insert_job k e)
  unfolding insert_job note_assigned
  insert_job-IsReserved k e waits v = elim (Bool-cases (is_empty k.dedup_key)) [
    | inl q ↦ rw q (enter-IsReserved k waits v)
    | inr q ↦ rw q (enter-IsReserved k waits v)
  ]

module _ {S : Type 0} (ops : StoreOps S) where
  add_job_locked-IsReserved :
      (j : Job) (e : Engine S) → EngineIsReserved e → EngineIsReserved (add_job_locked ops j e).0
  unfolding add_job_locked stored_job
  add_job_locked-IsReserved j e v = elim (Option-cases (add_refusal j e)) [
    | inr (x, q) ↦ rw (q, add_job_locked) v
    | inl q ↦
        let checked : Engine S = record e {
          tools = (check_tool j.required_tool e.tools).0;
          next_seq = suc e.next_seq;
        } in
        let written = SameQueue-IsReserved (persist_job-SameQueue ops (stored_job j e) checked) v in
        elim (Option-cases (persist_job ops (stored_job j e) checked).1) [
          | inr (x, w) ↦ rw (q, w, add_job_locked) written
          | inl w ↦
              rw (q, w, add_job_locked)
                (insert_job-IsReserved (stored_job j e) _
                  (is_assigned_waiting _ (compute_status-is_waiting e.jobs j)) written)
        ]
  ]

  pub add_job-IsReserved :
      (j : Job) (e : Engine S) → EngineIsReserved e → EngineIsReserved (add_job ops j e).0
  unfolding add_job
  add_job-IsReserved j e v = elim (Result-cases (add_job_locked ops j e).1) [
    | inl (x, q) ↦ rw (q, add_job) (add_job_locked-IsReserved j e v)
    | inr (x, q) ↦ rw (q, add_job) (add_job_locked-IsReserved j e v)
  ]

  submit_new-IsReserved :
      (j : Job) (e : Engine S) → EngineIsReserved e → EngineIsReserved (submit_new ops j e).0
  unfolding submit_new
  submit_new-IsReserved j e v = elim (Result-cases (add_job_locked ops j e).1) [
    | inl (x, w) ↦ rw (w, submit_new) (add_job_locked-IsReserved j e v)
    | inr (x, w) ↦ rw (w, submit_new) (add_job_locked-IsReserved j e v)
  ]

  retry_job-IsReserved :
      (j k : Job) (e : Engine S) → EngineIsReserved e → EngineIsReserved (retry_job ops j k e).0
  unfolding retry_job
  retry_job-IsReserved j k e v = elim (Option-cases (retry_refusal j k e)) [
    | inr (x, q) ↦ rw (q, retry_job) v
    | inl q ↦
        let changed = update-IsReserved k.id (retried_job j e) (retried_job-IsRelease j e) v in
        rw (q, retry_job)
          (SameQueue-IsReserved (record_persist_outcome-SameQueue _ _) (
            refresh_blocked-IsReserved ops _
              (SameQueue-IsReserved (persist_job-SameQueue ops _ _) changed)))
  ]

  -- A submission, accepted or refused, frees no robot that holds an assigned job.
  pub submit_job-IsReserved :
      (j : Job) (e : Engine S) → EngineIsReserved e → EngineIsReserved (submit_job ops j e).0
  unfolding submit_job
  submit_job-IsReserved j e v = elim (Option-cases (earlier_job j.dedup_key e)) [
    | inl q ↦ rw (q, submit_job) (submit_new-IsReserved j e v)
    | inr (k, q) ↦ elim (Bool-cases (may_retry k.status)) [
      | inl again ↦ rw (q, submit_job) (rw again (retry_job-IsReserved j k e v))
      | inr old ↦ rw (q, submit_job) (rw old v)
    ]
  ]
