-- ===== src/Submit.antt =====
-- Submission (src/dispatcher/dispatcher.go: AddJob, addJobLocked, SubmitJob).
use hydra_umc_job_dispatcher.Common.{
  suc, Bool, true, false, not, Option, none, some, List, [], ◌∷◌, Text, is_empty, is_blank,
  if◌then◌else◌,
}
use hydra_umc_job_dispatcher.Common.Int.{pos}
use hydra_umc_job_dispatcher.Common.Keyed.{find, put, update}
use hydra_umc_job_dispatcher.Time.{unix_milli}
use hydra_umc_job_dispatcher.Model.{
  Job, JobStatus, Error, Result, ok, err, SubmitResult, created, duplicate, retried, job_exists,
  unknown_dep, invalid_job, job_key, dedup_entry_key,
}
use hydra_umc_job_dispatcher.Engine.{Engine, StoreOps, persist_job, record_persist_outcome}
use hydra_umc_job_dispatcher.Graph.{validate_dependency_shape, depends_transitively}
use hydra_umc_job_dispatcher.Status.{compute_status, refresh_blocked}
use hydra_umc_job_dispatcher.Held.{note_assigned}
use hydra_umc_job_dispatcher.Tools.{check_tool}

-- Every dependency is a job of the queue.
unfoldable pub all_known : List Job → List Text → Bool
all_known jobs [] = true
all_known jobs (dep ∷ deps) = elim (find job_key dep jobs) [
  | none ↦ false
  | some _ ↦ all_known jobs deps
]

abbrev is_known : List Job → Text → Bool
is_known jobs id = elim (find job_key id jobs) [ none ↦ false | some _ ↦ true ]

-- A job that ended without its work being done, which a submission may try again.
abbrev pub may_retry : JobStatus → Bool
may_retry JobStatus.failed = true
may_retry JobStatus.cancelled = true
may_retry _ = false

module _ {S : Type 0} where
  -- The checks of addJobLocked, in their order.
  unfoldable pub add_refusal : Job → Engine S → Option Error
  add_refusal j e =
      if is_blank j.id
      then some invalid_job
      else elim (validate_dependency_shape j.id j.depends_on) [
        | some x ↦ some x
        | none ↦
            if is_known e.jobs j.id
            then some job_exists
            else if not (all_known e.jobs j.depends_on)
            then some unknown_dep
            else none
      ]

  -- The job as it is stored: numbered, stamped and given its first verdict.
  unfoldable pub stored_job : Job → Engine S → Job
  stored_job j e = record j {
    seq = suc e.next_seq;
    submitted_at_ms = unix_milli e.now;
    assigned_at_ms = pos 0;
    completed_at_ms = pos 0;
    attempt = 0;
    status = compute_status e.jobs j;
  }

  -- The insertion, once the job has been written.
  unfoldable pub insert_job : Job → Engine S → Engine S
  insert_job stored e =
      let e' = note_assigned stored (record e { jobs = put job_key stored e.jobs }) in
      if is_empty stored.dedup_key then e' else record e' {
        dedup_index =
            put dedup_entry_key (record { dedup_key = stored.dedup_key; job_id = stored.id })
              e'.dedup_index;
      }

  -- The checks of SubmitJob on a retry, in their order.
  unfoldable pub retry_refusal : Job → Job → Engine S → Option Error
  retry_refusal j existing e = elim (validate_dependency_shape existing.id j.depends_on) [
    | some x ↦ some x
    | none ↦
        if not (all_known e.jobs j.depends_on)
        then some unknown_dep
        else if depends_transitively e.jobs j.depends_on existing.id
        then some invalid_job
        else none
  ]

  -- The fields that a retry takes from the new submission, and those that it resets.
  unfoldable pub retried_job : Job → Engine S → Job → Job
  retried_job j e existing = record existing {
    priority = j.priority;
    required_tool = j.required_tool;
    location = j.location;
    depends_on = j.depends_on;
    assigned_robot = [];
    submitted_at_ms = unix_milli e.now;
    assigned_at_ms = pos 0;
    completed_at_ms = pos 0;
    status = compute_status e.jobs (record existing { depends_on = j.depends_on });
  }

  -- The job that an earlier submission with this key has left in the queue.
  unfoldable pub earlier_job : Text → Engine S → Option Job
  earlier_job key e = if is_empty key then none else elim (find dedup_entry_key key e.dedup_index) [
    | none ↦ none
    | some d ↦ find job_key d.job_id e.jobs
  ]

module _ {S : Type 0} (ops : StoreOps S) where
  -- addJobLocked. The job is written before it enters the queue.
  unfoldable pub add_job_locked : Job → Engine S → Engine S × Result Job
  add_job_locked j e =
      let checked = record e { tools = (check_tool j.required_tool e.tools).0 } in
      elim (add_refusal j e) [
        | some x ↦ (checked, err x)
        | none ↦
            let stored = stored_job j e in
            let w = persist_job ops stored (record checked { next_seq = suc e.next_seq }) in
            elim w.1 [ some x ↦ (w.0, err x) | none ↦ (insert_job stored w.0, ok stored) ]
      ]

  unfoldable pub add_job : Job → Engine S → Engine S × Result (Unit {0})
  add_job j e =
      let r = add_job_locked j e in elim r.1 [ ok _ ↦ (r.0, ok tt) | err x ↦ (r.0, err x) ]

  -- The retry of a job that failed or was cancelled.
  unfoldable pub retry_job : Job → Job → Engine S → Engine S × Result (Job × SubmitResult)
  retry_job j existing e =
      let after = retried_job j e existing in
      let e' = record e {
        tools = (check_tool j.required_tool e.tools).0;
        jobs = update job_key existing.id (retried_job j e) e.jobs;
      } in
      let w = persist_job ops after e' in
      let refreshed = refresh_blocked ops w.0 in
      elim (retry_refusal j existing e) [
        | some x ↦ (e, err x)
        | none ↦ (
          record_persist_outcome (w.1 ∷ refreshed.1 ∷ []) refreshed.0,
          ok (current existing.id after refreshed.0.jobs, retried),
        )
      ]
    where
      -- cloneJob(existing): what the pointer holds at the end
      current : Text → Job → List Job → Job
      current id after jobs = elim (find job_key id jobs) [ none ↦ after | some k ↦ k ]

  unfoldable pub submit_new : Job → Engine S → Engine S × Result (Job × SubmitResult)
  submit_new j e =
      let r = add_job_locked j e in
      elim r.1 [ ok stored ↦ (r.0, ok (stored, created)) | err x ↦ (r.0, err x) ]

  -- SubmitJob. The index names jobs of the queue only, so the program's lookup behind it succeeds.
  unfoldable pub submit_job : Job → Engine S → Engine S × Result (Job × SubmitResult)
  submit_job j e = elim (earlier_job j.dedup_key e) [
    | none ↦ submit_new j e
    | some existing ↦
        if may_retry existing.status then retry_job j existing e else (e, ok (existing, duplicate))
  ]
