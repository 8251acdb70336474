-- ===== src/Lifecycle/Entering.antt =====
-- A submission, as a step of the queue: a new job or a retry.
use hydra_umc_job_dispatcher.Common.{
  suc, ◌≡◌, refl, sym, ◌∙◌, ap, subst, inl, inr, Bool, true, false, none, some, List, [], ◌∷◌, Text,
  is_empty, Elem-cons, Bool-cases, Option-cases, arith,
}
use hydra_umc_job_dispatcher.Common.Keyed.{find, put, update, find-put, find-key, put-Distinct}
use hydra_umc_job_dispatcher.Model.{Job, Result-cases, job_key, dedup_entry_key}
use hydra_umc_job_dispatcher.Engine.{Engine, StoreOps, persist_job}
use hydra_umc_job_dispatcher.Engine.Frame.{persist_job-SameQueue, record_persist_outcome-SameQueue}
use hydra_umc_job_dispatcher.Held.{note_assigned}
use hydra_umc_job_dispatcher.Graph.{depends_transitively}
use hydra_umc_job_dispatcher.Graph.Complete.{depends_transitively_of_Reach}
use hydra_umc_job_dispatcher.Status.{compute_status}
use hydra_umc_job_dispatcher.Tools.{check_tool}
use hydra_umc_job_dispatcher.Submit.{
  all_known, add_refusal, stored_job, insert_job, retry_refusal, retried_job, add_job_locked,
  add_job, retry_job, earlier_job, submit_new, submit_job, may_retry,
}
use hydra_umc_job_dispatcher.Lifecycle.{Known, retried, enter, Steps, next}
use hydra_umc_job_dispatcher.Lifecycle.Builders.{then_same, change-Steps, SameQueue-Steps}
use hydra_umc_job_dispatcher.Lifecycle.Ending.{refresh_blocked-Steps}

all_known-Known : (js : List Job) (deps : List Text) → all_known js deps ≡ true → Known js deps
unfolding all_known
all_known-Known js [] h d m = elim m [ ]
all_known-Known js (x ∷ deps) h d m = elim (Option-cases (find job_key x js)) [
  | inl q ↦ absurd (clash (rw (q, all_known) at h))
  | inr (j, q) ↦ elim (Elem-cons m) [
    | inl e ↦ (j, ap (λ z. find job_key z js) e ∙ q)
    | inr k ↦ all_known-Known js deps (rw (q, all_known) at h) d k
  ]
]
  where
    clash : false ≡ true → ⊥
    clash e = cc

module _ {S : Type 0} where
  -- What the checks of a new job establish.
  add_refusal-none :
      (j : Job) (e : Engine S)
      → add_refusal j e ≡ none
      → (find job_key j.id e.jobs ≡ none) × (all_known e.jobs j.depends_on ≡ true)
  unfolding add_refusal
  add_refusal-none j e h = ground arith

  retry_refusal-none :
      (j k : Job) (e : Engine S)
      → retry_refusal j k e ≡ none
      → (all_known e.jobs j.depends_on ≡ true)
        × (depends_transitively e.jobs j.depends_on k.id ≡ false)
  unfolding retry_refusal
  retry_refusal-none j k e h = ground arith

  insert_job-jobs : (k : Job) (e : Engine S) → (insert_job k e).jobs ≡ put job_key k e.jobs
  unfolding insert_job note_assigned
  insert_job-jobs k e = ground arith

  stored-Steps :
      {js : List Job} (j : Job) (e : Engine S)
      → add_refusal j e ≡ none
      → Steps js e.jobs
      → Steps js (put job_key (stored_job j e) e.jobs)
  unfolding stored_job compute_status
  stored-Steps j e q v =
      let (new, known) = add_refusal-none j e q in
      next v (
        enter (stored_job j e) new (all_known-Known e.jobs j.depends_on known) refl
          (λ x. find-put job_key x (stored_job j e) e.jobs)
          (put-Distinct job_key (stored_job j e) e.jobs))

  retried-Steps :
      {js : List Job} (j k : Job) (e : Engine S)
      → find job_key k.id e.jobs ≡ some k
      → may_retry k.status ≡ true
      → retry_refusal j k e ≡ none
      → Steps js e.jobs
      → Steps js (update job_key k.id (retried_job j e) e.jobs)
  unfolding retried_job compute_status
  retried-Steps j k e found again q v =
      let (known, free) = retry_refusal-none j k e q in
      change-Steps k.id (retried_job j e) k e.jobs found (λ z. refl)
        (retried again refl (all_known-Known e.jobs j.depends_on known)
          (λ d m r. clash (depends_transitively_of_Reach e.jobs k.id j.depends_on d m r) free))
        v
    where
      clash : {b : Bool} → b ≡ true → b ≡ false → ⊥
      clash p q = cc

module _ {S : Type 0} where
  -- The job that an earlier submission left is in the queue.
  earlier_found :
      (key : Text) (k : Job) (e : Engine S)
      → earlier_job key e ≡ some k
      → find job_key k.id e.jobs ≡ some k
  unfolding earlier_job
  earlier_found key k e q = elim (Bool-cases (is_empty key)) [
    | inl t ↦ absurd (clash (rw t at q))
    | inr f ↦ elim (Option-cases (find dedup_entry_key key e.dedup_index)) [
      | inl n ↦ absurd (clash (rw (f, n, earlier_job) at q))
      | inr (d, n) ↦
          let found = rw (f, n, earlier_job) at q in
          subst (λ z. find job_key z e.jobs ≡ some k)
            (sym (find-key job_key d.job_id e.jobs {v = k} found)) found
    ]
  ]
    where
      clash : none ≡ some k → ⊥
      clash p = cc

module _ {S : Type 0} (ops : StoreOps S) {js : List Job} where
  add_job_locked-Steps :
      (j : Job) (e : Engine S) → Steps js e.jobs → Steps js (add_job_locked ops j e).0.jobs
  unfolding add_job_locked
  add_job_locked-Steps j e v = elim (Option-cases (add_refusal j e)) [
    | inr (x, q) ↦ rw (q, add_job_locked) v
    | inl q ↦
        let checked : Engine S = record e {
          tools = (check_tool j.required_tool e.tools).0;
          next_seq = suc e.next_seq;
        } in
        let written = persist_job-SameQueue ops (stored_job j e) checked in
        elim (Option-cases (persist_job ops (stored_job j e) checked).1) [
          | inr (x, w) ↦ rw (q, w, add_job_locked) (SameQueue-Steps written v)
          | inl w ↦
              rw (q, w, add_job_locked)
                (then_same (stored-Steps j e q v) (
                  insert_job-jobs (stored_job j e) _
                  ∙ ap (λ z. put job_key (stored_job j e) z) written.jobs))
        ]
  ]

  pub add_job-Steps : (j : Job) (e : Engine S) → Steps js e.jobs → Steps js (add_job ops j e).0.jobs
  unfolding add_job
  add_job-Steps j e v = elim (Result-cases (add_job_locked ops j e).1) [
    | inl (x, q) ↦ rw (q, add_job) (add_job_locked-Steps j e v)
    | inr (x, q) ↦ rw (q, add_job) (add_job_locked-Steps j e v)
  ]

  submit_new-Steps :
      (j : Job) (e : Engine S) → Steps js e.jobs → Steps js (submit_new ops j e).0.jobs
  unfolding submit_new
  submit_new-Steps j e v = elim (Result-cases (add_job_locked ops j e).1) [
    | inl (x, w) ↦ rw (w, submit_new) (add_job_locked-Steps j e v)
    | inr (x, w) ↦ rw (w, submit_new) (add_job_locked-Steps j e v)
  ]

  retry_job-Steps :
      (j k : Job) (e : Engine S)
      → find job_key k.id e.jobs ≡ some k
      → may_retry k.status ≡ true
      → Steps js e.jobs
      → Steps js (retry_job ops j k e).0.jobs
  unfolding retry_job
  retry_job-Steps j k e found again v = elim (Option-cases (retry_refusal j k e)) [
    | inr (x, q) ↦ rw (q, retry_job) v
    | inl q ↦
        rw (q, retry_job)
          (SameQueue-Steps (record_persist_outcome-SameQueue _ _) (
            refresh_blocked-Steps ops js _ (
              SameQueue-Steps (persist_job-SameQueue ops _ _)
                (retried-Steps j k e found again q v))))
  ]

  pub submit_job-Steps :
      (j : Job) (e : Engine S) → Steps js e.jobs → Steps js (submit_job ops j e).0.jobs
  unfolding submit_job
  submit_job-Steps j e v = elim (Option-cases (earlier_job j.dedup_key e)) [
    | inl q ↦ rw (q, submit_job) (submit_new-Steps j e v)
    | inr (k, q) ↦ elim (Bool-cases (may_retry k.status)) [
      | inl again ↦
          rw (q, submit_job)
            (rw again (retry_job-Steps j k e (earlier_found j.dedup_key k e q) again v))
      | inr old ↦ rw (q, submit_job) (rw old v)
    ]
  ]
