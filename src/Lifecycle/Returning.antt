-- ===== src/Lifecycle/Returning.antt =====
-- Requeueing and replanning, as steps of the queue.
use mathlib.Core.Option
use hydra_umc_job_dispatcher.Common.{
  ◌≡◌, refl, sym, ◌∙◌, ap, subst, inl, inr, Bool, true, ◌||◌, ◌&&◌, not, none, some, List, [], ◌∷◌,
  map, Text, eqt, is_empty, text_dec, Elem, here, there, Elem-select, Bool-cases, Option-cases,
  some_inj, if_pos, if_neg, arith,
}
use hydra_umc_job_dispatcher.Common.Keyed.{find, update, find-update, find-key}
use hydra_umc_job_dispatcher.Common.Sorting.{Elem-sort_by, Elem-map}
use hydra_umc_job_dispatcher.Model.{
  Job, JobStatus, job_key, robot_key, is_in_flight, is_assigned, is_unknown,
}
use hydra_umc_job_dispatcher.Engine.{Engine, StoreOps, begin_batch, persist_robot_at}
use hydra_umc_job_dispatcher.Engine.Frame.{
  SameQueue, SameQueue-refl, SameQueue-trans, begin_batch-SameQueue, commit_batch-SameQueue,
  persist_job-SameQueue, persist_robot-SameQueue, persist_robot_at-SameQueue,
  record_persist_outcome-SameQueue,
}
use hydra_umc_job_dispatcher.Held.{jobs_held_by, jobs_of_robot}
use hydra_umc_job_dispatcher.Held.Index.{jobs_held_by_sound}
use hydra_umc_job_dispatcher.Status.{compute_status, is_waiting}
use hydra_umc_job_dispatcher.Status.Verdict.{compute_status-is_waiting}
use hydra_umc_job_dispatcher.Requeue.{
  hold_robot, back_to_queue, hold_and_persist, requeue_locked, requeue_each, persist_extra,
  requeue_all, requeue_checked, requeue_by_status, requeue_job, replan_robot,
}
use hydra_umc_job_dispatcher.Lifecycle.{judged, Steps}
use hydra_umc_job_dispatcher.Lifecycle.Builders.{then_same, change-Steps, SameQueue-Steps}

-- The job under an id, if there is one, has not ended.
abbrev pub IsOpen : List Job → Text → Type 0
IsOpen ks x =
    (j : Job) → find job_key x ks ≡ some j → is_in_flight j.status || is_waiting j.status ≡ true

module _ {S : Type 0} (ops : StoreOps S) where
  hold_and_persist-jobs : (r : Text) (e : Engine S) → (hold_and_persist ops r e).0.jobs ≡ e.jobs
  unfolding hold_and_persist
  hold_and_persist-jobs r e = elim (Option-cases (find robot_key r e.robots)) [
    | inl q ↦ rw (q, hold_and_persist) refl
    | inr (w, q) ↦ rw (q, hold_and_persist) (persist_robot-SameQueue ops _ _).jobs
  ]

  requeue_locked-none :
      (id : Text) (e : Engine S)
      → find job_key id e.jobs ≡ none
      → (requeue_locked ops id e).0.jobs ≡ e.jobs
  unfolding requeue_locked
  requeue_locked-none id e q = rw (q, requeue_locked) refl

  requeue_locked-some :
      (id : Text) (e : Engine S) (j : Job)
      → find job_key id e.jobs ≡ some j
      → (requeue_locked ops id e).0.jobs
        ≡ update job_key id (back_to_queue (compute_status e.jobs j)) e.jobs
  unfolding requeue_locked
  requeue_locked-some id e j q =
      rw (q, requeue_locked)
        ((persist_job-SameQueue ops _ _).jobs
          ∙ ap (update job_key id (back_to_queue (compute_status e.jobs j)))
              (hold_and_persist-jobs j.assigned_robot e))

  requeue_locked-Steps :
      {js : List Job} (id : Text) (e : Engine S)
      → IsOpen e.jobs id
      → Steps js e.jobs
      → Steps js (requeue_locked ops id e).0.jobs
  requeue_locked-Steps id e open_job v = elim (Option-cases (find job_key id e.jobs)) [
    | inl q ↦ then_same v (requeue_locked-none id e q)
    | inr (j, q) ↦
        then_same
          (change-Steps id (back_to_queue (compute_status e.jobs j)) j e.jobs q (λ z. refl)
            (judged (open_job j q) refl refl) v)
          (requeue_locked-some id e j q)
  ]

  requeue_locked_ne :
      (id x : Text) (e : Engine S)
      → (id ≡ x → ⊥)
      → find job_key x (requeue_locked ops id e).0.jobs ≡ find job_key x e.jobs
  requeue_locked_ne id x e n = elim (Option-cases (find job_key id e.jobs)) [
    | inl q ↦ ap (λ z. find job_key x z) (requeue_locked-none id e q)
    | inr (j, q) ↦
        ap (λ z. find job_key x z) (requeue_locked-some id e j q)
        ∙ find-update job_key x id (back_to_queue (compute_status e.jobs j)) e.jobs (λ z. refl)
        ∙ if_neg (text_dec id x) n _ _
  ]

  requeue_locked-IsOpen :
      (id x : Text) (e : Engine S) → IsOpen e.jobs x → IsOpen (requeue_locked ops id e).0.jobs x
  requeue_locked-IsOpen id x e open_job k f = elim (text_dec id x) [
    | no p ↦ open_job k (sym (requeue_locked_ne id x e p) ∙ f)
    | yes p ↦ elim (Option-cases (find job_key id e.jobs)) [
      | inl q ↦ open_job k (sym (ap (λ z. find job_key x z) (requeue_locked-none id e q)) ∙ f)
      | inr (j, q) ↦
          let s = compute_status e.jobs j in
          let w = compute_status-is_waiting e.jobs j in
          let g =
            sym (
              ap (λ z. find job_key x z) (requeue_locked-some id e j q)
              ∙ find-update job_key x id (back_to_queue s) e.jobs (λ z. refl)
              ∙ if_pos (text_dec id x) p _ _
              ∙ ap (Option.map (back_to_queue s)) (ap (λ z. find job_key z e.jobs) (sym p) ∙ q))
            ∙ f in
          let same = ap (λ z. z.status) (some_inj g) in
          waiting_open k.status (subst (λ z. is_waiting z ≡ true) same w)
    ]
  ]
    where
      waiting_open : (s : JobStatus) → is_waiting s ≡ true → is_in_flight s || is_waiting s ≡ true
      waiting_open s w = ground arith

  requeue_each-Steps :
      {js : List Job} (ids : List Text) (e : Engine S)
      → ((x : Text) → Elem x ids → IsOpen e.jobs x)
      → Steps js e.jobs
      → Steps js (requeue_each ops ids e).0.jobs
  unfolding requeue_each
  requeue_each-Steps [] e all v = v
  requeue_each-Steps (id ∷ ids) e all v =
      requeue_each-Steps ids (requeue_locked ops id e).0
        (λ x m. requeue_locked-IsOpen id x e (all x (there m)))
        (requeue_locked-Steps id e (all id here) v)

  -- The other jobs stay as they are.
  requeue_each_ne :
      (ids : List Text) (x : Text) (e : Engine S)
      → (Elem x ids → ⊥)
      → find job_key x (requeue_each ops ids e).0.jobs ≡ find job_key x e.jobs
  unfolding requeue_each
  requeue_each_ne [] x e n = refl
  requeue_each_ne (id ∷ ids) x e n =
      requeue_each_ne ids x (requeue_locked ops id e).0 (λ m. n (there m))
      ∙ requeue_locked_ne id x e (λ p. n (subst (λ z. Elem z (id ∷ ids)) p here))

  persist_extra-SameQueue :
      (ids : List Text) (e : Engine S) → SameQueue (persist_extra ops ids e).0 e
  unfolding persist_extra
  persist_extra-SameQueue [] e = SameQueue-refl e
  persist_extra-SameQueue (id ∷ ids) e =
      SameQueue-trans (persist_extra-SameQueue ids (persist_robot_at ops id e).0)
        (persist_robot_at-SameQueue ops id e)

  -- Beside the requeued jobs, a transaction leaves the queue alone.
  all_written :
      (ids extra : List Text) (e : Engine S)
      → SameQueue (requeue_all ops ids extra e).0 (requeue_each ops ids (begin_batch e)).0
  unfolding requeue_all
  all_written ids extra e =
      SameQueue-trans (record_persist_outcome-SameQueue _ _)
        (SameQueue-trans (commit_batch-SameQueue ops _) (persist_extra-SameQueue extra _))

  begun-IsOpen : (e : Engine S) (x : Text) → IsOpen e.jobs x → IsOpen (begin_batch e).jobs x
  begun-IsOpen e x open_job k f =
      open_job k (sym (ap (λ z. find job_key x z) (begin_batch-SameQueue e).jobs) ∙ f)

  pub requeue_all-Steps :
      {js : List Job} (ids extra : List Text) (e : Engine S)
      → ((x : Text) → Elem x ids → IsOpen e.jobs x)
      → Steps js e.jobs
      → Steps js (requeue_all ops ids extra e).0.jobs
  requeue_all-Steps ids extra e all v = SameQueue-Steps (all_written ids extra e) (
      requeue_each-Steps ids (begin_batch e) (λ x m. begun-IsOpen e x (all x m))
        (SameQueue-Steps (begin_batch-SameQueue e) v))

  pub requeue_all_ne :
      (ids extra : List Text) (x : Text) (e : Engine S)
      → (Elem x ids → ⊥)
      → find job_key x (requeue_all ops ids extra e).0.jobs ≡ find job_key x e.jobs
  requeue_all_ne ids extra x e n =
      ap (λ z. find job_key x z) (all_written ids extra e).jobs
      ∙ requeue_each_ne ids x (begin_batch e) n
      ∙ ap (λ z. find job_key x z) (begin_batch-SameQueue e).jobs

module _ {S : Type 0} where
  -- The jobs of a robot that are to be requeued are in flight.
  pub jobs_of_robot-IsOpen :
      (r : Text) (u : Bool) (e : Engine S) (x : Text)
      → Elem x (map job_key (jobs_of_robot r u e).0)
      → IsOpen e.jobs x
  unfolding jobs_of_robot
  jobs_of_robot-IsOpen r u e x m k f =
      let (j, n, name) = Elem-map job_key (jobs_of_robot r u e).0 m in
      let (h, t) =
        Elem-select (λ z. is_assigned z.status || (u && is_unknown z.status)) j (jobs_held_by r e).0
          (Elem-sort_by _ _ n) in
      let (y, g, _) = jobs_held_by_sound e r j h in
      let key = find-key job_key y e.jobs {v = j} g in
      let same = some_inj (sym (ap (λ z. find job_key z e.jobs) (sym name ∙ key) ∙ g) ∙ f) in
      subst (λ z. is_in_flight z.status || is_waiting z.status ≡ true) same (flying j t)
    where
      flying :
          (j : Job)
          → is_assigned j.status || (u && is_unknown j.status) ≡ true
          → is_in_flight j.status || is_waiting j.status ≡ true
      flying j t = ground arith

module _ {S : Type 0} (ops : StoreOps S) {js : List Job} where
  requeue_checked-Steps :
      (j : Job) (r : Text) (e : Engine S)
      → IsOpen e.jobs j.id
      → Steps js e.jobs
      → Steps js (requeue_checked ops j r e).0.jobs
  unfolding requeue_checked
  requeue_checked-Steps j r e open_job v =
      let back =
        requeue_locked-Steps ops j.id (begin_batch e) (begun-IsOpen ops e j.id open_job)
          (SameQueue-Steps (begin_batch-SameQueue e) v) in
      let done =
        SameQueue-Steps (record_persist_outcome-SameQueue _ _)
          (SameQueue-Steps (commit_batch-SameQueue ops _) back) in
      elim (Bool-cases (not (is_empty r) && not (eqt r j.assigned_robot))) [
        | inl q ↦ rw q v
        | inr q ↦ rw q done
      ]

  by_status-Steps :
      (s : JobStatus) (j : Job) (r : Text) (e : Engine S)
      → find job_key j.id e.jobs ≡ some j
      → j.status ≡ s
      → Steps js e.jobs
      → Steps js (requeue_by_status ops s j r e).0.jobs
  unfolding requeue_by_status
  by_status-Steps JobStatus.assigned j r e f q v =
      requeue_checked-Steps j r e
        (λ k g.
          subst (λ z. is_in_flight z.status || is_waiting z.status ≡ true) (some_inj (sym f ∙ g))
            (ground arith))
        v
  by_status-Steps JobStatus.unknown j r e f q v =
      requeue_checked-Steps j r e
        (λ k g.
          subst (λ z. is_in_flight z.status || is_waiting z.status ≡ true) (some_inj (sym f ∙ g))
            (ground arith))
        v
  by_status-Steps JobStatus.pending j r e f q v = v
  by_status-Steps JobStatus.blocked j r e f q v = v
  by_status-Steps JobStatus.unreachable j r e f q v = v
  by_status-Steps JobStatus.done j r e f q v = v
  by_status-Steps JobStatus.failed j r e f q v = v
  by_status-Steps JobStatus.cancelled j r e f q v = v

  pub requeue_job-Steps :
      (job_id robot_id : Text) (e : Engine S)
      → Steps js e.jobs
      → Steps js (requeue_job ops job_id robot_id e).0.jobs
  unfolding requeue_job
  requeue_job-Steps job_id robot_id e v = elim (Option-cases (find job_key job_id e.jobs)) [
    | inl q ↦ rw (q, requeue_job) v
    | inr (j, q) ↦
        rw (q, requeue_job)
          (by_status-Steps j.status j robot_id e
            (subst (λ z. find job_key z e.jobs ≡ some j)
              (sym (find-key job_key job_id e.jobs {v = j} q)) q)
            refl v)
  ]

  pub replan_robot-Steps :
      (r : Text) (e : Engine S) → Steps js e.jobs → Steps js (replan_robot ops r e).0.jobs
  unfolding replan_robot jobs_of_robot jobs_held_by
  replan_robot-Steps r e v =
      let failed : Engine S = record e { robots = update robot_key r hold_robot e.robots } in
      let back =
        requeue_all-Steps ops (map job_key (jobs_of_robot r true failed).0) (r ∷ [])
          (jobs_of_robot r true failed).1 (λ x m. jobs_of_robot-IsOpen r true failed x m) v in
      elim (Bool-cases e.replan.enabled) [
        | inr off ↦ rw off v
        | inl on ↦ elim (Option-cases (find robot_key r e.robots)) [
          | inl q ↦ rw (on, q, replan_robot) v
          | inr (w, q) ↦ rw (on, q, replan_robot) back
        ]
      ]
