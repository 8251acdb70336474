-- ===== src/Lifecycle/Silence.antt =====
-- The sweep for silent robots and the acknowledgement of a stop, as steps of the queue.
use mathlib.Core.Option
use hydra_umc_job_dispatcher.Common.{
  ◌≡◌, refl, sym, ◌∙◌, ap, subst, inl, inr, true, ◌&&◌, not, Option, none, some, List, [], ◌∷◌,
  Text, eqt, is_empty, text_dec, ltb, Elem, here, there, Elem-cons, Bool-cases, Option-cases,
  some_inj, if_pos, if_neg, arith, sort_by,
}
use hydra_umc_job_dispatcher.Common.Keyed.{find, update, update-none, find-update, Distinct}
use hydra_umc_job_dispatcher.Common.Sorting.{sort_by-Distinct}
use hydra_umc_job_dispatcher.Time.{Duration}
use hydra_umc_job_dispatcher.Model.{
  Job, JobStatus, Error, StopRequest, job_key, stop_request_key, is_in_flight,
}
use hydra_umc_job_dispatcher.Engine.{Engine, StoreOps, begin_batch}
use hydra_umc_job_dispatcher.Engine.Frame.{
  begin_batch-SameQueue, commit_batch-SameQueue, record_persist_outcome-SameQueue,
  persist_job_at-SameQueue,
}
use hydra_umc_job_dispatcher.Status.{set_status}
use hydra_umc_job_dispatcher.Stale.{
  collect_stale, decide_stale, mark_each, mark_unknown, emit_unknown, requeue_back, detect_stale,
  ack_stop, ack_open,
}
use hydra_umc_job_dispatcher.Reservation.Silence.{
  collect_stale-SameParts, decide_stale-SameParts, emit_unknown-SameParts,
}
use hydra_umc_job_dispatcher.Lifecycle.{lost, Steps}
use hydra_umc_job_dispatcher.Lifecycle.Builders.{then_same, change-Steps, SameQueue-Steps}
use hydra_umc_job_dispatcher.Lifecycle.Returning.{IsOpen, requeue_all-Steps, requeue_all_ne}
use hydra_umc_job_dispatcher.Lifecycle.Swept.{
  IsFlying, flying-IsOpen, collect_stale-Distinct, decide_stale-Apart, collected-IsFlying,
}

marked-IsFlying :
    (id x : Text) (ks : List Job)
    → IsFlying ks x
    → IsFlying (update job_key id (set_status JobStatus.unknown) ks) x
marked-IsFlying id x ks h k f =
    let f' = sym (find-update job_key x id (set_status JobStatus.unknown) ks (λ z. refl)) ∙ f in
    elim (text_dec id x) [
      | no p ↦ h k (sym (if_neg (text_dec id x) p _ _) ∙ f')
      | yes p ↦ elim (Option-cases (find job_key x ks)) [
        | inl q ↦ absurd (
            none-some (
              sym (ap (Option.map (set_status JobStatus.unknown)) q)
              ∙ sym (if_pos (text_dec id x) p _ _)
              ∙ f'))
        | inr (j, q) ↦
            subst (λ z. is_in_flight z.status ≡ true)
              (some_inj (
                sym (ap (Option.map (set_status JobStatus.unknown)) q)
                ∙ sym (if_pos (text_dec id x) p _ _)
                ∙ f'))
              refl
      ]
    ]
  where
    none-some : {k : Job} → none ≡ some k → ⊥
    none-some e = cc

module _ {S : Type 0} (ops : StoreOps S) where
  requeue_back_ne :
      (ids : List Text) (x : Text) (e : Engine S)
      → (Elem x ids → ⊥)
      → find job_key x (requeue_back ops ids e).0.jobs ≡ find job_key x e.jobs
  unfolding requeue_back
  requeue_back_ne [] x e n = refl
  requeue_back_ne (id ∷ ids) x e n = requeue_all_ne ops (id ∷ ids) [] x e n

ack_open_flying :
    (j : Job) (r : Text) (o : Option StopRequest)
    → ack_open j r o ≡ true
    → is_in_flight j.status ≡ true
unfolding ack_open
ack_open_flying j r none h = cc
ack_open_flying j r (some q) h = ground arith

only_IsOpen :
    (id : Text) (ks : List Job) (j : Job)
    → find job_key id ks ≡ some j
    → is_in_flight j.status ≡ true
    → (x : Text) → Elem x (id ∷ [])
    → IsOpen ks x
only_IsOpen id ks j q t x m = elim (Elem-cons m) [
  | inr k ↦ elim k [ ]
  | inl e ↦ flying-IsOpen ks x (λ k f.
      subst (λ z. is_in_flight z.status ≡ true)
        (some_inj (sym q ∙ ap (λ z. find job_key z ks) (sym e) ∙ f)) t)
]

module _ {S : Type 0} (ops : StoreOps S) {js : List Job} where
  mark-Steps :
      (id : Text) (ks : List Job)
      → IsFlying ks id
      → Steps js ks
      → Steps js (update job_key id (set_status JobStatus.unknown) ks)
  mark-Steps id ks h v = elim (Option-cases (find job_key id ks)) [
    | inr (j, q) ↦
        change-Steps id (set_status JobStatus.unknown) j ks q (λ z. refl) (lost (h j q) refl refl) v
    | inl q ↦ then_same v (update-none job_key id (set_status JobStatus.unknown) ks q)
  ]

  mark_each-Steps :
      (ids : List Text) (e : Engine S) (x : Option Error)
      → ((y : Text) → Elem y ids → IsFlying e.jobs y)
      → Steps js e.jobs
      → Steps js (mark_each ops ids e x).0.jobs
  unfolding mark_each
  mark_each-Steps [] e x all v = v
  mark_each-Steps (id ∷ ids) e x all v =
      let f = set_status JobStatus.unknown in
      let marked : Engine S = record e { jobs = update job_key id f e.jobs } in
      let same =
        (persist_job_at-SameQueue ops id (emit_unknown id marked)).jobs
        ∙ (emit_unknown-SameParts id marked).jobs in
      mark_each-Steps ids _ _
        (λ y m.
          subst (λ z. IsFlying z y) (sym same) (marked-IsFlying id y e.jobs (all y (there m))))
        (then_same (mark-Steps id e.jobs (all id here) v) same)

  mark_unknown-Steps :
      (ids : List Text) (e : Engine S)
      → ((y : Text) → Elem y ids → IsFlying e.jobs y)
      → Steps js e.jobs
      → Steps js (mark_unknown ops ids e).jobs
  unfolding mark_unknown
  mark_unknown-Steps [] e all v = v
  mark_unknown-Steps (id ∷ ids) e all v =
      let begun = begin_batch-SameQueue e in
      SameQueue-Steps (record_persist_outcome-SameQueue _ _) (
        SameQueue-Steps (commit_batch-SameQueue ops _) (
          mark_each-Steps (id ∷ ids) (begin_batch e) none
            (λ y m. subst (λ z. IsFlying z y) (sym begun.jobs) (all y m))
            (SameQueue-Steps begun v)))

  requeue_back-Steps :
      (ids : List Text) (e : Engine S)
      → ((x : Text) → Elem x ids → IsOpen e.jobs x)
      → Steps js e.jobs
      → Steps js (requeue_back ops ids e).0.jobs
  unfolding requeue_back
  requeue_back-Steps [] e all v = v
  requeue_back-Steps (id ∷ ids) e all v = requeue_all-Steps ops (id ∷ ids) [] e all v

  -- With planning again: the jobs that go back first, then those that are given up.
  replanned-Steps :
      (t : Duration) (e : Engine S)
      → Distinct job_key e.jobs
      → Steps js e.jobs
      → let c = collect_stale t e.jobs e in
        let d = decide_stale (sort_by (λ a b. ltb a.seq b.seq) c.1) c.0 in
        Steps js (mark_unknown ops d.2.unknown (requeue_back ops d.1 d.0).0).jobs
  replanned-Steps t e dis v =
      let c = collect_stale t e.jobs e in
      let stale = sort_by (λ a b. ltb a.seq b.seq) c.1 in
      let d = decide_stale stale c.0 in
      let parts =
        decide_stale-Apart stale c.0
          (sort_by-Distinct _ job_key c.1 (collect_stale-Distinct t e.jobs e dis)) in
      let same =
        (decide_stale-SameParts stale c.0).jobs ∙ (collect_stale-SameParts t e.jobs e).jobs in
      mark_unknown-Steps d.2.unknown _
        (λ y m k f. collected-IsFlying t e dis y (parts.lost_of y m) k (
          sym (
            requeue_back_ne ops d.1 y d.0 (λ n. parts.apart y n m)
            ∙ ap (λ z. find job_key y z) same)
          ∙ f))
        (requeue_back-Steps d.1 d.0
          (λ x m k f.
            flying-IsOpen e.jobs x (collected-IsFlying t e dis x (parts.back_of x m)) k
              (sym (ap (λ z. find job_key x z) same) ∙ f))
          (then_same v same))

  pub detect_stale-Steps :
      (t : Duration) (e : Engine S)
      → Distinct job_key e.jobs
      → Steps js e.jobs
      → Steps js (detect_stale ops t e).0.jobs
  unfolding detect_stale
  detect_stale-Steps t e dis v =
      let same = (collect_stale-SameParts t e.jobs e).jobs in
      elim (Bool-cases (e.replan.enabled && e.replan.on_stale)) [
        | inl on ↦ rw on (replanned-Steps t e dis v)
        | inr off ↦ rw off (
            mark_unknown-Steps _ (collect_stale t e.jobs e).0
              (λ y m. subst (λ z. IsFlying z y) (sym same) (collected-IsFlying t e dis y m))
              (then_same v same))
      ]

  pub ack_stop-Steps :
      (robot_id job_id : Text) (e : Engine S)
      → Steps js e.jobs
      → Steps js (ack_stop ops robot_id job_id e).0.jobs
  unfolding ack_stop ack_open
  ack_stop-Steps robot_id job_id e v = elim (Bool-cases e.replan.enabled) [
    | inr off ↦ rw off v
    | inl on ↦ elim (Option-cases (find job_key job_id e.jobs)) [
      | inl q ↦ rw (on, q, ack_stop) v
      | inr (j, q) ↦
          elim (Bool-cases
            (not (is_empty j.assigned_robot) && not (eqt j.assigned_robot robot_id))) [
              | inl other ↦ rw (on, q, ack_stop) (rw other v)
              | inr own ↦
                  elim (Bool-cases
                    (ack_open j robot_id (find stop_request_key job_id e.stop_req))) [
                      | inr closed ↦ rw (on, q, ack_stop) (rw (own, closed) v)
                      | inl asked ↦
                          let open_job =
                            ack_open_flying j robot_id (find stop_request_key job_id e.stop_req)
                              asked in
                          rw (on, q, ack_stop)
                            (rw (own, asked)
                              (requeue_all-Steps ops (job_id ∷ []) [] e
                                (only_IsOpen job_id e.jobs j q open_job) v))
                    ]
            ]
    ]
  ]
