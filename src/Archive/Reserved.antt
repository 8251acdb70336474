-- ===== src/Archive/Reserved.antt =====
-- Archiving keeps the reservations: jobs only leave the queue.
use hydra_umc_job_dispatcher.Common.{
  ◌≡◌, refl, sym, ◌∙◌, inl, inr, Option, none, some, List, [], ◌∷◌, Text, text_dec, Option-cases,
  Bool-cases, if_pos, if_neg, ◌==◌,
}
use hydra_umc_job_dispatcher.Common.Int.{ℤ}
use hydra_umc_job_dispatcher.Common.Keyed.{find, delete, find-delete}
use hydra_umc_job_dispatcher.Time.{unix_milli}
use hydra_umc_job_dispatcher.Model.{Job, Error, job_key}
use hydra_umc_job_dispatcher.Engine.{Engine, StoreOps}
use hydra_umc_job_dispatcher.Archive.{forget_job, forget_jobs, archive_ids, archive_finished}
use hydra_umc_job_dispatcher.Reservation.{EngineIsReserved, Sheds, shed-IsReserved}

delete-Sheds : (id : Text) (js : List Job) → Sheds js (delete job_key id js)
delete-Sheds id js x k g =
    let e = find-delete job_key x id js in
    elim (text_dec id x) [
      | yes p ↦ absurd (clash (sym (e ∙ if_pos (text_dec id x) p _ _) ∙ g))
      | no p ↦
          let h = sym (e ∙ if_neg (text_dec id x) p _ _) ∙ g in
          (λ a. (k, h, a, refl), λ n. (k, h, refl))
    ]
  where
    clash : none ≡ some k → ⊥
    clash q = cc

module _ {S : Type 0} where
  forget_job-IsReserved :
      (id : Text) (e : Engine S) → EngineIsReserved e → EngineIsReserved (forget_job id e)
  unfolding forget_job
  forget_job-IsReserved id e v = elim (Option-cases (find job_key id e.jobs)) [
    | inl q ↦ rw (q, forget_job) v
    | inr (j, q) ↦ rw (q, forget_job) (shed-IsReserved (delete-Sheds id e.jobs) v)
  ]

  forget_jobs-IsReserved :
      (ids : List Text) (e : Engine S) → EngineIsReserved e → EngineIsReserved (forget_jobs ids e)
  unfolding forget_jobs
  forget_jobs-IsReserved [] e v = v
  forget_jobs-IsReserved (id ∷ ids) e v =
      forget_jobs-IsReserved ids (forget_job id e) (forget_job-IsReserved id e v)

  archive_ids-IsReserved :
      (archive : S → List Text → ℤ → S × Option Error) (s : S) (ids : List Text) (e : Engine S)
      → EngineIsReserved e
      → EngineIsReserved (archive_ids archive s ids e).0
  unfolding archive_ids
  archive_ids-IsReserved archive s [] e v = v
  archive_ids-IsReserved archive s (id ∷ ids) e v =
      elim (Option-cases (archive s (id ∷ ids) (unix_milli e.now)).1) [
        | inl q ↦ rw (q, archive_ids) (forget_jobs-IsReserved (id ∷ ids) _ v)
        | inr (x, q) ↦ rw (q, archive_ids) v
      ]

module _ {S : Type 0} (ops : StoreOps S) where
  pub archive_finished-IsReserved :
      (e : Engine S) → EngineIsReserved e → EngineIsReserved (archive_finished ops e).0
  unfolding archive_finished
  archive_finished-IsReserved e v = elim (Option-cases e.store) [
    | inl q ↦ rw (q, archive_finished) v
    | inr (s, q) ↦ elim (Option-cases ops.archive_jobs) [
      | inl a ↦ rw (q, a, archive_finished) v
      | inr (archive, a) ↦ elim (Bool-cases (e.archive_after == 0)) [
        | inl off ↦ rw (q, a, archive_finished) (rw off v)
        | inr on ↦ rw (q, a, archive_finished) (rw on (archive_ids-IsReserved archive s _ e v))
      ]
    ]
  ]
