-- ===== src/Lifecycle/Leaving.antt =====
-- The archive, as a step of the queue.
use hydra_umc_job_dispatcher.Common.{
  ◌≡◌, refl, sym, ◌∙◌, ap, subst, inl, inr, Bool, true, false, Option, none, some, List, [], ◌∷◌,
  Text, text_dec, eqt, ◌/◌, ite, Elem, Elem-cons, Option-cases, Bool-cases, ◌==◌, arith,
  if◌then◌else◌,
}
use hydra_umc_job_dispatcher.Common.Int.{ℤ}
use hydra_umc_job_dispatcher.Common.Keyed.{find, find-delete, delete-Distinct, find-key, Elem-find}
use hydra_umc_job_dispatcher.Time.{unix_milli}
use hydra_umc_job_dispatcher.Model.{Job, Error, job_key, mem_text}
use hydra_umc_job_dispatcher.Engine.{Engine, StoreOps}
use hydra_umc_job_dispatcher.Held.Index.{Elem-mem_text, eqt_refl, eqt-eq}
use hydra_umc_job_dispatcher.Archive.{forget_job, forget_jobs, archive_ids, archive_finished}
use hydra_umc_job_dispatcher.Archive.Closed.{IsClosed, archived_ids-IsClosed}
use hydra_umc_job_dispatcher.Lifecycle.{Spares, KeepsDistinct, leave, Steps, next}

mem_text-Elem : (x : Text) (ids : List Text) → Elem x ids → mem_text x ids ≡ true
unfolding mem_text
mem_text-Elem x [] m = elim m [ ]
mem_text-Elem x (y ∷ ids) m = elim (Elem-cons m) [
  | inl e ↦ let same = subst (λ z. eqt z x ≡ true) e (eqt_refl x) in ground arith
  | inr k ↦ ground (arith, mem_text-Elem x ids k)
]

-- The jobs that go are closed, read through lookups.
IsClosed-Spares : (js : List Job) (c : List Text) → IsClosed js c → Spares (λ x. mem_text x c) js
unfolding IsClosed
IsClosed-Spares js c h x d j f out m = elim (Bool-cases (mem_text d c)) [
  | inr t ↦ t
  | inl t ↦
      let named = subst (λ z. mem_text z c ≡ false) (sym (find-key job_key x js {v = j} f)) out in
      let n = h j (Elem-find job_key x js f) named d (Elem-mem_text d c t) in
      absurd (clash (mem_text-Elem d j.depends_on m) n)
]
  where
    clash : {b : Bool} → b ≡ true → b ≡ false → ⊥
    clash p q = cc

module _ {S : Type 0} where
  forget_job-find :
      (id : Text) (e : Engine S) (x : Text)
      → find job_key x (forget_job id e).jobs ≡ (if eqt id x then none else find job_key x e.jobs)
  unfolding forget_job
  forget_job-find id e x = elim (Option-cases (find job_key id e.jobs)) [
    | inl q ↦ rw (q, forget_job) (absent (text_dec id x) q)
    | inr (j, q) ↦ rw (q, forget_job) (find-delete job_key x id e.jobs ∙ as_test)
  ]
    where
      as_test :
          ite (text_dec id x) none (find job_key x e.jobs)
          ≡ (if eqt id x then none else find job_key x e.jobs)
      as_test = ground arith

      absent :
          Dec (id ≡ x)
          → find job_key id e.jobs ≡ none
          → find job_key x e.jobs ≡ (if eqt id x then none else find job_key x e.jobs)
      absent (yes p) q =
          let gone = sym (ap (λ z. find job_key z e.jobs) p) ∙ q in
          let same = subst (λ z. eqt id z ≡ true) p (eqt_refl id) in rw (gone, same) refl
      absent (no p) q = elim (Bool-cases (eqt id x)) [
        | inl t ↦ absurd (p (eqt-eq id x t))
        | inr f ↦ rw f refl
      ]

  forget_jobs-find :
      (ids : List Text) (e : Engine S) (x : Text)
      → find job_key x (forget_jobs ids e).jobs
        ≡ (if mem_text x ids then none else find job_key x e.jobs)
  unfolding forget_jobs mem_text
  forget_jobs-find [] e x = refl
  forget_jobs-find (id ∷ ids) e x =
      ground (arith, forget_jobs-find ids (forget_job id e) x, forget_job-find id e x)

  forget_job-Distinct : (id : Text) (e : Engine S) → KeepsDistinct e.jobs (forget_job id e).jobs
  unfolding forget_job
  forget_job-Distinct id e d = elim (Option-cases (find job_key id e.jobs)) [
    | inl q ↦ rw (q, forget_job) d
    | inr (j, q) ↦ rw (q, forget_job) (delete-Distinct job_key id e.jobs d)
  ]

  forget_jobs-Distinct :
      (ids : List Text) (e : Engine S) → KeepsDistinct e.jobs (forget_jobs ids e).jobs
  unfolding forget_jobs
  forget_jobs-Distinct [] e d = d
  forget_jobs-Distinct (id ∷ ids) e d =
      forget_jobs-Distinct ids (forget_job id e) (forget_job-Distinct id e d)

  archive_ids-Steps :
      {js : List Job} (archive : S → List Text → ℤ → S × Option Error) (s : S) (ids : List Text)
      (e : Engine S)
      → IsClosed e.jobs ids
      → Steps js e.jobs
      → Steps js (archive_ids archive s ids e).0.jobs
  unfolding archive_ids
  archive_ids-Steps archive s [] e c v = v
  archive_ids-Steps archive s (id ∷ ids) e c v =
      elim (Option-cases (archive s (id ∷ ids) (unix_milli e.now)).1) [
        | inr (x, q) ↦ rw (q, archive_ids) v
        | inl q ↦
            let written : Engine S = record e {
              store = some (archive s (id ∷ ids) (unix_milli e.now)).0;
            } in
            rw (q, archive_ids)
              (next v (
                leave (λ x. mem_text x (id ∷ ids)) (IsClosed-Spares e.jobs (id ∷ ids) c)
                  (forget_jobs-find (id ∷ ids) written) (forget_jobs-Distinct (id ∷ ids) written)))
      ]

module _ {S : Type 0} (ops : StoreOps S) where
  pub archive_finished-Steps :
      {js : List Job} (e : Engine S) → Steps js e.jobs → Steps js (archive_finished ops e).0.jobs
  unfolding archive_finished
  archive_finished-Steps e v = elim (Option-cases e.store) [
    | inl q ↦ rw (q, archive_finished) v
    | inr (s, q) ↦ elim (Option-cases ops.archive_jobs) [
      | inl a ↦ rw (q, a, archive_finished) v
      | inr (archive, a) ↦ elim (Bool-cases (e.archive_after == 0)) [
        | inl off ↦ rw (q, a, archive_finished) (rw off v)
        | inr on ↦
            rw (q, a, archive_finished)
              (rw on (
                archive_ids-Steps archive s _ e
                  (archived_ids-IsClosed (unix_milli e.now) (e.archive_after / 1000000) e.jobs) v))
      ]
    ]
  ]
