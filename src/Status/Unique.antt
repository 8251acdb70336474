-- ===== src/Status/Unique.antt =====
-- The settled verdicts are determined by the rest of the queue, so the order in which the program
-- walks its map of jobs does not show in the result.
use hydra_umc_job_dispatcher.Common.{
  ℕ, zero, suc, ◌<◌, ◌≡◌, sym, ◌∙◌, ap, inl, inr, true, false, some, List, Text, Elem, Option-cases,
  Bool-cases, some_inj, arith,
}
use hydra_umc_job_dispatcher.Common.Keyed.{find}
use hydra_umc_job_dispatcher.Model.{Job, JobStatus, job_key}
use hydra_umc_job_dispatcher.Status.{compute_status, is_waiting, set_status}
use hydra_umc_job_dispatcher.Status.Verdict.{compute_from-congr}
use hydra_umc_job_dispatcher.Engine.{Engine, StoreOps}
use hydra_umc_job_dispatcher.Status.{refresh_blocked}
use hydra_umc_job_dispatcher.Status.Passes.{refresh_blocked-jobs, refresh_jobs}
use hydra_umc_job_dispatcher.Status.Settled.{
  Settled, Ranked, Reverdict, VerdictAt, refresh_jobs-Reverdict,
}
use hydra_umc_job_dispatcher.Status.Rank.{Closed, refresh_jobs-Settled}

-- A waiting job is still there, under some verdict.
waiting_after :
    (js ks : List Job) (x : Text) (j : Job)
    → VerdictAt js ks x
    → find job_key x js ≡ some j
    → is_waiting j.status ≡ true
    → (s : JobStatus) × (is_waiting s ≡ true) × (find job_key x ks ≡ some (set_status s j))
waiting_after js ks x j (inl e) f w = (j.status, w, e ∙ f)
waiting_after js ks x j (inr (i, s, g, _, v, h)) f w =
    (s, v, h ∙ ap (λ k. some (set_status s k)) (some_inj (sym g ∙ f)))

-- A job that waits for nothing is untouched.
same_after :
    (js ks : List Job) (x : Text)
    → VerdictAt js ks x
    → ((j : Job) → find job_key x js ≡ some j → is_waiting j.status ≡ true → ⊥)
    → find job_key x ks ≡ find job_key x js
same_after js ks x (inl e) idle = e
same_after js ks x (inr (j, s, f, w, _, _)) idle = absurd (idle j f w)

module _ (rank : Text → ℕ) (jobs js ks : List Job) (ranked : Ranked rank jobs)
    (to_js : Reverdict jobs js) (to_ks : Reverdict jobs ks) (settled_js : Settled js)
    (settled_ks : Settled ks) where
  same_verdict :
      (x : Text) (j : Job)
      → find job_key x jobs ≡ some j
      → is_waiting j.status ≡ true
      → ((d : Text) → Elem d j.depends_on → find job_key d js ≡ find job_key d ks)
      → find job_key x js ≡ find job_key x ks
  unfolding compute_status
  same_verdict x j f w deps =
      let (s, u, g) = waiting_after jobs js x j (to_js x) f w in
      let (t, v, h) = waiting_after jobs ks x j (to_ks x) f w in
      let st =
        sym (settled_js x (set_status s j) g u)
        ∙ compute_from-congr js ks false j.depends_on deps
        ∙ settled_ks x (set_status t j) h v in
      g ∙ ap (λ z. some (set_status z j)) st ∙ sym h

  settled_below : (n : ℕ) (x : Text) → rank x < n → find job_key x js ≡ find job_key x ks
  settled_below zero x h = absurd (omega arith)
  settled_below (suc n) x h = elim (Option-cases (find job_key x jobs)) [
    | inl e ↦ unmoved (λ j f w. cc)
    | inr (j, e) ↦ elim (Bool-cases (is_waiting j.status)) [
      | inl w ↦ same_verdict x j e w (λ d m. settled_below n d (omega (arith, ranked x d j e m)))
      | inr idle ↦ unmoved (λ k f w. ground arith)
    ]
  ]
    where
      unmoved :
          ((j : Job) → find job_key x jobs ≡ some j → is_waiting j.status ≡ true → ⊥)
          → find job_key x js ≡ find job_key x ks
      unmoved idle = same_after jobs js x (to_js x) idle ∙ sym (same_after jobs ks x (to_ks x) idle)

  pub settled_unique : (x : Text) → find job_key x js ≡ find job_key x ks
  settled_unique x = settled_below (suc (rank x)) x (omega arith)

-- If a rank falls along the dependencies and each dependency is a job of the queue, then a settled
-- queue that differs only in the verdicts of waiting jobs is the one that refreshBlocked reaches.
pub refresh_blocked_unique :
    {S : Type 0} (ops : StoreOps S) (e : Engine S) (rank : Text → ℕ) (ks : List Job)
    → Ranked rank e.jobs
    → Closed e.jobs
    → Reverdict e.jobs ks
    → Settled ks
    → (x : Text) → find job_key x (refresh_blocked ops e).0.jobs ≡ find job_key x ks
refresh_blocked_unique ops e rank ks ranked closed to_ks settled x =
    ap (λ js. find job_key x js) (refresh_blocked-jobs ops e)
    ∙ settled_unique rank e.jobs (refresh_jobs e.jobs) ks ranked (refresh_jobs-Reverdict e.jobs)
        to_ks (refresh_jobs-Settled rank e.jobs ranked closed) settled x
