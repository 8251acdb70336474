-- ===== src/Status/Rank.antt =====
-- A queue whose dependencies fall along some rank and are all in the queue has a rank below the
-- number of its jobs, which is what the rounds of refreshBlocked are counted by.
use hydra_umc_job_dispatcher.Common.{
  ℕ, suc, ◌≤◌, ◌<◌, ◌≡◌, sym, subst, some, List, [], ◌∷◌, Text, Elem, here, there, ltb, length,
  arith, if◌then◌else◌,
}
use hydra_umc_job_dispatcher.Common.Keyed.{find, find-key, Elem-find}
use hydra_umc_job_dispatcher.Model.{Job, job_key}
use hydra_umc_job_dispatcher.Engine.{Engine, StoreOps}
use hydra_umc_job_dispatcher.Status.{refresh_blocked}
use hydra_umc_job_dispatcher.Status.Passes.{refresh_jobs, refresh_blocked-jobs}
use hydra_umc_job_dispatcher.Status.Settled.{Settled, Ranked}
use hydra_umc_job_dispatcher.Status.FixedPoint.{refresh_jobs-Settled-Ranked}

-- Every dependency is a job of the queue.
abbrev pub Closed : List Job → Type 0
Closed jobs =
    (x d : Text) (j : Job)
    → find job_key x jobs ≡ some j
    → Elem d j.depends_on
    → (k : Job) × (find job_key d jobs ≡ some k)

-- The jobs of a rank below `n`.
count_below : (Text → ℕ) → ℕ → List Job → ℕ
count_below rank n [] = 0
count_below rank n (j ∷ js) =
    let rest = count_below rank n js in if ltb (rank j.id) n then suc rest else rest

count_below-le : (rank : Text → ℕ) (n : ℕ) (js : List Job) → count_below rank n js ≤ length js
unfolding count_below
count_below-le rank n [] = omega arith
count_below-le rank n (j ∷ js) = ground (arith, count_below-le rank n js)

count_below_mono :
    (rank : Text → ℕ) (m n : ℕ) (js : List Job)
    → m ≤ n
    → count_below rank m js ≤ count_below rank n js
unfolding count_below
count_below_mono rank m n [] h = omega arith
count_below_mono rank m n (j ∷ js) h = ground (arith, count_below_mono rank m n js)

-- A job of rank `m` is counted below a larger `n`, and not below `m`.
count_below-lt :
    (rank : Text → ℕ) (n : ℕ) (js : List Job) {k : Job}
    → Elem k js
    → rank k.id < n
    → count_below rank (rank k.id) js < count_below rank n js
unfolding count_below
count_below-lt rank n [] m h = elim m [ ]
count_below-lt rank n (k ∷ js) here h = ground (arith, count_below_mono rank (rank k.id) n js)
count_below-lt rank n (j ∷ js) {k} (there m) h = ground (arith, count_below-lt rank n js m)

module _ (rank : Text → ℕ) (jobs : List Job) (ranked : Ranked rank jobs)
    (closed : Closed jobs) where
  depth : Text → ℕ
  depth x = count_below rank (rank x) jobs

  depth-Ranked : Ranked depth jobs
  unfolding depth
  depth-Ranked x d j f m =
      let (k, g) = closed x d j f m in
      let e = find-key job_key d jobs {v = k} g in
      subst (λ y. count_below rank (rank y) jobs < count_below rank (rank x) jobs) e
        (count_below-lt rank (rank x) jobs (Elem-find job_key d jobs g)
          (subst (λ y. rank y < rank x) (sym e) (ranked x d j f m)))

  pub refresh_jobs-Settled : Settled (refresh_jobs jobs)
  unfolding depth
  refresh_jobs-Settled =
      refresh_jobs-Settled-Ranked depth jobs depth-Ranked (λ x. count_below-le rank (rank x) jobs)

-- If a rank falls along the dependencies and each dependency is a job of the queue, then after
-- refreshBlocked every waiting job stands under the verdict that its dependencies give it.
pub refresh_blocked-Settled :
    {S : Type 0} (ops : StoreOps S) (e : Engine S) (rank : Text → ℕ)
    → Ranked rank e.jobs
    → Closed e.jobs
    → Settled (refresh_blocked ops e).0.jobs
refresh_blocked-Settled ops e rank ranked closed =
    subst Settled (sym (refresh_blocked-jobs ops e))
      (refresh_jobs-Settled rank e.jobs ranked closed)
