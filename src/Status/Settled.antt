-- ===== src/Status/Settled.antt =====
-- The fixed point of refreshBlocked: on a queue without cycles the loop ends by its own test, with
-- every waiting job under the verdict that its dependencies give it.
use mathlib.Core.Option
use hydra_umc_job_dispatcher.Common.{
  ℕ, zero, suc, ◌<◌, ◌≡◌, ◌≢◌, refl, sym, ◌∙◌, ap, subst, ◌⊎◌, inl, inr, true, false, some, List,
  [], ◌∷◌, map, Text, text_dec, Elem, Option-cases, Bool-cases, some_inj, length, ite, if_pos,
  if_neg, arith,
}
use hydra_umc_job_dispatcher.Common.Keyed.{find, update, find-update, find-key}
use hydra_umc_job_dispatcher.Model.{Job, JobStatus, JobStatus-discrete, job_key}
use hydra_umc_job_dispatcher.Status.{compute_status, is_waiting, set_status}
use hydra_umc_job_dispatcher.Status.Verdict.{compute_status-is_waiting}
use hydra_umc_job_dispatcher.Status.Passes.{Verdicts, visit, pass, loop, refresh_jobs}

abbrev pub SettledAt : List Job → Text → Type 0
SettledAt jobs x =
    (j : Job)
    → find job_key x jobs ≡ some j
    → is_waiting j.status ≡ true
    → compute_status jobs j ≡ j.status

-- Every waiting job stands under the verdict that its dependencies give it.
abbrev pub Settled : List Job → Type 0
Settled jobs = (x : Text) → SettledAt jobs x

-- A rank that falls along the dependencies: the queue has no cycle.
abbrev pub Ranked : (Text → ℕ) → List Job → Type 0
Ranked rank jobs =
    (x d : Text) (j : Job) → find job_key x jobs ≡ some j → Elem d j.depends_on → rank d < rank x

-- The job `x` is as it was, or it is a waiting job under another verdict.
abbrev pub VerdictAt : List Job → List Job → Text → Type 0
VerdictAt js ks x =
    (find job_key x ks ≡ find job_key x js)
    ⊎ ((j : Job) × (s : JobStatus) × (find job_key x js ≡ some j)
        × (is_waiting j.status ≡ true)
        × (is_waiting s ≡ true)
        × (find job_key x ks ≡ some (set_status s j)))

abbrev pub Reverdict : List Job → List Job → Type 0
Reverdict js ks = (x : Text) → VerdictAt js ks x

pub Reverdict-trans : (js ks ls : List Job) → Reverdict js ks → Reverdict ks ls → Reverdict js ls
Reverdict-trans js ks ls p q x = join (p x) (q x)
  where
    join : VerdictAt js ks x → VerdictAt ks ls x → VerdictAt js ls x
    join (inl e) (inl f) = inl (f ∙ e)
    join (inl e) (inr (j, s, f, w, v, g)) = inr (j, s, sym e ∙ f, w, v, g)
    join (inr (j, s, f, w, v, g)) (inl e) = inr (j, s, f, w, v, e ∙ g)
    join (inr (j, s, f, w, v, g)) (inr (j', s', f', w', v', g')) =
        inr (j, s', f, w, v', g' ∙ ap (λ o. Option.map (set_status s') o) (sym f' ∙ g))

-- What one visit does.
abbrev pub Changes : Text → Verdicts → Type 0
Changes id v =
    (j : Job) × (find job_key id v.jobs ≡ some j)
    × (is_waiting j.status ≡ true)
    × (compute_status v.jobs j ≢ j.status)
    × (visit id v ≡ record {
      jobs = update job_key id (set_status (compute_status v.jobs j)) v.jobs;
      changed = true;
    })

pub visit-cases :
    (id : Text) (v : Verdicts) → ((visit id v ≡ v) × SettledAt v.jobs id) ⊎ Changes id v
unfolding visit
visit-cases id v = elim (Option-cases (find job_key id v.jobs)) [
  | inl e ↦ inl (rw (e, visit), λ k f w. cc)
  | inr (j, e) ↦ elim (Bool-cases (is_waiting j.status)) [
    | inr idle ↦ inl (rw (e, visit) (rw idle), λ k f w. ground arith)
    | inl waits ↦ elim (JobStatus-discrete (compute_status v.jobs j) j.status) [
      | yes same ↦ inl (rw (e, visit) (rw waits (ground arith)), λ k f w. settled same (sym e ∙ f))
      | no differs ↦ inr (
        j,
        e,
        waits,
        differs,
        rw (e, visit) (rw waits (ground (arith, find-key job_key id v.jobs {v = j}))),
      )
    ]
  ]
]
  where
    settled :
        {j k : Job}
        → compute_status v.jobs j ≡ j.status
        → some j ≡ some k
        → compute_status v.jobs k ≡ k.status
    settled same f = subst (λ x. compute_status v.jobs x ≡ x.status) (some_inj f) same

pub find-changed :
    (id x : Text) (j : Job) (s : JobStatus) (jobs : List Job)
    → find job_key id jobs ≡ some j
    → find job_key x (update job_key id (set_status s) jobs)
      ≡ ite (text_dec id x) (some (set_status s j)) (find job_key x jobs)
find-changed id x j s jobs e =
    ground (arith, find-update job_key x id (set_status s) jobs (λ k. refl))

pub visit-Reverdict : (id : Text) (v : Verdicts) → Reverdict v.jobs (visit id v).jobs
visit-Reverdict id v x = elim (visit-cases id v) [
  | inl (e, _) ↦ inl (ap (λ w. find job_key x w.jobs) e)
  | inr (j, e, w, _, q) ↦
      let next = compute_status v.jobs j in
      let f = ap (λ u. find job_key x u.jobs) q ∙ find-changed id x j next v.jobs e in
      elim (text_dec id x) [
        | yes p ↦ inr (
          j,
          next,
          ap (λ y. find job_key y v.jobs) (sym p) ∙ e,
          w,
          compute_status-is_waiting v.jobs j,
          f ∙ if_pos (text_dec id x) p _ _,
        )
        | no p ↦ inl (f ∙ if_neg (text_dec id x) p _ _)
      ]
]

pub pass-Reverdict : (ids : List Text) (v : Verdicts) → Reverdict v.jobs (pass ids v).jobs
unfolding pass
pass-Reverdict [] v = λ x. inl refl
pass-Reverdict (id ∷ ids) v =
    Reverdict-trans v.jobs (visit id v).jobs (pass ids (visit id v)).jobs (visit-Reverdict id v)
      (pass-Reverdict ids (visit id v))

loop-Reverdict :
    (fuel : ℕ) (ids : List Text) (v : Verdicts) → Reverdict v.jobs (loop fuel ids v).jobs
unfolding loop
loop-Reverdict zero ids v = λ x. inl refl
loop-Reverdict (suc fuel) ids v = elim (Bool-cases v.changed) [
  | inl e ↦
      let w = pass ids (record v { changed = false }) in
      rw e (
        Reverdict-trans v.jobs w.jobs (loop fuel ids w).jobs
          (pass-Reverdict ids (record v { changed = false })) (loop-Reverdict fuel ids w))
  | inr e ↦ rw e (λ x. inl refl)
]

-- A refresh changes nothing but the verdicts of waiting jobs, cycles or not.
pub refresh_jobs-Reverdict : (jobs : List Job) → Reverdict jobs (refresh_jobs jobs)
unfolding refresh_jobs
refresh_jobs-Reverdict jobs =
    loop-Reverdict (suc (suc (length jobs))) (map job_key jobs)
      (record { jobs = jobs; changed = true })

-- Dependencies are not verdicts, so a rank stays a rank.
pub Reverdict-Ranked :
    (rank : Text → ℕ) (js ks : List Job) → Reverdict js ks → Ranked rank js → Ranked rank ks
Reverdict-Ranked rank js ks r ranked x d k f m = elim (r x) [
  | inl e ↦ ranked x d k (sym e ∙ f) m
  | inr (j, s, e, _, _, g) ↦
      ranked x d j e (subst (λ o. Elem d o.depends_on) (some_inj (sym f ∙ g)) m)
]
