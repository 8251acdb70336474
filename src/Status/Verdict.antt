-- ===== src/Status/Verdict.antt =====
-- What a verdict means, and what it depends on.
use hydra_umc_job_dispatcher.Common.{
  ◌≡◌, refl, inl, inr, Bool, true, false, not, ◌||◌, some, List, [], ◌∷◌, Text, Elem, here, there,
  Option-cases, Bool-cases, arith,
}
use hydra_umc_job_dispatcher.Common.Keyed.{find}
use hydra_umc_job_dispatcher.Model.{Job, JobStatus, job_key, is_done}
use hydra_umc_job_dispatcher.Status.{compute_from, compute_status, ends_badly, is_waiting}

-- A verdict is always one of the three waiting states.
pub compute_from-is_waiting :
    (jobs : List Job) (b : Bool) (deps : List Text) → is_waiting (compute_from jobs b deps) ≡ true
unfolding compute_from
compute_from-is_waiting jobs true [] = refl
compute_from-is_waiting jobs false [] = refl
compute_from-is_waiting jobs b (d ∷ deps) = elim (Option-cases (find job_key d jobs)) [
  | inl e ↦ rw (e, compute_from) (compute_from-is_waiting jobs b deps)
  | inr (k, e) ↦
      let rest = compute_from-is_waiting jobs (b || not (is_done k.status)) deps in
      rw (e, compute_from) (ground (arith, rest))
]

pub compute_status-is_waiting :
    (jobs : List Job) (j : Job) → is_waiting (compute_status jobs j) ≡ true
unfolding compute_status
compute_status-is_waiting jobs j = compute_from-is_waiting jobs false j.depends_on

-- Two queues that agree on the dependencies give the same verdict.
pub compute_from-congr :
    (js ks : List Job) (b : Bool) (deps : List Text)
    → ((d : Text) → Elem d deps → find job_key d js ≡ find job_key d ks)
    → compute_from js b deps ≡ compute_from ks b deps
unfolding compute_from
compute_from-congr js ks b [] same = refl
compute_from-congr js ks b (d ∷ deps) same = elim (Option-cases (find job_key d ks)) [
  | inl e ↦
      rw (same d here, e, compute_from) (compute_from-congr js ks b deps (λ x m. same x (there m)))
  | inr (k, e) ↦
      let rest =
        compute_from-congr js ks (b || not (is_done k.status)) deps (λ x m. same x (there m)) in
      rw (same d here, e, compute_from, rest)
]

-- What a queue says of one dependency.
abbrev pub BadDep : List Job → Text → Type 0
BadDep jobs d = (k : Job) × (find job_key d jobs ≡ some k) × (ends_badly k.status ≡ true)

abbrev pub OpenDep : List Job → Text → Type 0
OpenDep jobs d = (k : Job) × (find job_key d jobs ≡ some k) × (is_done k.status ≡ false)

-- If the verdict on some dependencies is unreachable, one of them is a job of the queue that failed,
-- was cancelled or is unreachable itself.
pub compute_from_unreachable :
    (jobs : List Job) (b : Bool) (deps : List Text)
    → compute_from jobs b deps ≡ JobStatus.unreachable
    → (d : Text) × Elem d deps × BadDep jobs d
unfolding compute_from
compute_from_unreachable jobs true [] h = cc
compute_from_unreachable jobs false [] h = cc
compute_from_unreachable jobs b (d ∷ deps) h = elim (Option-cases (find job_key d jobs)) [
  | inl e ↦
      let (x, m, bad) = compute_from_unreachable jobs b deps (rw (e, compute_from) at h) in
      (x, there m, bad)
  | inr (k, e) ↦ elim (Bool-cases (ends_badly k.status)) [
    | inl bad ↦ (d, here, (k, e, bad))
    | inr good ↦
        let q = rw (e, compute_from) at h in
        let (x, m, bad) =
          compute_from_unreachable jobs (b || not (is_done k.status)) deps (rw good at q) in
        (x, there m, bad)
  ]
]

-- If one dependency is a job of the queue that failed, was cancelled or is unreachable, the verdict
-- is unreachable.
pub unreachable_of_BadDep :
    (jobs : List Job) (b : Bool) (deps : List Text) {d : Text}
    → Elem d deps
    → BadDep jobs d
    → compute_from jobs b deps ≡ JobStatus.unreachable
unfolding compute_from
unreachable_of_BadDep jobs b [] m bad = elim m [ ]
unreachable_of_BadDep jobs b (d ∷ deps) here (k, e, bad) = rw (e, compute_from) (rw bad)
unreachable_of_BadDep jobs b (x ∷ deps) (there m) bad = elim (Option-cases (find job_key x jobs)) [
  | inl e ↦ rw (e, compute_from) (unreachable_of_BadDep jobs b deps m bad)
  | inr (k, e) ↦
      let rest = unreachable_of_BadDep jobs (b || not (is_done k.status)) deps m bad in
      rw (e, compute_from) (ground (arith, rest))
]
