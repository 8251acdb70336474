-- ===== src/Examples/Queue.antt =====
-- The verdicts at a queue of two jobs of which the first failed.
use hydra_umc_job_dispatcher.Common.{
  ◌≡◌, refl, sym, ◌∙◌, ap, subst, inl, inr, ◌<◌, length, true, false, some, List, [], ◌∷◌, Text,
  text_dec, ℕ_discrete, Elem, here, All, All-Elem, Elem-cons, if_neg, arith,
}
use hydra_umc_job_dispatcher.Common.Keyed.{find, update, find-update, find-key, Elem-find}
use hydra_umc_job_dispatcher.Model.{Job, JobStatus, job_key}
use hydra_umc_job_dispatcher.Engine.{Engine, new_engine}
use hydra_umc_job_dispatcher.Status.{
  compute_from, compute_status, is_waiting, set_status, refresh_blocked,
}
use hydra_umc_job_dispatcher.Status.Settled.{Ranked, Settled, Reverdict}
use hydra_umc_job_dispatcher.Model.{mem_text}
use hydra_umc_job_dispatcher.Graph.{count_deps, deps_of, depends_transitively}
use hydra_umc_job_dispatcher.Graph.Complete.{depends_transitively_of_Reach}
use hydra_umc_job_dispatcher.Graph.Reach.{Reach, stop, via, depends_transitively-Reach}
use hydra_umc_job_dispatcher.Status.Rank.{Closed, refresh_blocked-Settled}
use hydra_umc_job_dispatcher.Status.Unique.{refresh_blocked_unique}
use hydra_umc_job_dispatcher.Status.Verdict.{
  BadDep, compute_from_unreachable, unreachable_of_BadDep,
}
use hydra_umc_job_dispatcher.Examples.{ledger, weld, paint, job_of}

abbrev failed_weld : Job
failed_weld = record (job_of weld []) { status = JobStatus.failed }

abbrev queue : List Job
queue = failed_weld ∷ job_of paint (weld ∷ []) ∷ []

abbrev queued : Engine (List Text)
queued = record new_engine { jobs = queue; store = some [] }

-- The verdict that the paint job should have.
abbrev judged : List Job
judged = failed_weld ∷ record (job_of paint (weld ∷ [])) { status = JobStatus.unreachable } ∷ []

weld_only : (d : Text) → Elem d (weld ∷ []) → d ≡ weld
weld_only d m = elim (Elem-cons m) [ inl e ↦ e | inr k ↦ elim k [ ] ]

by_job :
    (js : List Job) (P : Job → Type 0)
    → All P js
    → (x : Text) (j : Job) → find job_key x js ≡ some j
    → P j
by_job js P all x j f = All-Elem P (Elem-find job_key x js f) all

queue-Ranked : Ranked length queue
queue-Ranked x d j f m =
    subst (λ z. length d < length z) (find-key job_key x queue f)
      (by_job queue (λ k. (d : Text) → Elem d k.depends_on → length d < length k.id)
        (
          λ d n. elim n [ ],
          (λ d n. subst (λ z. length z < 2) (sym (weld_only d n)) (omega arith), tt),
        )
        x j f d m)

queue-Closed : Closed queue
unfolding find text_dec ℕ_discrete
queue-Closed x d j f m =
    by_job queue
      (λ k. (d : Text) → Elem d k.depends_on → (k : Job) × (find job_key d queue ≡ some k))
      (
        λ d n. elim n [ ],
        (λ d n. (failed_weld, ap (λ z. find job_key z queue) (weld_only d n)), tt),
      )
      x j f d m

judged-Settled : Settled judged
unfolding find text_dec ℕ_discrete compute_status
judged-Settled x j f w =
    by_job judged (λ k. is_waiting k.status ≡ true → compute_status judged k ≡ k.status)
      (λ u. cc, (λ u. refl, tt)) x j f w

judged-Reverdict : Reverdict queue judged
unfolding find update text_dec ℕ_discrete
judged-Reverdict x =
    let e = find-update job_key x paint (set_status JobStatus.unreachable) queue (λ z. refl) in
    elim (text_dec paint x) [
      | yes p ↦ inr (
        job_of paint (weld ∷ []),
        JobStatus.unreachable,
        ap (λ z. find job_key z queue) (sym p),
        refl,
        refl,
        ap (λ z. find job_key z judged) (sym p),
      )
      | no p ↦ inl (e ∙ if_neg (text_dec paint x) p _ _)
    ]

refresh_blocked-Settled_example : Settled (refresh_blocked ledger queued).0.jobs
unfolding new_engine
refresh_blocked-Settled_example =
    refresh_blocked-Settled ledger queued length queue-Ranked queue-Closed

refresh_blocked_unique_example :
    find job_key paint (refresh_blocked ledger queued).0.jobs ≡ find job_key paint judged
unfolding new_engine
refresh_blocked_unique_example =
    refresh_blocked_unique ledger queued length judged queue-Ranked queue-Closed judged-Reverdict
      judged-Settled paint

weld-BadDep : BadDep queue weld
unfolding find text_dec ℕ_discrete
weld-BadDep = (failed_weld, refl, refl)

unreachable_of_BadDep_example : compute_from queue false (weld ∷ []) ≡ JobStatus.unreachable
unreachable_of_BadDep_example = unreachable_of_BadDep queue false (weld ∷ []) here weld-BadDep

compute_from_unreachable_example : (d : Text) × Elem d (weld ∷ []) × BadDep queue d
compute_from_unreachable_example =
    compute_from_unreachable queue false (weld ∷ []) unreachable_of_BadDep_example

paint_needs_weld : depends_transitively queue (paint ∷ []) weld ≡ true
unfolding depends_transitively deps_of count_deps mem_text find text_dec ℕ_discrete
paint_needs_weld = refl

depends_transitively-Reach_example : (id : Text) × Elem id (paint ∷ []) × Reach queue weld id
depends_transitively-Reach_example =
    depends_transitively-Reach queue weld (paint ∷ []) paint_needs_weld

depends_transitively_of_Reach_example : depends_transitively queue (paint ∷ []) weld ≡ true
unfolding deps_of find text_dec ℕ_discrete
depends_transitively_of_Reach_example =
    depends_transitively_of_Reach queue weld (paint ∷ []) paint here (via here stop)
