-- ===== src/Eta/Range.antt =====
-- The range of an estimate holds the single value, and the queue is drained after every estimate.
use hydra_umc_job_dispatcher.Common.{
  ◌≡◌, ◌⊎◌, refl, sym, subst, inl, inr, true, not, Option, none, some, List, [], ◌∷◌, ◌++◌, Elem,
  here, there, Elem-cons, Bool-cases, Option-cases, some_inj, arith, if◌then◌else◌,
}
use hydra_umc_job_dispatcher.Common.Int.{ℤ, pos, ltb_ℤ, ◌≤ℤ◌, le_ℤ_trans, le_ℤ_refl}
use hydra_umc_job_dispatcher.Common.Keyed.{find}
use hydra_umc_job_dispatcher.Model.{Job, job_key}
use hydra_umc_job_dispatcher.Engine.{Engine}
use hydra_umc_job_dispatcher.Eta.{EtaConfig, IntervalConfig, FloatOps, Tally}
use hydra_umc_job_dispatcher.Eta.Plan.{JobEta, Span}
use hydra_umc_job_dispatcher.Eta.Queue.{
  QueueEta, span_of, attach_interval, drain_range, collect_eta, collect_etas, queue_eta, max_ℤ,
  min_ℤ, ranged_etas, is_own_basis, has_samples, if_estimated,
}

-- The single values lie within the range.
abbrev pub Holds : JobEta → Span → Type 0
Holds r s =
    (s.start_low ≤ℤ r.start_ms)
    × (r.start_ms ≤ℤ s.start_high)
    × (s.end_low ≤ℤ r.end_ms)
    × (r.end_ms ≤ℤ s.end_high)
    × (s.duration_low ≤ℤ r.duration_ms)
    × (r.duration_ms ≤ℤ s.duration_high)

min_ℤ-le : (a b : ℤ) → min_ℤ a b ≤ℤ b
min_ℤ-le a b = ground arith

le-max_ℤ : (a b : ℤ) → b ≤ℤ max_ℤ a b
le-max_ℤ a b = ground arith

le-max_ℤ_left : (a b : ℤ) → a ≤ℤ max_ℤ a b
le-max_ℤ_left a b = ground arith

span_of-Holds : (r low high : JobEta) → Holds r (span_of r low high)
unfolding span_of
span_of-Holds r low high = (
  min_ℤ-le low.start_ms r.start_ms,
  le-max_ℤ high.start_ms r.start_ms,
  min_ℤ-le low.end_ms r.end_ms,
  le-max_ℤ high.end_ms r.end_ms,
  min_ℤ-le low.duration_ms r.duration_ms,
  le-max_ℤ high.duration_ms r.duration_ms,
)

collect_eta-jobs : (r : JobEta) (q : QueueEta) → (collect_eta r q).jobs ≡ q.jobs ++ r ∷ []
unfolding collect_eta
collect_eta-jobs r q = refl

Elem-append : {a : JobEta} (xs ys : List JobEta) → Elem a (xs ++ ys) → Elem a xs ⊎ Elem a ys
Elem-append [] ys m = inr m
Elem-append (x ∷ xs) ys m = elim (Elem-cons m) [
  | inl e ↦ inl (subst (λ z. Elem z (x ∷ xs)) (sym e) here)
  | inr k ↦ elim (Elem-append xs ys k) [ inl l ↦ inl (there l) | inr r ↦ inr r ]
]

-- Whatever the two other plans say, the range that an estimate without one is given holds its start,
-- its end and its duration.
pub attach_interval-Holds :
    (c : IntervalConfig) (ts : List Tally) (jobs : List Job) (low high : Option JobEta) (r : JobEta)
    (s : Span)
    → r.span ≡ none
    → (attach_interval c ts jobs low high r).span ≡ some s
    → Holds r s
unfolding attach_interval
attach_interval-Holds c ts jobs low high r s n h =
    elim (Option-cases (find job_key r.job_id jobs)) [
      | inl q ↦ absurd (no_span n (rw (q, attach_interval) at h))
      | inr (j, q) ↦ elim (Bool-cases (not (is_own_basis r.basis))) [
        | inl x ↦ absurd (no_span n (rw x at (rw (q, attach_interval) at h)))
        | inr x ↦ elim (Bool-cases (not (has_samples c ts j.required_tool))) [
          | inl y ↦ absurd (no_span n (rw (x, y) at (rw (q, attach_interval) at h)))
          | inr y ↦ elim (Option-cases (if_estimated low)) [
            | inl o ↦ absurd (no_span n (rw (x, y, o) at (rw (q, attach_interval) at h)))
            | inr (l, o) ↦ elim (Option-cases (if_estimated high)) [
              | inl z ↦ absurd (no_span n (rw (x, y, o, z) at (rw (q, attach_interval) at h)))
              | inr (u, z) ↦
                  subst (λ w. Holds r w)
                    (some_inj (rw (x, y, o, z) at (rw (q, attach_interval) at h)))
                    (span_of-Holds r l u)
            ]
          ]
        ]
      ]
    ]
  where
    no_span : {o : Option Span} → o ≡ none → o ≡ some s → ⊥
    no_span p q = cc

drain_range-drain_ms : (o : Option Span) (q : QueueEta) → (drain_range o q).drain_ms ≡ q.drain_ms
unfolding drain_range
drain_range-drain_ms none q = refl
drain_range-drain_ms (some s) q = elim (Bool-cases (not (ltb_ℤ (pos 0) s.end_low))) [
  | inl t ↦ rw t refl
  | inr t ↦ rw t refl
]

collect_eta-drain_ms :
    (r : JobEta) (q : QueueEta)
    → (collect_eta r q).drain_ms ≡ (if r.estimated then max_ℤ r.end_ms q.drain_ms else q.drain_ms)
unfolding collect_eta
collect_eta-drain_ms r q = elim (Bool-cases r.estimated) [
  | inl t ↦ rw t (drain_range-drain_ms r.span _)
  | inr t ↦ rw t refl
]

collect_eta_not_less : (r : JobEta) (q : QueueEta) → q.drain_ms ≤ℤ (collect_eta r q).drain_ms
collect_eta_not_less r q =
    subst (λ z. q.drain_ms ≤ℤ z) (sym (collect_eta-drain_ms r q))
      (elim (Bool-cases r.estimated) [
        | inl t ↦ rw t (le-max_ℤ r.end_ms q.drain_ms)
        | inr t ↦ rw t (le_ℤ_refl q.drain_ms)
      ])

collect_eta_own :
    (r : JobEta) (q : QueueEta) → r.estimated ≡ true → r.end_ms ≤ℤ (collect_eta r q).drain_ms
collect_eta_own r q t =
    subst (λ z. r.end_ms ≤ℤ z) (sym (collect_eta-drain_ms r q))
      (rw t (le-max_ℤ_left r.end_ms q.drain_ms))

-- What the loop has collected ends by the drain, if what it had did.
collect_etas_lem :
    (rs : List JobEta) (q : QueueEta)
    → ((r : JobEta) → Elem r q.jobs → r.estimated ≡ true → r.end_ms ≤ℤ q.drain_ms)
    → (r : JobEta) → Elem r (collect_etas rs q).jobs
    → r.estimated ≡ true
    → r.end_ms ≤ℤ (collect_etas rs q).drain_ms
unfolding collect_etas
collect_etas_lem [] q all = all
collect_etas_lem (x ∷ rs) q all = collect_etas_lem rs (collect_eta x q) (λ r m t.
    elim (Elem-append q.jobs (x ∷ []) (subst (λ z. Elem r z) (collect_eta-jobs x q) m)) [
      | inl k ↦
          le_ℤ_trans r.end_ms q.drain_ms (collect_eta x q).drain_ms (all r k t)
            (collect_eta_not_less x q)
      | inr k ↦ elim (Elem-cons k) [
        | inr l ↦ elim l [ ]
        | inl e ↦
            subst (λ z. z.end_ms ≤ℤ (collect_eta x q).drain_ms) (sym e)
              (collect_eta_own x q (subst (λ z. z.estimated ≡ true) e t))
      ]
    ])

-- The estimated end of every job in the answer of QueueETA is not after the time at which the queue is
-- drained.
pub queue_eta-drain_ms :
    {S F : Type 0} (fl : FloatOps F) (c : EtaConfig) (e : Engine S) (q : QueueEta) (r : JobEta)
    → queue_eta fl c e ≡ some q
    → Elem r q.jobs
    → r.estimated ≡ true
    → r.end_ms ≤ℤ q.drain_ms
unfolding queue_eta
queue_eta-drain_ms fl c e q r h m t = elim (Bool-cases (not c.enabled)) [
  | inl off ↦ absurd (none-some (rw off at h))
  | inr on ↦
      let same = some_inj (rw on at h) in
      subst (λ z. r.end_ms ≤ℤ z.drain_ms) same
        (collect_etas_lem (ranged_etas fl c e) _ (λ y n. elim n [ ]) r
          (subst (λ z. Elem r z.jobs) (sym same) m) t)
]
  where
    none-some : none ≡ some q → ⊥
    none-some p = cc
