-- ===== src/Eta/Queue.antt =====
-- QueueETA: the plan, and the same plan at the low and at the high durations for the ranges.
use hydra_umc_job_dispatcher.Common.{
  ℕ, Bool, true, false, ◌&&◌, ◌||◌, not, Option, none, some, List, [], ◌∷◌, ◌++◌, map, Text, ltt,
  sort_by, if◌then◌else◌,
}
use hydra_umc_job_dispatcher.Common.Int.{ℤ, pos, ltb_ℤ}
use hydra_umc_job_dispatcher.Common.Keyed.{find}
use hydra_umc_job_dispatcher.Time.{unix_milli}
use hydra_umc_job_dispatcher.Model.{Job, job_key}
use hydra_umc_job_dispatcher.Engine.{Engine}
use hydra_umc_job_dispatcher.Eta.{
  Basis, observed_tool, observed_all, by_default, EtaConfig, IntervalConfig, DurationModel,
  FloatOps, Tally, Tallies, tally_key, mean_of, tallies, duration_model, percentile,
}
use hydra_umc_job_dispatcher.Eta.Plan.{JobEta, Span, too_few_samples, no_history, eta_key, plan}

pub record ToolDuration : Type 0 where
  pub tool : Text
  pub samples : ℕ
  pub mean_ms : ℤ
  pub low_ms : ℤ
  pub high_ms : ℤ

pub record QueueEta : Type 0 where
  pub generated_at_ms : ℤ
  pub drain_ms : ℤ
  pub drain_low_ms : ℤ
  pub drain_high_ms : ℤ
  pub observed : List ToolDuration
  pub jobs : List JobEta

abbrev pub min_ℤ : ℤ → ℤ → ℤ
min_ℤ a b = if ltb_ℤ a b then a else b

abbrev pub max_ℤ : ℤ → ℤ → ℤ
max_ℤ a b = if ltb_ℤ b a then a else b

-- counts[tool] >= MinSamples
abbrev pub has_samples : IntervalConfig → List Tally → Text → Bool
has_samples c ts tool = elim (find tally_key tool ts) [
  | none ↦ not (ltb_ℤ (pos 0) c.min_samples)
  | some t ↦ not (ltb_ℤ (pos t.count) c.min_samples)
]

-- The range from the single value and the results of the two other plans.
unfoldable pub span_of : JobEta → JobEta → JobEta → Span
span_of r low high = record {
  start_low = min_ℤ low.start_ms r.start_ms;
  start_high = max_ℤ high.start_ms r.start_ms;
  end_low = min_ℤ low.end_ms r.end_ms;
  end_high = max_ℤ high.end_ms r.end_ms;
  duration_low = min_ℤ low.duration_ms r.duration_ms;
  duration_high = max_ℤ high.duration_ms r.duration_ms;
}

abbrev pub is_own_basis : Option Basis → Bool
is_own_basis none = false
is_own_basis (some observed_tool) = true
is_own_basis (some observed_all) = false
is_own_basis (some by_default) = false

abbrev pub if_estimated : Option JobEta → Option JobEta
if_estimated none = none
if_estimated (some r) = if r.estimated then some r else none

-- attachIntervalLocked
unfoldable pub attach_interval :
    IntervalConfig → List Tally → List Job → Option JobEta → Option JobEta → JobEta → JobEta
unfolding span_of
attach_interval c ts jobs low high r = elim (find job_key r.job_id jobs) [
  | none ↦ r
  | some job ↦
      if not (is_own_basis r.basis)
      then record r { interval_reason = some no_history }
      else if not (has_samples c ts job.required_tool)
      then record r { interval_reason = some too_few_samples }
      else elim (if_estimated low) [
        | none ↦ record r { interval_reason = some no_history }
        | some l ↦ elim (if_estimated high) [
          | none ↦ record r { interval_reason = some no_history }
          | some h ↦ record r { span = some (span_of r l h) }
        ]
      ]
]

-- The low or the high model: a percentile for the tools with enough history, else the mean.
unfoldable pub model_at :
    {F : Type 0} → FloatOps F → IntervalConfig → ℤ → Tallies → DurationModel → DurationModel
model_at fl c p t m = record m {
  by_tool =
      map
        (λ y. record {
          tool = y.tool;
          ms = if has_samples c t.tools y.tool then percentile fl y.window p else mean_of y;
        })
        t.tools;
}

unfoldable pub observed_tools :
    {F : Type 0} → FloatOps F → IntervalConfig → Tallies → List ToolDuration
observed_tools fl c t =
    sort_by (λ a b. ltt a.tool b.tool)
      (map
        (λ y. record {
          tool = y.tool;
          samples = y.count;
          mean_ms = mean_of y;
          low_ms =
              if c.enabled && has_samples c t.tools y.tool
              then percentile fl y.window c.low_percentile
              else pos 0;
          high_ms =
              if c.enabled && has_samples c t.tools y.tool
              then percentile fl y.window c.high_percentile
              else pos 0;
        })
        t.tools)

-- The ends of the range of the queue.
unfoldable pub drain_range : Option Span → QueueEta → QueueEta
drain_range none q = q
drain_range (some s) q = if not (ltb_ℤ (pos 0) s.end_low) then q else record q {
  drain_low_ms =
      if not (ltb_ℤ q.drain_low_ms (pos 0) || ltb_ℤ (pos 0) q.drain_low_ms)
        || ltb_ℤ q.drain_low_ms s.end_low
      then s.end_low
      else q.drain_low_ms;
  drain_high_ms = max_ℤ s.end_high q.drain_high_ms;
}

-- One round of the last loop of QueueETA, on the estimate with its range.
unfoldable pub collect_eta : JobEta → QueueEta → QueueEta
unfolding drain_range
collect_eta r q =
    let drained = if r.estimated then record q { drain_ms = max_ℤ r.end_ms q.drain_ms } else q in
    let ranged = if r.estimated then drain_range r.span drained else drained in
    record ranged { jobs = q.jobs ++ r ∷ [] }

unfoldable pub collect_etas : List JobEta → QueueEta → QueueEta
collect_etas [] q = q
collect_etas (r ∷ rs) q = collect_etas rs (collect_eta r q)

unfoldable pub in_plan_order : List Text → List JobEta → List JobEta
in_plan_order [] results = []
in_plan_order (id ∷ ids) results = elim (find eta_key id results) [
  | none ↦ in_plan_order ids results
  | some r ↦ r ∷ in_plan_order ids results
]

module _ {S F : Type 0} (fl : FloatOps F) (c : EtaConfig) (e : Engine S) where
  -- The results in the order of the plan, with their ranges.
  unfoldable pub ranged_etas : List JobEta
  ranged_etas =
      let t = tallies c e.jobs in
      let m = duration_model c t in
      let p = plan e m in
      let low = plan e (model_at fl c.interval c.interval.low_percentile t m) in
      let high = plan e (model_at fl c.interval c.interval.high_percentile t m) in
      map
        (λ r.
          if c.interval.enabled && r.estimated
          then attach_interval c.interval t.tools e.jobs (find eta_key r.job_id low.results)
              (find eta_key r.job_id high.results) r
          else r)
        (in_plan_order p.order p.results)

  -- QueueETA; `none` while the estimates are off
  unfoldable pub queue_eta : Option QueueEta
  queue_eta =
      let start : QueueEta = record {
        generated_at_ms = unix_milli e.now;
        drain_ms = pos 0;
        drain_low_ms = pos 0;
        drain_high_ms = pos 0;
        observed = observed_tools fl c.interval (tallies c e.jobs);
        jobs = [];
      } in
      if not c.enabled then none else some (collect_etas ranged_etas start)
