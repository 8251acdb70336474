-- ===== src/Eta.antt =====
-- Estimated times of arrival (src/dispatcher/eta.go): the configuration, and how long a job is
-- expected to last. The field eta of the engine is read by nothing else, and is an argument here.
pub mod Plan
pub mod Queue
pub mod Range
pub mod Rounds
pub mod Ordered
pub mod Ends
use hydra_umc_job_dispatcher.Common.{
  ℕ, zero, suc, ◌+◌, ◌-◌, ◌/◌, Bool, true, false, ◌&&◌, not, Option, none, some, List, [], ◌∷◌,
  ◌++◌, map, Text, ltt, ltb, ◌==◌, length, select, sort_by, if◌then◌else◌,
}
use hydra_umc_job_dispatcher.Common.Int.{ℤ, pos, pos_part, neg_part, ltb_ℤ, sub_ℕ, ◌+ℤ◌}
use hydra_umc_job_dispatcher.Common.Keyed.{find, put}
use hydra_umc_job_dispatcher.Time.{Duration}
use hydra_umc_job_dispatcher.Model.{Job, JobStatus, is_done}

pub record IntervalConfig : Type 0 where
  pub enabled : Bool
  pub low_percentile : ℤ
  pub high_percentile : ℤ
  pub min_samples : ℤ

pub record EtaConfig : Type 0 where
  pub enabled : Bool
  pub default_duration : Duration
  pub window : ℤ
  pub interval : IntervalConfig

abbrev pub default_eta_window : ℤ
default_eta_window = pos 20

abbrev is_zero_ℤ : ℤ → Bool
is_zero_ℤ a = not (ltb_ℤ a (pos 0)) && not (ltb_ℤ (pos 0) a)

-- withDefaults: both percentiles, then the number of samples
unfoldable pub with_defaults : IntervalConfig → IntervalConfig
with_defaults c =
    let d =
      if is_zero_ℤ c.low_percentile && is_zero_ℤ c.high_percentile
      then record c { low_percentile = pos 25; high_percentile = pos 75 }
      else c in
    if is_zero_ℤ d.min_samples then record d { min_samples = pos 3 } else d

-- IntervalConfig.Valid
unfoldable pub is_valid : IntervalConfig → Bool
unfolding with_defaults
is_valid given =
    let c = with_defaults given in
    not (ltb_ℤ c.low_percentile (pos 0))
    && ltb_ℤ c.low_percentile c.high_percentile
    && not (ltb_ℤ (pos 100) c.high_percentile)
    && not (ltb_ℤ c.min_samples (pos 1))

abbrev interval_on : IntervalConfig
interval_on = record {
  enabled = true;
  low_percentile = pos 0;
  high_percentile = pos 0;
  min_samples = pos 0;
}

-- SetETA: what the engine keeps of a configuration. A duration is not negative here.
unfoldable pub set_eta : EtaConfig → EtaConfig
unfolding with_defaults is_valid
set_eta given =
    let c =
      if ltb_ℤ (pos 0) given.window then given else record given { window = default_eta_window } in
    let interval = with_defaults c.interval in
    if not c.interval.enabled
    then c
    else record c { interval = if is_valid interval then interval else with_defaults interval_on }

-- ETAEnabled
abbrev pub eta_enabled : EtaConfig → Bool
eta_enabled c = c.enabled

pub record DurationSample : Type 0 where
  pub tool : Text
  pub completed_at : ℤ
  pub ms : ℕ

-- The sum, the number and the durations that are counted of one tool.
pub record Tally : Type 0 where
  pub tool : Text
  pub sum : ℕ
  pub count : ℕ
  pub window : List ℕ

abbrev pub tally_key : Tally → Text
tally_key t = t.tool

pub record Tallies : Type 0 where
  pub tools : List Tally
  pub all_sum : ℕ
  pub all_count : ℕ

-- `j.CompletedAtMs - j.AssignedAtMs`, where the first is not below the second
abbrev pub lasted : Job → ℕ
lasted j =
    pos_part j.completed_at_ms
    + neg_part j.assigned_at_ms
    - (pos_part j.assigned_at_ms + neg_part j.completed_at_ms)

unfoldable pub is_observed : Job → Bool
is_observed j =
    is_done j.status
    && ltb_ℤ (pos 0) j.assigned_at_ms
    && not (ltb_ℤ j.completed_at_ms j.assigned_at_ms)

unfoldable pub duration_samples : List Job → List DurationSample
unfolding is_observed
duration_samples jobs =
    sort_by (λ a b. ltb_ℤ b.completed_at a.completed_at)
      (map (λ j. record { tool = j.required_tool; completed_at = j.completed_at_ms; ms = lasted j })
        (select is_observed jobs))

abbrev pub tally_of : Text → List Tally → Tally
tally_of tool ts = elim (find tally_key tool ts) [
  | none ↦ record { tool = tool; sum = 0; count = 0; window = [] }
  | some t ↦ t
]

-- One round of the loop over the samples.
unfoldable pub count_sample : ℤ → DurationSample → Tallies → Tallies
count_sample size s t =
    let own = tally_of s.tool t.tools in
    let t' =
      if ltb_ℤ (pos own.count) size
      then record t {
        tools =
            put tally_key
              (record own {
                sum = own.sum + s.ms;
                count = suc own.count;
                window = own.window ++ s.ms ∷ [];
              })
              t.tools;
      }
      else t in
    if ltb_ℤ (pos t.all_count) size
    then record t' { all_sum = t.all_sum + s.ms; all_count = suc t.all_count }
    else t'

unfoldable pub count_samples : ℤ → List DurationSample → Tallies → Tallies
count_samples size [] t = t
count_samples size (s ∷ ss) t = count_samples size ss (count_sample size s t)

-- The loops of durationModelLocked.
unfoldable pub tallies : EtaConfig → List Job → Tallies
unfolding count_samples
tallies c jobs =
    let size = if ltb_ℤ (pos 0) c.window then c.window else default_eta_window in
    count_samples size (duration_samples jobs) (record { tools = []; all_sum = 0; all_count = 0 })

pub record ToolMs : Type 0 where
  pub tool : Text
  pub ms : ℤ

abbrev pub tool_ms_key : ToolMs → Text
tool_ms_key t = t.tool

-- `sum[tool] / int64(n)`; a counted tool has a sample
abbrev pub mean_of : Tally → ℤ
mean_of t = pos (t.sum / t.count)

pub record DurationModel : Type 0 where
  pub by_tool : List ToolMs
  pub all : ℤ
  pub default : Duration

unfoldable pub duration_model : EtaConfig → Tallies → DurationModel
duration_model c t = record {
  by_tool = map (λ y. record { tool = y.tool; ms = mean_of y }) t.tools;
  all = if ltb 0 t.all_count then pos (t.all_sum / t.all_count) else pos 0;
  default = c.default_duration;
}

-- BasisObservedTool, BasisObservedAll, BasisDefault
pub data Basis : Type 0 where
  observed_tool observed_all by_default : Basis

-- forTool; `none` is the empty basis
unfoldable pub for_tool : DurationModel → Text → Option (ℤ × Basis)
for_tool m tool = elim (find tool_ms_key tool m.by_tool) [
  | some t ↦ some (t.ms, observed_tool)
  | none ↦
      if ltb_ℤ (pos 0) m.all
      then some (m.all, observed_all)
      else if ltb 0 m.default
      then some (pos (m.default / 1000000), by_default)
      else none
]

-- The arithmetic of float64 that the percentile takes: what the language gives.
pub record FloatOps (F : Type 0) : Type 0 where
  pub of_int : ℤ → F
  pub divide : F → F → F
  pub times : F → F → F
  pub minus : F → F → F
  pub to_int : F → ℤ

-- An index within the list.
unfoldable pub at_index : ℕ → List ℕ → ℕ
at_index n [] = 0
at_index zero (x ∷ xs) = x
at_index (suc n) (x ∷ xs) = at_index n xs

-- percentile, by linear interpolation. The arithmetic gives no negative index.
unfoldable pub percentile : {F : Type 0} → FloatOps F → List ℕ → ℤ → ℤ
percentile fl [] p = pos 0
percentile fl (v ∷ vs) p =
    let sorted = sort_by ltb (v ∷ vs) in
    let place =
      fl.times (fl.divide (fl.of_int p) (fl.of_int (pos 100))) (fl.of_int (pos (length vs))) in
    let lo = fl.to_int place in
    let low = at_index (pos_part lo) sorted in
    let high = at_index (suc (pos_part lo)) sorted in
    if not (ltb_ℤ lo (pos (length vs)))
    then pos (at_index (length vs) sorted)
    else pos low
      +ℤ fl.to_int (fl.times (fl.minus place (fl.of_int lo)) (fl.of_int (sub_ℕ high low)))
