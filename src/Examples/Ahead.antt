-- ===== src/Examples/Ahead.antt =====
-- The estimates of a queue of two jobs, of which one waits for the other.
use hydra_umc_job_dispatcher.Common.{
  ◌≡◌, refl, true, false, none, some, List, [], ◌∷◌, Text, text_dec, ℕ_discrete, Elem, here, there,
  sort_by, select,
}
use hydra_umc_job_dispatcher.Common.Int.{ℤ, pos, ◌≤ℤ◌}
use hydra_umc_job_dispatcher.Common.Keyed.{find, put, update, Distinct}
use hydra_umc_job_dispatcher.Time.{unix_milli}
use hydra_umc_job_dispatcher.Model.{job_key, mem_text}
use hydra_umc_job_dispatcher.Engine.{Engine, new_engine}
use hydra_umc_job_dispatcher.Eta.{
  EtaConfig, DurationModel, FloatOps, for_tool, observed_all, observed_tool, by_default, tallies,
  duration_model, duration_samples, count_samples,
}
use hydra_umc_job_dispatcher.Eta.Plan.{
  JobEta, blank_eta, estimate, eta_key, plan, when_estimated, waiting_of, no_history, plan_passes,
  plan_pass, plan_job, settle, dep_ready, place, choose, is_better, begun, plan_assigned,
  add_result, add_results, free_robots, robot_heard_from,
}
use hydra_umc_job_dispatcher.Eta.Queue.{
  QueueEta, queue_eta, attach_interval, ranged_etas, collect_etas, collect_eta, in_plan_order,
  model_at,
}
use hydra_umc_job_dispatcher.Dispatch.{runs_before}
use hydra_umc_job_dispatcher.Eta.Ordered.{plan_ordered}
use hydra_umc_job_dispatcher.Eta.Ends.{plan_ends}
use hydra_umc_job_dispatcher.Eta.Range.{Holds, attach_interval-Holds, queue_eta-drain_ms}
use hydra_umc_job_dispatcher.Examples.{weld, paint, arm, job_of, robot_of}

abbrev ahead : Engine (List Text)
ahead = record new_engine {
  jobs = job_of weld [] ∷ job_of paint (weld ∷ []) ∷ [];
  robots = robot_of arm 0 ∷ [];
  now = 62135596800000000000;
}

abbrev seconds : DurationModel
seconds = record { by_tool = []; all = pos 1000; default = 0 }

abbrev whole : FloatOps ℤ
whole = record {
  of_int = λ a. a;
  divide = λ a b. a;
  times = λ a b. a;
  minus = λ a b. a;
  to_int = λ a. a;
}

abbrev config : EtaConfig
config = record {
  enabled = true;
  default_duration = 1000000000;
  window = pos 20;
  interval = record {
    enabled = true;
    low_percentile = pos 25;
    high_percentile = pos 75;
    min_samples = pos 3;
  };
}

abbrev painted : JobEta
painted =
    estimate arm (pos 1000) (pos 1000) observed_all
      (record (blank_eta (job_of paint (weld ∷ []))) { job_id = paint })

painted_planned : find eta_key paint (plan ahead seconds).results ≡ some painted
unfolding plan plan_passes plan_pass plan_job settle dep_ready place choose is_better begun
    plan_assigned add_result add_results free_robots robot_heard_from waiting_of for_tool new_engine
    find put update sort_by select runs_before mem_text unix_milli text_dec ℕ_discrete
painted_planned = refl

paint_waits : Elem (job_of paint (weld ∷ [])) (waiting_of ahead seconds ahead.jobs)
unfolding waiting_of sort_by select runs_before
paint_waits = there here

ahead-Distinct : Distinct job_key ahead.jobs
unfolding find text_dec ℕ_discrete
ahead-Distinct = (refl, (refl, tt))

weld_found : find job_key weld ahead.jobs ≡ some (job_of weld [])
unfolding find text_dec ℕ_discrete
weld_found = refl

plan_ordered_example :
    (end : ℤ) × (when_estimated (find eta_key weld (plan ahead seconds).results) ≡ some end)
    × (end ≤ℤ pos 1000)
plan_ordered_example =
    plan_ordered ahead seconds (job_of paint (weld ∷ [])) (job_of weld []) painted weld
      ahead-Distinct paint_waits painted_planned refl here weld_found refl

plan_ends_example : (plan ahead seconds).progress ≡ false
plan_ends_example = plan_ends ahead seconds

-- The estimate of a job of which the tool has enough history, with two plans that differ from it.
abbrev own : JobEta
own = estimate arm (pos 1000) (pos 1000) observed_tool (blank_eta (job_of weld []))

abbrev sooner : JobEta
sooner = estimate arm (pos 800) (pos 700) observed_tool (blank_eta (job_of weld []))

abbrev slower : JobEta
slower = estimate arm (pos 1200) (pos 1300) observed_tool (blank_eta (job_of weld []))

own_ranged :
    (attach_interval config.interval
      (record { tool = []; sum = 3000; count = 3; window = [] } ∷ [])
      ahead.jobs
      (some sooner)
      (some slower)
      own).span
    ≡ some (record {
      start_low = pos 800;
      start_high = pos 1200;
      end_low = pos 1500;
      end_high = pos 2500;
      duration_low = pos 700;
      duration_high = pos 1300;
    })
unfolding attach_interval find text_dec ℕ_discrete
own_ranged = refl

attach_interval-Holds_example : Holds own (record {
  start_low = pos 800;
  start_high = pos 1200;
  end_low = pos 1500;
  end_high = pos 2500;
  duration_low = pos 700;
  duration_high = pos 1300;
})
attach_interval-Holds_example =
    attach_interval-Holds config.interval
      (record { tool = []; sum = 3000; count = 3; window = [] } ∷ []) ahead.jobs (some sooner)
      (some slower) own _ refl own_ranged

abbrev answer : QueueEta
answer = elim (queue_eta whole config ahead) [
  | none ↦ record {
    generated_at_ms = pos 0;
    drain_ms = pos 0;
    drain_low_ms = pos 0;
    drain_high_ms = pos 0;
    observed = [];
    jobs = [];
  }
  | some q ↦ q
]

answer_given : queue_eta whole config ahead ≡ some answer
unfolding queue_eta
answer_given = refl

abbrev welded_answer : JobEta
welded_answer = record (estimate arm (pos 0) (pos 1000) by_default (blank_eta (job_of weld []))) {
  interval_reason = some no_history;
}

welded_listed : Elem welded_answer answer.jobs
unfolding plan plan_passes plan_pass plan_job settle dep_ready place choose is_better begun
    plan_assigned add_result add_results free_robots robot_heard_from waiting_of for_tool new_engine
    find put update sort_by select runs_before mem_text unix_milli text_dec ℕ_discrete queue_eta
    ranged_etas collect_etas collect_eta in_plan_order attach_interval tallies duration_model
    model_at duration_samples count_samples
welded_listed = here

queue_eta-drain_ms_example : welded_answer.end_ms ≤ℤ answer.drain_ms
queue_eta-drain_ms_example =
    queue_eta-drain_ms whole config ahead answer welded_answer answer_given welded_listed refl
