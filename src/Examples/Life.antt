-- ===== src/Examples/Life.antt =====
-- The life of a job at a history in which the first of two jobs is completed.
use hydra_umc_job_dispatcher.Common.{
  ◌≡◌, refl, true, some, List, [], ◌∷◌, Text, Elem, here, subst, sym, none,
}
use hydra_umc_job_dispatcher.Common.{select, sort_by, ℕ_discrete, text_dec, is_blank}
use hydra_umc_job_dispatcher.Common.Int.{pos}
use hydra_umc_job_dispatcher.Common.Keyed.{find, put, update, Distinct}
use hydra_umc_job_dispatcher.Model.{Job, job_key, is_done, add_text}
use hydra_umc_job_dispatcher.Time.{unix_milli}
use hydra_umc_job_dispatcher.Engine.{
  Engine, new_engine, record_persist_outcome, emit, persist_job, persist_robot, persist_robot_at,
  persist_job_at, begin_batch, commit_batch,
}
use hydra_umc_job_dispatcher.Graph.{validate_dependency_shape, deps_of}
use hydra_umc_job_dispatcher.Graph.Reach.{Reach}
use hydra_umc_job_dispatcher.Status.{
  compute_status, refresh_blocked, refresh_pass, refresh_visit, refresh_loop,
}
use hydra_umc_job_dispatcher.Status.Settled.{Settled}
use hydra_umc_job_dispatcher.Held.{
  any_assigned, still_held, held_ids, note_held, note_assigned, robot_has_active_assignment,
  jobs_held_by,
}
use hydra_umc_job_dispatcher.Tools.{check_tool, tool_confirmed}
use hydra_umc_job_dispatcher.Dispatch.{
  lighter, best_by, in_location, runs_before, eligible_jobs, not_heard_from, robot_eligible,
  best_robot_for, give_job, dispatch_job, dispatch_jobs, dispatch_once,
}
use hydra_umc_job_dispatcher.Dispatch.Tighter.{IsExhausted}
use hydra_umc_job_dispatcher.Dispatch.Exhausted.{dispatch_once-IsExhausted}
use hydra_umc_job_dispatcher.Submit.{
  all_known, add_refusal, stored_job, insert_job, add_job_locked, add_job,
}
use hydra_umc_job_dispatcher.Registry.{save_current, upsert_robot_locked, upsert_robot}
use hydra_umc_job_dispatcher.Outcome.{
  complete_job_attempt, complete_check, complete_checked, release_robot,
}
use hydra_umc_job_dispatcher.Run.{Call, tick, add, upsert, complete, dispatch, started, step, run}
use hydra_umc_job_dispatcher.Run.Sound.{
  step-Steps, run-Steps, no_job_ahead, no_cycle, history_Settled,
}
use hydra_umc_job_dispatcher.Lifecycle.{Steps}
use hydra_umc_job_dispatcher.Lifecycle.Builders.{Steps-Distinct}
use hydra_umc_job_dispatcher.Examples.{ledger, weld, paint, arm, job_of, robot_of, history, after}

abbrev completed : List Call
completed =
    tick 63000000000000000000
    ∷ add (job_of weld [])
    ∷ upsert (robot_of arm 0)
    ∷ dispatch
    ∷ complete weld true arm 1
    ∷ add (job_of paint (weld ∷ []))
    ∷ []

abbrev ended : Engine (List Text)
ended = run ledger completed (started (some []))

abbrev painting : Job
painting = record (job_of paint (weld ∷ [])) { submitted_at_ms = pos 864403200000; seq = 2 }

painting_found : find job_key paint ended.jobs ≡ some painting
unfolding run step started new_engine add_job add_job_locked add_refusal is_blank
    validate_dependency_shape check_tool stored_job compute_status persist_job persist_robot
    persist_robot_at insert_job note_assigned note_held held_ids find put update upsert_robot
    upsert_robot_locked save_current record_persist_outcome dispatch_once eligible_jobs sort_by
    select dispatch_jobs dispatch_job best_robot_for robot_eligible tool_confirmed not_heard_from
    in_location best_by lighter give_job emit unix_milli add_text all_known runs_before text_dec
    ℕ_discrete complete_job_attempt complete_check complete_checked release_robot persist_job_at
    begin_batch commit_batch robot_has_active_assignment jobs_held_by refresh_blocked refresh_pass
    any_assigned still_held refresh_visit refresh_loop
painting_found = refl

no_job_ahead_example :
    (k : Job) × (find job_key weld ended.jobs ≡ some k) × (is_done k.status ≡ true)
no_job_ahead_example =
    no_job_ahead ledger (some []) completed paint weld painting painting_found refl here

pub after-Distinct : Distinct job_key after.jobs
unfolding started new_engine
after-Distinct = Steps-Distinct (run-Steps ledger history (started (some [])) tt) tt

step-Steps_example : Steps after.jobs (step ledger dispatch after).jobs
step-Steps_example = step-Steps ledger dispatch after after-Distinct

no_cycle_example : ¬ Reach ended.jobs paint weld
unfolding deps_of
no_cycle_example = no_cycle ledger (some []) completed paint weld (
    subst (λ o. Elem weld (elim o [ none ↦ [] | some d ↦ d.depends_on ])) (sym painting_found) here)

history_Settled_example : Settled (refresh_blocked ledger ended).0.jobs
history_Settled_example = history_Settled ledger (some []) completed

-- One robot, and two jobs that it could do.
abbrev crowded : Engine (List Text)
crowded = record new_engine {
  jobs = job_of weld [] ∷ job_of paint [] ∷ [];
  robots = robot_of arm 0 ∷ [];
  store = some [];
}

crowded-Distinct : Distinct job_key crowded.jobs
unfolding find text_dec ℕ_discrete
crowded-Distinct = (refl, (refl, tt))

paint_left : find job_key paint (dispatch_once ledger crowded).0.jobs ≡ some (job_of paint [])
unfolding new_engine persist_job persist_robot note_assigned note_held held_ids find put update
    record_persist_outcome dispatch_once eligible_jobs sort_by select dispatch_jobs dispatch_job
    best_robot_for robot_eligible tool_confirmed not_heard_from in_location best_by lighter give_job
    emit unix_milli add_text runs_before text_dec ℕ_discrete
paint_left = refl

dispatch_once-IsExhausted_example : IsExhausted (dispatch_once ledger crowded).0 (job_of paint [])
dispatch_once-IsExhausted_example =
    dispatch_once-IsExhausted ledger crowded paint (job_of paint [])
      (record { jobs_taken = λ s j. refl; robots_taken = λ s r. refl }) crowded-Distinct paint_left
      refl
