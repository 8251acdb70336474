-- ===== src/Examples/History.antt =====
-- The invariants of a history at a short one: two jobs, one robot, and a dispatch pass.
use hydra_umc_job_dispatcher.Common.{ℕ, ◌≡◌, refl, true, false, some, List, [], ◌∷◌, Text, Elem}
use hydra_umc_job_dispatcher.Common.Keyed.{find}
use hydra_umc_job_dispatcher.Model.{Robot, job_key, robot_key, is_in_flight}
use hydra_umc_job_dispatcher.Engine.{Engine, new_engine}
use hydra_umc_job_dispatcher.Run.{started, run}
use hydra_umc_job_dispatcher.Graph.{validate_dependency_shape}
use hydra_umc_job_dispatcher.Dispatch.{
  lighter, best_by, in_location, runs_before, eligible_jobs, not_heard_from, robot_eligible,
  best_robot_for, give_job, dispatch_job, dispatch_jobs, dispatch_once,
}
use hydra_umc_job_dispatcher.Held.{held_ids, note_held, note_assigned}
use hydra_umc_job_dispatcher.Submit.{
  all_known, add_refusal, stored_job, insert_job, add_job_locked, add_job,
}
use hydra_umc_job_dispatcher.Model.{add_text}
use hydra_umc_job_dispatcher.Time.{unix_milli}
use hydra_umc_job_dispatcher.Run.{step}
use hydra_umc_job_dispatcher.Status.{compute_status}
use hydra_umc_job_dispatcher.Engine.{
  new_engine, record_persist_outcome, emit, persist_job, persist_robot, persist_robot_at,
}
use hydra_umc_job_dispatcher.Tools.{check_tool, tool_confirmed}
use hydra_umc_job_dispatcher.Registry.{save_current, upsert_robot_locked, upsert_robot}
use hydra_umc_job_dispatcher.Common.Keyed.{find, put, update}
use hydra_umc_job_dispatcher.Common.{select, sort_by}
use hydra_umc_job_dispatcher.Common.{ℕ_discrete, text_dec, is_blank}
use hydra_umc_job_dispatcher.Run.Reserved.{
  started-IsReserved, run-IsReserved, one_job_per_robot, assigned_robot_taken,
}
use hydra_umc_job_dispatcher.Held.{jobs_held_by}
use hydra_umc_job_dispatcher.Held.Index.{jobs_held_by_complete, jobs_held_by_sound}
use hydra_umc_job_dispatcher.Reservation.{IsReserved}
use hydra_umc_job_dispatcher.Common.{◌⊎◌}
use hydra_umc_job_dispatcher.Model.{ok}
use hydra_umc_job_dispatcher.Outcome.{complete_check}
use hydra_umc_job_dispatcher.Reservation.Ending.{complete_check_ok}
use hydra_umc_job_dispatcher.Examples.{robot_of, ledger, weld, arm, welding, history, after}

weld_given : find job_key weld after.jobs ≡ some welding
unfolding run step started new_engine add_job add_job_locked add_refusal is_blank
    validate_dependency_shape check_tool stored_job compute_status persist_job persist_robot
    persist_robot_at insert_job note_assigned note_held held_ids find put update upsert_robot
    upsert_robot_locked save_current record_persist_outcome dispatch_once eligible_jobs sort_by
    select dispatch_jobs dispatch_job best_robot_for robot_eligible tool_confirmed not_heard_from
    in_location best_by lighter give_job emit unix_milli add_text all_known runs_before text_dec
    ℕ_discrete
weld_given = refl

one_job_per_robot_example : weld ≡ weld
one_job_per_robot_example =
    one_job_per_robot ledger (some []) history weld weld welding welding refl weld_given weld_given
      refl refl refl

assigned_robot_taken_example :
    (r : Robot) × (find robot_key arm after.robots ≡ some r) × (r.available ≡ false)
assigned_robot_taken_example =
    assigned_robot_taken ledger (some []) history weld welding refl weld_given refl

after-IsReserved : IsReserved after.jobs after.robots after.held_by
after-IsReserved =
    run-IsReserved ledger history (started (some [])) refl (started-IsReserved (some []))

jobs_held_by_complete_example : Elem welding (jobs_held_by arm after).0
jobs_held_by_complete_example =
    jobs_held_by_complete after arm weld welding after-IsReserved.indexed refl weld_given refl

jobs_held_by_sound_example :
    (x : Text) × (find job_key x after.jobs ≡ some welding) × (welding.assigned_robot ≡ arm)
jobs_held_by_sound_example = jobs_held_by_sound after arm welding jobs_held_by_complete_example

-- An engine with the job in flight.
abbrev running : Engine (List Text)
running = record new_engine {
  jobs = welding ∷ [];
  robots = record (robot_of arm 0) { available = false } ∷ [];
}

running_checked :
    complete_check weld arm 1 running ≡ ok (welding, record (robot_of arm 0) { available = false })
unfolding complete_check new_engine find text_dec ℕ_discrete
running_checked = refl

complete_check_ok_example :
    (find job_key weld running.jobs ≡ some welding)
    × (is_in_flight welding.status ≡ true)
    × (welding.assigned_robot ≡ arm)
    × ((◌≡◌ {A = ℕ} 1 0) ⊎ (1 ≡ welding.attempt))
    × (find robot_key welding.assigned_robot running.robots
        ≡ some (record (robot_of arm 0) { available = false }))
complete_check_ok_example =
    complete_check_ok weld arm 1 running welding (record (robot_of arm 0) { available = false })
      running_checked
