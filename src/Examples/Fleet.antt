-- ===== src/Examples/Fleet.antt =====
-- The scheduler's choice at a fleet of two robots.
use hydra_umc_job_dispatcher.Common.{
  ◌≡◌, refl, true, false, none, some, List, [], ◌∷◌, Text, text_dec, ℕ_discrete, ltt, here, there,
  select,
}
use hydra_umc_job_dispatcher.Model.{Job, Robot}
use hydra_umc_job_dispatcher.Engine.{Engine, new_engine}
use hydra_umc_job_dispatcher.Tools.{tool_confirmed}
use hydra_umc_job_dispatcher.Dispatch.{
  best_by, best_robot_for, robot_eligible, prefer, lighter, location_cost, in_location,
  not_heard_from,
}
use hydra_umc_job_dispatcher.Dispatch.Least.{
  best_robot_for-none, best_robot_for-nearest, best_robot_for-lightest,
}
use hydra_umc_job_dispatcher.Waiting.{wait_reason, its_turn}
use hydra_umc_job_dispatcher.Waiting.Turn.{picked_its_turn, its_turn_picked}
use hydra_umc_job_dispatcher.Examples.{weld, arm, job_of, robot_of}

abbrev yard : Text
yard = 121 ∷ []

abbrev dock : Text
dock = 100 ∷ []

abbrev at_dock : Robot
at_dock = record (robot_of arm 3) { location = dock }

abbrev at_yard : Robot
at_yard = record (robot_of (98 ∷ []) 0) { location = yard }

abbrev job : Job
job = record (job_of weld []) { location = dock }

-- The table on, with the yard at cost 5 from the dock, and the table off.
abbrev mapped : Engine (List Text)
mapped = record new_engine {
  robots = at_dock ∷ at_yard ∷ [];
  location = record {
    enabled = true;
    costs = record { start = yard; target = dock; cost = 5 } ∷ [];
  };
}

abbrev unmapped : Engine (List Text)
unmapped = record new_engine { robots = at_dock ∷ at_yard ∷ [] }

-- The only robot is taken.
abbrev busy : Engine (List Text)
busy = record new_engine { robots = record at_dock { available = false } ∷ [] }

mapped_pick : best_robot_for mapped job ≡ some at_dock
unfolding new_engine best_robot_for best_by select robot_eligible tool_confirmed not_heard_from
    prefer location_cost lighter in_location ltt text_dec ℕ_discrete
mapped_pick = refl

unmapped_pick : best_robot_for unmapped job ≡ some at_dock
unfolding new_engine best_robot_for best_by select robot_eligible tool_confirmed not_heard_from
    prefer location_cost lighter in_location ltt text_dec ℕ_discrete
unmapped_pick = refl

busy_pick : best_robot_for busy job ≡ none
unfolding new_engine best_robot_for best_by select robot_eligible tool_confirmed not_heard_from
    prefer location_cost lighter in_location ltt text_dec ℕ_discrete
busy_pick = refl

mapped_fit : robot_eligible mapped job at_yard ≡ true
unfolding new_engine robot_eligible tool_confirmed not_heard_from text_dec ℕ_discrete
mapped_fit = refl

unmapped_fit : robot_eligible unmapped job at_yard ≡ true
unfolding new_engine robot_eligible tool_confirmed not_heard_from text_dec ℕ_discrete
unmapped_fit = refl

best_robot_for-nearest_example : prefer mapped.location job at_yard at_dock ≡ false
unfolding new_engine
best_robot_for-nearest_example =
    best_robot_for-nearest mapped job refl mapped_pick at_yard (there here) mapped_fit

best_robot_for-lightest_example :
    (in_location job at_yard ≡ true → in_location job at_dock ≡ true)
    × (in_location job at_yard ≡ in_location job at_dock → lighter at_yard at_dock ≡ false)
unfolding new_engine
best_robot_for-lightest_example =
    best_robot_for-lightest unmapped job refl unmapped_pick at_yard (there here) unmapped_fit

best_robot_for-none_example : robot_eligible busy job (record at_dock { available = false }) ≡ false
unfolding new_engine
best_robot_for-none_example =
    best_robot_for-none busy job busy_pick (record at_dock { available = false }) here

picked_its_turn_example : wait_reason mapped job ≡ its_turn
picked_its_turn_example = picked_its_turn mapped job mapped_pick

its_turn_picked_example : (r : Robot) × (best_robot_for mapped job ≡ some r)
its_turn_picked_example = its_turn_picked mapped job picked_its_turn_example
