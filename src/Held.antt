-- ===== src/Held.antt =====
-- The index from robots to the jobs that name them (src/dispatcher/dispatcher.go:
-- noteAssignedLocked, jobsHeldByLocked, robotHasActiveAssignmentLocked; replan.go:
-- jobsOfRobotLocked). A set of ids is a list; an entry that no longer holds is pruned when read.
pub mod Index
use hydra_umc_job_dispatcher.Common.{
  Bool, true, false, ◌&&◌, ◌||◌, Option, none, some, List, [], ◌∷◌, Text, eqt, is_empty, ltb,
  if◌then◌else◌, select, sort_by, filter_some,
}
use hydra_umc_job_dispatcher.Common.Keyed.{find, put, delete}
use hydra_umc_job_dispatcher.Model.{
  Job, Holding, job_key, holding_key, add_text, is_assigned, is_unknown,
}
use hydra_umc_job_dispatcher.Engine.{Engine}

-- heldBy[robot], empty when the robot has no entry
unfoldable pub held_ids : Text → List Holding → List Text
held_ids robot_id held = elim (find holding_key robot_id held) [ none ↦ [] | some h ↦ h.job_ids ]

unfoldable pub note_held : Job → List Holding → List Holding
note_held j held =
    if is_empty j.assigned_robot
    then held
    else put holding_key
        (record {
          robot_id = j.assigned_robot;
          job_ids = add_text j.id (held_ids j.assigned_robot held);
        })
        held

-- `ok && j.AssignedRobot == robotID`
unfoldable pub still_held : List Job → Text → Text → Bool
still_held jobs robot_id id = elim (find job_key id jobs) [
  | none ↦ false
  | some j ↦ eqt j.assigned_robot robot_id
]

-- The set after the read, deleted when nothing is left of it (no set of the index is empty).
unfoldable pub prune_held : List Job → Text → List Holding → List Holding
prune_held jobs robot_id held = elim (select (still_held jobs robot_id) (held_ids robot_id held)) [
  | [] ↦ delete holding_key robot_id held
  | id ∷ ids ↦ put holding_key (record { robot_id = robot_id; job_ids = id ∷ ids }) held
]

unfoldable pub any_assigned : List Job → Bool
any_assigned [] = false
any_assigned (j ∷ js) = is_assigned j.status || any_assigned js

module _ {S : Type 0} where
  unfoldable pub note_assigned : Job → Engine S → Engine S
  note_assigned j e = record e { held_by = note_held j e.held_by }

  -- The jobs that name the robot, and the engine with its index pruned.
  unfoldable pub jobs_held_by : Text → Engine S → List Job × Engine S
  jobs_held_by robot_id e = (
    filter_some (λ id. find job_key id e.jobs)
        (select (still_held e.jobs robot_id) (held_ids robot_id e.held_by)),
    record e { held_by = prune_held e.jobs robot_id e.held_by },
  )

  unfoldable pub robot_has_active_assignment : Text → Engine S → Bool × Engine S
  robot_has_active_assignment robot_id e =
      let held = jobs_held_by robot_id e in (any_assigned held.0, held.1)

  -- The jobs assigned to a robot, and those of unknown outcome if asked for, in submission order.
  unfoldable pub jobs_of_robot : Text → Bool → Engine S → List Job × Engine S
  jobs_of_robot robot_id include_unknown e =
      let held = jobs_held_by robot_id e in
      (
        sort_by (λ a b. ltb a.seq b.seq)
            (select (λ j. is_assigned j.status || (include_unknown && is_unknown j.status)) held.0),
        held.1,
      )
