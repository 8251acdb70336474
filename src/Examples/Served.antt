-- ===== src/Examples/Served.antt =====
-- Requests over HTTP at the queue of the examples.
use hydra_umc_job_dispatcher.Common.{false, ◌≡◌, refl, true, some, List, [], ◌∷◌, none}
use hydra_umc_job_dispatcher.Common.{select, sort_by, ℕ_discrete, text_dec, is_blank}
use hydra_umc_job_dispatcher.Common.Int.{pos}
use hydra_umc_job_dispatcher.Common.Keyed.{find, put, update}
use hydra_umc_job_dispatcher.Model.{job_key, add_text}
use hydra_umc_job_dispatcher.Time.{unix_milli}
use hydra_umc_job_dispatcher.Engine.{
  new_engine, record_persist_outcome, emit, persist_job, persist_robot, persist_robot_at,
  persist_job_at, begin_batch, commit_batch,
}
use hydra_umc_job_dispatcher.Graph.{validate_dependency_shape}
use hydra_umc_job_dispatcher.Status.{
  compute_status, refresh_blocked, refresh_pass, refresh_visit, refresh_loop,
}
use hydra_umc_job_dispatcher.Held.{
  any_assigned, still_held, held_ids, note_held, note_assigned, robot_has_active_assignment,
  jobs_held_by,
}
use hydra_umc_job_dispatcher.Tools.{check_tool, tool_confirmed}
use hydra_umc_job_dispatcher.Dispatch.{
  lighter, best_by, in_location, runs_before, eligible_jobs, not_heard_from, robot_eligible,
  best_robot_for, give_job, dispatch_job, dispatch_jobs, dispatch_once,
}
use hydra_umc_job_dispatcher.Submit.{
  all_known, add_refusal, stored_job, insert_job, add_job_locked, add_job,
}
use hydra_umc_job_dispatcher.Registry.{save_current, upsert_robot_locked, upsert_robot}
use hydra_umc_job_dispatcher.Outcome.{
  complete_job_attempt, complete_check, complete_checked, release_robot,
}
use hydra_umc_job_dispatcher.Run.{started, step, run}
use hydra_umc_job_dispatcher.Common.{◌≡◌, refl, true, none, some, List, [], ◌∷◌, ◌≤◌, arith}
use hydra_umc_job_dispatcher.Common.Keyed.{find}
use hydra_umc_job_dispatcher.Model.{job_key}
use hydra_umc_job_dispatcher.Run.{run, started}
use hydra_umc_job_dispatcher.Api.{post_method, decoded}
use hydra_umc_job_dispatcher.Common.{◌⊎◌}
use hydra_umc_job_dispatcher.Api.{refuse}
use hydra_umc_job_dispatcher.Api.Entry.{Access, serve_routes}
use hydra_umc_job_dispatcher.Api.Admitted.{Admitted, serve_routes-Admitted}
use hydra_umc_job_dispatcher.Api.Routes.{
  Request, robots_route, cancel_route, complete_route, serve, serve_all,
}
use hydra_umc_job_dispatcher.Api.Refused.{serve-refused}
use hydra_umc_job_dispatcher.Api.Failing.{IsUntouched}
use hydra_umc_job_dispatcher.Api.Sound.{serve_all-one_job_per_robot}
use hydra_umc_job_dispatcher.Examples.{ledger, weld, arm, after, welding, history}
use hydra_umc_job_dispatcher.Model.{Robot, robot_key}
use hydra_umc_job_dispatcher.Api.Robots.{handle_robots, post_robot}
use hydra_umc_job_dispatcher.Outcome.{cancel_job, cancel_by_status}
use hydra_umc_job_dispatcher.Api.Jobs.{handle_cancel_job, post_cancel}

-- A robot without an id registers, which is refused.
abbrev arrivals : List Request
arrivals =
    robots_route post_method (
      decoded (record {
        id = [];
        location = none;
        tool = none;
        available = some true;
        stop_capable = none;
      }))
    ∷ []

given : find job_key weld (serve_all ledger arrivals after).jobs ≡ some welding
unfolding run step started new_engine add_job add_job_locked add_refusal is_blank
    validate_dependency_shape check_tool stored_job compute_status persist_job persist_robot
    persist_robot_at insert_job note_assigned note_held held_ids find put update upsert_robot
    upsert_robot_locked save_current record_persist_outcome dispatch_once eligible_jobs sort_by
    select dispatch_jobs dispatch_job best_robot_for robot_eligible tool_confirmed not_heard_from
    in_location best_by lighter give_job emit unix_milli add_text all_known runs_before text_dec
    ℕ_discrete serve serve_all handle_robots post_robot
given = refl

serve_all-one_job_per_robot_example :
    (welding.assigned_robot ≡ welding.assigned_robot → weld ≡ weld)
    × ((r : Robot) × (find robot_key arm (serve_all ledger arrivals after).robots ≡ some r)
        × (r.available ≡ false))
serve_all-one_job_per_robot_example =
    serve_all-one_job_per_robot ledger (some []) history arrivals weld weld welding welding refl
      given given refl refl

-- The report that a job is done
abbrev report : Request
report =
    complete_route post_method
      (decoded (record { id = weld; success = true; robot_id = arm; attempt = pos 1 }))

refused : 400 ≤ (serve ledger (cancel_route post_method (decoded weld)) after).1.status
unfolding run step started new_engine add_job add_job_locked add_refusal is_blank
    validate_dependency_shape check_tool stored_job compute_status persist_job persist_robot
    persist_robot_at insert_job note_assigned note_held held_ids find put update upsert_robot
    upsert_robot_locked save_current record_persist_outcome dispatch_once eligible_jobs sort_by
    select dispatch_jobs dispatch_job best_robot_for robot_eligible tool_confirmed not_heard_from
    in_location best_by lighter give_job emit unix_milli add_text all_known runs_before text_dec
    ℕ_discrete complete_job_attempt complete_check complete_checked release_robot persist_job_at
    begin_batch commit_batch robot_has_active_assignment jobs_held_by refresh_blocked refresh_pass
    any_assigned still_held refresh_visit refresh_loop serve handle_cancel_job post_cancel
    cancel_job cancel_by_status
refused = omega arith

-- A job that is assigned is not withdrawn.
serve-refused_example :
    IsUntouched (serve ledger (cancel_route post_method (decoded weld)) after).0 after
serve-refused_example = serve-refused ledger (cancel_route post_method (decoded weld)) after refused

-- A viewer of the fleet withdraws a job: its identity is verified, and only reads.
abbrev only_viewers : Access
only_viewers = record {
  token = [];
  verify =
      some (λ t. some (record { username = t; role = 118 ∷ 105 ∷ 101 ∷ 119 ∷ 101 ∷ 114 ∷ [] }));
}

serve_routes-Admitted_example :
    (Admitted only_viewers (some arm) (cancel_route post_method (decoded weld))
      × (serve_routes ledger only_viewers (some arm) (cancel_route post_method (decoded weld)) after
          ≡ serve ledger (cancel_route post_method (decoded weld)) after))
    ⊎ ((¬ Admitted only_viewers (some arm) (cancel_route post_method (decoded weld)))
        × (serve_routes ledger only_viewers
              (some arm)
              (cancel_route post_method (decoded weld))
              after
            ≡ (after, refuse 401)))
serve_routes-Admitted_example =
    serve_routes-Admitted ledger only_viewers (some arm) (cancel_route post_method (decoded weld))
      after
