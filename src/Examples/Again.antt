-- ===== src/Examples/Again.antt =====
-- A start over what a history has left behind.
use mathlib.Core.Option
use hydra_umc_job_dispatcher.Common.{
  ◌≡◌, ◌<◌, refl, true, some, List, [], ◌∷◌, map, Text, text_dec, ℕ_discrete,
}
use hydra_umc_job_dispatcher.Common.Keyed.{find, put, Distinct}
use hydra_umc_job_dispatcher.Model.{Job, job_key, robot_key}
use hydra_umc_job_dispatcher.Engine.{Engine, new_engine}
use hydra_umc_job_dispatcher.Held.{note_assigned}
use hydra_umc_job_dispatcher.Submit.{stored_job}
use hydra_umc_job_dispatcher.Reservation.{Reserved, Exclusive}
use hydra_umc_job_dispatcher.Run.{dispatch, complete, started, run}
use hydra_umc_job_dispatcher.Run.Reserved.{started-IsReserved, run-IsReserved}
use hydra_umc_job_dispatcher.Status.Rank.{Closed}
use hydra_umc_job_dispatcher.Lifecycle.Sound.{is_ready, DepsDone}
use hydra_umc_job_dispatcher.Restart.{
  record_of, scanned_robot, load_job, load_jobs, load_robots, loaded,
}
use hydra_umc_job_dispatcher.Restart.Loaded.{saved_job, loaded-find}
use hydra_umc_job_dispatcher.Restart.Resumed.{resumed_invariants}
use hydra_umc_job_dispatcher.Restart.Order.{loaded_seq}
use hydra_umc_job_dispatcher.Examples.{ledger, weld, paint, arm, job_of, history, after, welding}
use hydra_umc_job_dispatcher.Examples.Life.{after-Distinct}

abbrev restarted : Engine (List Text)
restarted = loaded (map saved_job after.jobs) (map scanned_robot after.robots) []

robots-Distinct : Distinct robot_key after.robots
robots-Distinct =
    (run-IsReserved ledger history (started (some [])) refl (started-IsReserved (some []))).distinct

loaded-find_example :
    (find job_key weld restarted.jobs ≡ find job_key weld after.jobs)
    × (find robot_key weld restarted.robots
        ≡ Option.map scanned_robot (find robot_key weld after.robots))
loaded-find_example = loaded-find after.jobs after.robots [] weld after-Distinct robots-Distinct

-- The restarted engine, after the report of the job and a pass.
abbrev resumed : Engine (List Text)
resumed = run ledger (complete weld true arm 1 ∷ dispatch ∷ []) restarted

resumed_invariants_example :
    Reserved resumed.jobs resumed.robots
    × Exclusive resumed.jobs
    × Closed resumed.jobs
    × ((x : Text) (j : Job)
        → find job_key x resumed.jobs ≡ some j
        → is_ready j.status ≡ true
        → DepsDone resumed.jobs j.depends_on)
resumed_invariants_example =
    resumed_invariants ledger (some []) history after.jobs after.robots []
      (complete weld true arm 1 ∷ dispatch ∷ []) refl refl after-Distinct robots-Distinct
      (λ x. refl) (λ x. refl)

abbrev small : Engine (List Text)
small = loaded (record_of welding ∷ []) [] []

loaded_seq_example : 1 < (stored_job (job_of paint []) small).seq
unfolding loaded load_jobs load_robots load_job note_assigned new_engine find put text_dec
    ℕ_discrete
loaded_seq_example = loaded_seq (record_of welding ∷ []) [] [] weld welding (job_of paint []) refl
