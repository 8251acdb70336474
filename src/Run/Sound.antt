-- ===== src/Run/Sound.antt =====
-- Every call is a sequence of steps of the life of a job, and what follows for a history of calls.
use hydra_umc_job_dispatcher.Common.{
  ◌≡◌, inl, inr, ℕ, ◌≤◌, ◌<◌, Bool, true, Option, some, List, [], ◌∷◌, Text, Elem, Option-cases,
  arith,
}
use hydra_umc_job_dispatcher.Common.Keyed.{find, Distinct}
use hydra_umc_job_dispatcher.Model.{Job, OnUnconfirmed, job_key, is_done}
use hydra_umc_job_dispatcher.Engine.{Engine, StoreOps, new_engine}
use hydra_umc_job_dispatcher.Tools.{confirm_tools}
use hydra_umc_job_dispatcher.Settings.{set_tool_confirmation}
use hydra_umc_job_dispatcher.Graph.{deps_of}
use hydra_umc_job_dispatcher.Graph.Reach.{Reach, stop, via}
use hydra_umc_job_dispatcher.Status.{refresh_blocked}
use hydra_umc_job_dispatcher.Status.Settled.{Settled, Ranked}
use hydra_umc_job_dispatcher.Status.Rank.{refresh_blocked-Settled}
use hydra_umc_job_dispatcher.Run.{
  Call, tick, tool_catalog, robot_freshness, replan, location_costs, archive_after, events,
  tool_confirmation, confirm, add, submit, upsert, update, remove, dispatch, complete, cancel,
  requeue, replan_robot_of, detect, acknowledge, archive, page, started, step, run,
}
use hydra_umc_job_dispatcher.Queries.{jobs_page_for}
use hydra_umc_job_dispatcher.Held.{jobs_held_by}
use hydra_umc_job_dispatcher.Lifecycle.{Steps, rest}
use hydra_umc_job_dispatcher.Lifecycle.Builders.{Steps-trans, then_same, Steps-Distinct}
use hydra_umc_job_dispatcher.Lifecycle.Sound.{IsSound, is_ready}
use hydra_umc_job_dispatcher.Lifecycle.Kept.{Steps-IsSound}
use hydra_umc_job_dispatcher.Lifecycle.Entering.{add_job-Steps, submit_job-Steps}
use hydra_umc_job_dispatcher.Lifecycle.Fleet.{
  upsert_robot-Steps, update_robot-Steps, remove_robot-Steps,
}
use hydra_umc_job_dispatcher.Lifecycle.Assigning.{dispatch_once-Steps}
use hydra_umc_job_dispatcher.Lifecycle.Ending.{complete_job_attempt-Steps, cancel_job-Steps}
use hydra_umc_job_dispatcher.Lifecycle.Returning.{requeue_job-Steps, replan_robot-Steps}
use hydra_umc_job_dispatcher.Lifecycle.Leaving.{archive_finished-Steps}
use hydra_umc_job_dispatcher.Lifecycle.Silence.{detect_stale-Steps, ack_stop-Steps}

module _ {S : Type 0} where
  confirm-jobs :
      (fetch : Text → Option Text) (e : Engine S) → (confirm_tools fetch e e).0.jobs ≡ e.jobs
  unfolding confirm_tools
  confirm-jobs fetch e = ground arith

  set_tool_confirmation-jobs :
      (enabled : Bool) (ttl : ℕ) (policy : OnUnconfirmed) (fetched : Bool) (e : Engine S)
      → (set_tool_confirmation enabled ttl policy fetched e).0.jobs ≡ e.jobs
  unfolding set_tool_confirmation
  set_tool_confirmation-jobs enabled ttl policy fetched e = ground arith

  started-IsSound : (s : Option S) → IsSound (started s).jobs
  unfolding started new_engine find
  started-IsSound s = record {
    closed = λ x d j f m. absurd (cc);
    ready = λ x j f t d k m g. absurd (cc);
    rank = λ x. 0;
    ranked = λ x d j f m. absurd (cc);
  }

  started-Distinct : (s : Option S) → Distinct job_key (started s).jobs
  unfolding started new_engine
  started-Distinct s = tt

module _ {S : Type 0} (ops : StoreOps S) where
  -- Whatever a call does, and whatever the store answers to its writes, the queue goes through steps
  -- of the abstract life of a job, if it holds each id once.
  pub step-Steps :
      (c : Call) (e : Engine S) → Distinct job_key e.jobs → Steps e.jobs (step ops c e).jobs
  unfolding step jobs_page_for jobs_held_by
  step-Steps (tick t) e d = rest
  step-Steps (tool_catalog c) e d = rest
  step-Steps (robot_freshness f) e d = rest
  step-Steps (replan c) e d = rest
  step-Steps (location_costs c) e d = rest
  step-Steps (archive_after t) e d = rest
  step-Steps (events h) e d = rest
  step-Steps (tool_confirmation enabled ttl policy fetched) e d =
      then_same rest (set_tool_confirmation-jobs enabled ttl policy fetched e)
  step-Steps (confirm fetch) e d = then_same rest (confirm-jobs fetch e)
  step-Steps (add j) e d = add_job-Steps ops j e rest
  step-Steps (submit j) e d = submit_job-Steps ops j e rest
  step-Steps (upsert r) e d = upsert_robot-Steps ops r e rest
  step-Steps (update u) e d = update_robot-Steps ops u e rest
  step-Steps (remove id) e d = remove_robot-Steps ops id e rest
  step-Steps dispatch e d = dispatch_once-Steps ops e d rest
  step-Steps (complete job_id success robot_id attempt) e d =
      complete_job_attempt-Steps ops e.jobs job_id success robot_id attempt e rest
  step-Steps (cancel job_id) e d = cancel_job-Steps ops e.jobs job_id e rest
  step-Steps (requeue job_id robot_id) e d = requeue_job-Steps ops job_id robot_id e rest
  step-Steps (replan_robot_of robot_id) e d = replan_robot-Steps ops robot_id e rest
  step-Steps (detect timeout) e d = detect_stale-Steps ops timeout e d rest
  step-Steps (acknowledge robot_id job_id) e d = ack_stop-Steps ops robot_id job_id e rest
  step-Steps archive e d = archive_finished-Steps ops e rest
  step-Steps (page robot status offset limit) e d = rest

  pub run-Steps :
      (cs : List Call) (e : Engine S) → Distinct job_key e.jobs → Steps e.jobs (run ops cs e).jobs
  unfolding run
  run-Steps [] e d = rest
  run-Steps (c ∷ cs) e d =
      let v = step-Steps c e d in Steps-trans v (run-Steps cs (step ops c e) (Steps-Distinct v d))

  pub history-IsSound : (s : Option S) (cs : List Call) → IsSound (run ops cs (started s)).jobs
  history-IsSound s cs =
      Steps-IsSound (run-Steps cs (started s) (started-Distinct s)) (started-IsSound s)

  -- After every history of calls on an engine that started empty, whatever the store answered to the
  -- writes, each dependency of a job that is pending, assigned, unknown or done is a job of the queue
  -- that is done.
  pub no_job_ahead :
      (s : Option S) (cs : List Call) (x d : Text) (j : Job)
      → find job_key x (run ops cs (started s)).jobs ≡ some j
      → is_ready j.status ≡ true
      → Elem d j.depends_on
      → (k : Job) × (find job_key d (run ops cs (started s)).jobs ≡ some k)
        × (is_done k.status ≡ true)
  no_job_ahead s cs x d j f t m =
      let v = history-IsSound s cs in
      let (k, g) = v.closed x d j f m in (k, g, v.ready x j f t d k m g)

module _ (rank : Text → ℕ) (jobs : List Job) (ranked : Ranked rank jobs) where
  deps_of-Ranked : (x d : Text) → Elem d (deps_of jobs x) → rank d < rank x
  unfolding deps_of
  deps_of-Ranked x d m = elim (Option-cases (find job_key x jobs)) [
    | inl q ↦ elim (rw (q, deps_of) at m) [ ]
    | inr (j, q) ↦ ranked x d j q (rw (q, deps_of) at m)
  ]

  Reach-Ranked : {x y : Text} → Reach jobs x y → rank x ≤ rank y
  Reach-Ranked stop = omega arith
  Reach-Ranked {x} {y} (via {d = d} m r) = omega (arith, deps_of-Ranked y d m, Reach-Ranked r)

module _ {S : Type 0} (ops : StoreOps S) where
  -- After every history of calls on an engine that started empty, whatever the store answered to the
  -- writes, no job depends on itself, directly or through other jobs.
  pub no_cycle :
      (s : Option S) (cs : List Call) (x d : Text)
      → Elem d (deps_of (run ops cs (started s)).jobs x)
      → ¬ Reach (run ops cs (started s)).jobs x d
  no_cycle s cs x d m = λ r.
      let v = history-IsSound ops s cs in
      let less = deps_of-Ranked v.rank _ v.ranked x d m in
      let more = Reach-Ranked v.rank _ v.ranked r in omega arith

  -- After every history of calls on an engine that started empty, refreshBlocked leaves every waiting
  -- job under the verdict that its dependencies give it.
  pub history_Settled :
      (s : Option S) (cs : List Call)
      → Settled (refresh_blocked ops (run ops cs (started s))).0.jobs
  history_Settled s cs =
      let v = history-IsSound ops s cs in
      refresh_blocked-Settled ops (run ops cs (started s)) v.rank v.ranked v.closed
