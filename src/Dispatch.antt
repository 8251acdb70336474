-- ===== src/Dispatch.antt =====
-- The scheduler (src/dispatcher/dispatcher.go: robotEligibleLocked, bestRobotFor, DispatchOnce;
-- src/dispatcher/location.go: cost, preferLocked; src/dispatcher/waiting.go).
pub mod Best
pub mod Least
pub mod Tighter
pub mod Exhausted
use hydra_umc_job_dispatcher.Common.{
  ℕ, ◌+◌, ◌-◌, Bool, true, false, ◌&&◌, ◌||◌, not, Option, none, some, List, [], ◌∷◌, ◌++◌, map,
  Text, eqt, ltt, is_empty, ltb, ◌==◌, length, if◌then◌else◌, select, sort_by,
}
use hydra_umc_job_dispatcher.Common.Int.{ℤ, ltb_ℤ}
use hydra_umc_job_dispatcher.Common.Keyed.{find, update}
use hydra_umc_job_dispatcher.Time.{Instant, is_zero, heartbeat_from_future, unix_milli}
use hydra_umc_job_dispatcher.Events.{EventType}
use hydra_umc_job_dispatcher.Model.{
  Job, JobStatus, Robot, Error, Assignment, CostEntry, LocationConfig, job_key, robot_key,
  is_pending,
}
use hydra_umc_job_dispatcher.Engine.{
  Engine, StoreOps, persist_job, persist_robot, record_persist_outcome, emit,
}
use hydra_umc_job_dispatcher.Status.{keep_last}
use hydra_umc_job_dispatcher.Held.{note_assigned}
use hydra_umc_job_dispatcher.Tools.{tool_confirmed}

-- Costs[a][b]
declared_cost : Text → Text → List CostEntry → Option ℕ
declared_cost a b [] = none
declared_cost a b (c ∷ cs) =
    if eqt c.start a && eqt c.target b then some c.cost else declared_cost a b cs

-- LocationConfig.cost: the table is read both ways.
unfoldable pub location_cost : LocationConfig → Text → Text → Option ℕ
unfolding declared_cost
location_cost c a b =
    if eqt a b
    then some 0
    else elim (declared_cost a b c.costs) [ some v ↦ some v | none ↦ declared_cost b a c.costs ]

-- `r.Load < than.Load || (r.Load == than.Load && r.ID < than.ID)`
unfoldable pub lighter : Robot → Robot → Bool
lighter r than = ltb r.load than.load || (r.load == than.load && ltt r.id than.id)

-- The lower known cost wins, and an unknown cost loses to a known one.
unfoldable pub closer : Option ℕ → Option ℕ → Robot → Robot → Bool
closer none none r than = lighter r than
closer none (some ct) r than = false
closer (some cr) none r than = true
closer (some cr) (some ct) r than = if cr == ct then lighter r than else ltb cr ct

-- preferLocked for `than != nil`.
unfoldable pub prefer : LocationConfig → Job → Robot → Robot → Bool
unfolding closer
prefer c j r than =
    if c.enabled && not (is_empty j.location)
    then closer (location_cost c j.location r.location) (location_cost c j.location than.location) r
        than
    else lighter r than

-- The loop that keeps the best robot seen so far; `better r none` holds.
unfoldable pub best_by : (Robot → Robot → Bool) → Option Robot → List Robot → Option Robot
best_by better best [] = best
best_by better none (r ∷ rs) = best_by better (some r) rs
best_by better (some b) (r ∷ rs) = best_by better (some (if better r b then r else b)) rs

-- `j.Location != "" && r.Location == j.Location`
unfoldable pub in_location : Job → Robot → Bool
in_location j r = not (is_empty j.location) && eqt r.location j.location

-- `if bestInLocation != nil { return bestInLocation }; return best`
abbrev pub or_else : Option Robot → Option Robot → Option Robot
or_else (some r) o = some r
or_else none o = o

-- The dispatch order: the higher priority, then the older submission.
unfoldable pub runs_before : Job → Job → Bool
runs_before a b =
    if ltb_ℤ b.priority a.priority
    then true
    else if ltb_ℤ a.priority b.priority
    then false
    else ltb a.seq b.seq

unfoldable pub eligible_jobs : List Job → List Job
eligible_jobs jobs = sort_by runs_before (select (λ j. is_pending j.status) jobs)

module _ {S : Type 0} where
  -- The freshness test: on, and the robot never seen, seen in the future, or silent for too long.
  unfoldable pub not_heard_from : Engine S → Robot → Bool
  not_heard_from e r =
      ltb 0 e.robot_freshness
      && (is_zero r.last_heartbeat
          || heartbeat_from_future e.now r.last_heartbeat
          || ltb (r.last_heartbeat + e.robot_freshness) e.now)

  unfoldable pub robot_eligible : Engine S → Job → Robot → Bool
  robot_eligible e j r =
      if not r.available
      then false
      else if not (is_empty j.required_tool) && not (eqt r.tool j.required_tool)
      then false
      else if not (tool_confirmed e.tool_check r j e.now)
      then false
      else if not_heard_from e r
      then false
      else true

  -- bestRobotFor
  unfoldable pub best_robot_for : Engine S → Job → Option Robot
  best_robot_for e j =
      let eligible = select (robot_eligible e j) e.robots in
      if e.location.enabled && not (is_empty j.location)
      then best_by (prefer e.location j) none eligible
      else or_else (best_by lighter none (select (in_location j) eligible))
          (best_by lighter none eligible)

-- The variables of DispatchOnce.
pub record Pass (S : Type 0) : Type 0 where
  pub engine : Engine S
  pub assignments : List Assignment
  pub persisted : Bool
  pub persist_err : Option Error

abbrev pub set_available : Bool → Robot → Robot
set_available b r = record r { available = b }

abbrev pub give_to : Text → ℤ → Job → Job
give_to robot_id at j = record j {
  status = JobStatus.assigned;
  assigned_robot = robot_id;
  attempt = j.attempt + 1;
  assigned_at_ms = at;
}

-- `j.Status = StatusPending; j.AssignedRobot = ""; j.Attempt--; j.AssignedAtMs = prevAssignedAt`
abbrev pub take_back : ℤ → Job → Job
take_back before j = record j {
  status = JobStatus.pending;
  assigned_robot = [];
  attempt = j.attempt - 1;
  assigned_at_ms = before;
}

module _ {S : Type 0} (ops : StoreOps S) where
  -- The job was not written: everything this round changed in memory goes back, and the robot is
  -- written again.
  unfoldable pub roll_back : Job → Robot → Option Error → Engine S → Pass S → Pass S
  roll_back j r job_err e p =
      let e' = record e {
        jobs = update job_key j.id (take_back j.assigned_at_ms) e.jobs;
        robots = update robot_key r.id (set_available r.available) e.robots;
      } in
      let w = persist_robot ops r e' in
      record p {
        engine = w.0;
        persisted = true;
        persist_err = keep_last w.1 (keep_last job_err p.persist_err);
      }

  -- The robot was written: the job is given to it, and counts once it has been written too.
  unfoldable pub give_job : Job → Robot → Engine S → Pass S → Pass S
  give_job j r e p =
      let given = give_to r.id (unix_milli e.now) j in
      let e' =
        note_assigned given
          (record e { jobs = update job_key j.id (give_to r.id (unix_milli e.now)) e.jobs }) in
      let w = persist_job ops given e' in
      elim w.1 [
        | some x ↦ roll_back j r (some x) w.0 p
        | none ↦ record p {
          engine = emit EventType.assigned given w.0;
          assignments = p.assignments ++ record { job_id = j.id; robot_id = r.id } ∷ [];
          persisted = true;
        }
      ]

  -- The body of the loop, on the job as it stands in the queue.
  unfoldable pub dispatch_job : Job → Pass S → Pass S
  dispatch_job j p = elim (best_robot_for p.engine j) [
    | none ↦ p
    | some r ↦
        let e = record p.engine {
          robots = update robot_key r.id (set_available false) p.engine.robots;
        } in
        let w = persist_robot ops (set_available false r) e in
        elim w.1 [
          | some x ↦ record p {
            engine = record w.0 {
              robots = update robot_key r.id (set_available r.available) w.0.robots;
            };
            persisted = true;
            persist_err = some x;
          }
          | none ↦ give_job j r w.0 p
        ]
  ]

  unfoldable pub dispatch_jobs : List Job → Pass S → Pass S
  dispatch_jobs [] p = p
  dispatch_jobs (j ∷ js) p = dispatch_jobs js (dispatch_job j p)

  -- DispatchOnce
  unfoldable pub dispatch_once : Engine S → Engine S × List Assignment
  dispatch_once e =
      let p =
        dispatch_jobs (eligible_jobs e.jobs)
          (record { engine = e; assignments = []; persisted = false; persist_err = none }) in
      (
        if p.persisted then record_persist_outcome (p.persist_err ∷ []) p.engine else p.engine,
        p.assignments,
      )
