-- ===== src/Registry.antt =====
-- The robot registry (src/dispatcher/dispatcher.go: upsertRobotLocked, UpsertRobot, UpdateRobot,
-- RemoveRobot).
use hydra_umc_job_dispatcher.Common.{
  Bool, true, false, ◌&&◌, ◌||◌, not, Option, none, some, List, [], ◌∷◌, map, Text, if◌then◌else◌,
}
use hydra_umc_job_dispatcher.Common.Keyed.{find, put, update, delete}
use hydra_umc_job_dispatcher.Time.{Instant}
use hydra_umc_job_dispatcher.Model.{
  Job, Robot, Result, ok, err, unknown_robot, robot_busy, job_key, robot_key, is_in_flight,
}
use hydra_umc_job_dispatcher.Engine.{Engine, StoreOps, persist_robot_at, record_persist_outcome}
use hydra_umc_job_dispatcher.Held.{jobs_held_by, jobs_of_robot, robot_has_active_assignment}
use hydra_umc_job_dispatcher.Tools.{check_tool}
use hydra_umc_job_dispatcher.Requeue.{requeue_all}

-- RobotUpdate: an absent field keeps what the registry holds.
pub record RobotUpdate : Type 0 where
  pub id : Text
  pub location : Option Text
  pub tool : Option Text
  pub available : Option Bool
  pub stop_capable : Option Bool

abbrev pub given_or : {A : Type 0} → Option A → A → A
given_or none a = a
given_or (some b) a = b

abbrev pub is_given : {A : Type 0} → Option A → Bool
is_given none = false
is_given (some a) = true

-- the fields that every heartbeat writes
abbrev pub heartbeat : Robot → Instant → Robot → Robot
heartbeat r now existing = record existing {
  location = r.location;
  tool = r.tool;
  stop_capable = r.stop_capable;
  last_heartbeat = now;
}

abbrev pub declare : Bool → Robot → Robot
declare available existing = record existing {
  available = available;
  self_reported_unavailable = not available;
}

abbrev pub note_fault : Robot → Robot
note_fault existing = record existing { self_reported_unavailable = true }

-- `r := Robot{ID: u.ID}`, and what the registry holds
abbrev pub known_part : Text → Option Robot → Robot
known_part id none = record {
  id = id;
  location = [];
  tool = [];
  available = false;
  load = 0;
  stop_capable = false;
  self_reported_unavailable = false;
  last_heartbeat = 0;
}
known_part id (some existing) = record {
  id = id;
  location = existing.location;
  tool = existing.tool;
  available = false;
  load = 0;
  stop_capable = existing.stop_capable;
  self_reported_unavailable = false;
  last_heartbeat = 0;
}

unfoldable pub any_in_flight : List Job → Bool
any_in_flight [] = false
any_in_flight (j ∷ js) = is_in_flight j.status || any_in_flight js

module _ {S : Type 0} where
  abbrev pub drop_robot : Text → Engine S → Engine S
  drop_robot id e = record e { robots = delete robot_key id e.robots }

module _ {S : Type 0} (ops : StoreOps S) where
  -- A robot that faults in the middle of its job.
  unfoldable pub fault : Text → Engine S → Engine S
  fault robot_id e =
      let noted = record e { robots = update robot_key robot_id note_fault e.robots } in
      let jobs = jobs_of_robot robot_id false noted in
      if e.replan.enabled && e.replan.on_fault
      then (requeue_all ops (map job_key jobs.0) [] jobs.1).0
      else noted

  -- The cascade on availability for a robot that is registered.
  unfoldable pub availability : Robot → Bool → Engine S → Engine S
  availability r given e =
      let active = robot_has_active_assignment r.id e in
      if not given
      then e
      else if not active.0
      then record active.1 { robots = update robot_key r.id (declare r.available) active.1.robots }
      else if not r.available
      then fault r.id active.1
      else active.1

  -- persistRobotLocked of the robot as the registry holds it, and its outcome
  unfoldable pub save_current : Text → Engine S → Engine S
  save_current robot_id e =
      let w = persist_robot_at ops robot_id e in record_persist_outcome (w.1 ∷ []) w.0

  unfoldable pub upsert_robot_locked : Robot → Bool → Engine S → Engine S
  upsert_robot_locked r availability_given e =
      let e' = record e { tools = (check_tool r.tool e.tools).0 } in
      let stored = record r { last_heartbeat = e.now } in
      elim (find robot_key r.id e.robots) [
        | some _ ↦ save_current r.id (
            availability r availability_given
              (record e' { robots = update robot_key r.id (heartbeat r e.now) e.robots }))
        | none ↦ save_current r.id (record e' { robots = put robot_key stored e.robots })
      ]

  unfoldable pub upsert_robot : Robot → Engine S → Engine S
  upsert_robot r e = upsert_robot_locked r true e

  unfoldable pub update_robot : RobotUpdate → Engine S → Engine S
  update_robot u e =
      let r = known_part u.id (find robot_key u.id e.robots) in
      upsert_robot_locked
        (record r {
          stop_capable = given_or u.stop_capable r.stop_capable;
          location = given_or u.location r.location;
          tool = given_or u.tool r.tool;
          available = given_or u.available r.available;
        })
        (is_given u.available) e

  -- The record is deleted from the store first, if the store can do that.
  unfoldable pub delete_stored : Text → Engine S → Engine S × Result (Unit {0})
  delete_stored id e = elim e.store [
    | none ↦ (drop_robot id e, ok tt)
    | some s ↦ elim ops.delete_robot [
      | none ↦ (drop_robot id e, ok tt)
      | some delete_robot ↦
          let w = delete_robot s id in
          elim w.1 [
            | none ↦ (drop_robot id (record e { store = some w.0 }), ok tt)
            | some x ↦ (record e { store = some w.0 }, err x)
          ]
    ]
  ]

  unfoldable pub remove_robot : Text → Engine S → Engine S × Result (Unit {0})
  remove_robot id e =
      let held = jobs_held_by id e in
      elim (find robot_key id e.robots) [
        | none ↦ (e, err unknown_robot)
        | some _ ↦
            if any_in_flight held.0 then (held.1, err robot_busy) else delete_stored id held.1
      ]
