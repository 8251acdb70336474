-- ===== src/Stale.antt =====
-- Robots that went silent (src/dispatcher/stopconfirm.go; src/dispatcher/dispatcher.go:
-- DetectStaleAssignmentsStop, markUnknownLocked).
use hydra_umc_job_dispatcher.Common.{
  ◌+◌, ◌*◌, Bool, true, false, ◌&&◌, ◌||◌, not, Option, none, some, List, [], ◌∷◌, Text, eqt,
  is_empty, ltb, ◌==◌, if◌then◌else◌, sort_by, map,
}
use hydra_umc_job_dispatcher.Common.Keyed.{find, put, update, delete}
use hydra_umc_job_dispatcher.Time.{Instant, Duration, is_zero, second, heartbeat_from_future}
use hydra_umc_job_dispatcher.Events.{EventType}
use hydra_umc_job_dispatcher.Model.{
  Job, JobStatus, Robot, Error, Result, ok, err, unknown_job, robot_mismatch, replan_off,
  no_stop_request, StopRequest, job_key, robot_key, stop_request_key, is_assigned, is_in_flight,
}
use hydra_umc_job_dispatcher.Engine.{
  Engine, StoreOps, persist_job_at, begin_batch, commit_batch, record_persist_outcome, emit,
}
use hydra_umc_job_dispatcher.Status.{set_status, keep_last}
use hydra_umc_job_dispatcher.Requeue.{requeue_all}

pub record StaleResult : Type 0 where
  pub unknown : List Text
  pub requeued : List Text
  pub stop_requested : List Text

-- stopRequeue, stopRequested, stopWaiting, stopUnknown
pub data StopDecision : Type 0 where
  requeue requested waiting give_up : StopDecision

abbrev pub default_stop_ack_timeout : Duration
default_stop_ack_timeout = 30 * second

-- A request belongs to the present assignment of the job.
unfoldable pub is_current : StopRequest → Job → Bool
is_current q j = eqt q.robot_id j.assigned_robot && q.attempt == j.attempt

-- What the sweep does with one job: alive, or silent.
unfoldable pub is_silent : Duration → Instant → Robot → Bool
is_silent timeout now r = not (
    is_zero r.last_heartbeat
    || (ltb now (r.last_heartbeat + timeout) && not (heartbeat_from_future now r.last_heartbeat)))

abbrev expire : StopRequest → StopRequest
expire q = record q { expired = true }

module _ {S : Type 0} where
  unfoldable pub stop_ack_timeout : Engine S → Duration
  stop_ack_timeout e =
      if ltb 0 e.replan.stop_ack_timeout
      then e.replan.stop_ack_timeout
      else default_stop_ack_timeout

  -- A new request.
  unfoldable pub open_request : Job → Engine S → Engine S
  unfolding stop_ack_timeout
  open_request j e = record e {
    stop_req =
        put stop_request_key
          (record {
            job_id = j.id;
            robot_id = j.assigned_robot;
            attempt = j.attempt;
            at = e.now;
            timeout_at = e.now + stop_ack_timeout e;
            expired = false;
          })
          e.stop_req;
  }

  -- The decision on a request of the present assignment.
  unfoldable pub pursue : Job → StopRequest → Engine S → Engine S × StopDecision
  pursue j q e =
      let lapsed = record e { stop_req = update stop_request_key j.id expire e.stop_req } in
      if ltb e.now q.timeout_at
      then (e, waiting)
      else if e.replan.allow_unconfirmed
      then (lapsed, requeue)
      else (lapsed, give_up)

  -- stopDecisionLocked on a robot that can confirm a stop.
  unfoldable pub ask_to_stop : Job → Engine S → Engine S × StopDecision
  ask_to_stop j e = elim (find stop_request_key j.id e.stop_req) [
    | none ↦ (open_request j e, requested)
    | some q ↦ if is_current q j then pursue j q e else (open_request j e, requested)
  ]

  -- stopDecisionLocked
  unfoldable pub stop_decision : Job → Engine S → Engine S × StopDecision
  stop_decision j e = elim (find robot_key j.assigned_robot e.robots) [
    | none ↦ (e, requeue)
    | some r ↦ if r.stop_capable then ask_to_stop j e else (e, requeue)
  ]

  -- The assigned jobs of robots that are registered and silent; a stop request of a robot that
  -- is back is withdrawn.
  unfoldable pub collect_stale : Duration → List Job → Engine S → Engine S × List Job
  collect_stale timeout [] e = (e, [])
  collect_stale timeout (j ∷ js) e =
      let rest = collect_stale timeout js e in
      if not (is_assigned j.status) then rest else elim (find robot_key j.assigned_robot e.robots) [
        | none ↦ rest
        | some r ↦
            if is_silent timeout e.now r
            then (rest.0, j ∷ rest.1)
            else (record rest.0 { stop_req = delete stop_request_key j.id rest.0.stop_req }, rest.1)
      ]

  unfoldable pub decide_stale : List Job → Engine S → Engine S × List Text × StaleResult
  decide_stale [] e = (e, [], record { unknown = []; requeued = []; stop_requested = [] })
  decide_stale (j ∷ js) e =
      let d = stop_decision j e in
      let (e', back, res) = decide_stale js d.0 in
      elim d.1 [
        | requeue ↦ (e', j.id ∷ back, res)
        | requested ↦ (e', back, record res { stop_requested = j.id ∷ res.stop_requested })
        | waiting ↦ (e', back, res)
        | give_up ↦ (e', back, record res { unknown = j.id ∷ res.unknown })
      ]

  unfoldable pub emit_unknown : Text → Engine S → Engine S
  emit_unknown id e = elim (find job_key id e.jobs) [
    | none ↦ e
    | some j ↦ emit EventType.unknown j e
  ]

-- The test of AckStop on the request.
unfoldable pub ack_open : Job → Text → Option StopRequest → Bool
ack_open j robot_id none = false
ack_open j robot_id (some q) =
    is_in_flight j.status && eqt q.robot_id robot_id && q.attempt == j.attempt

module _ {S : Type 0} (ops : StoreOps S) where
  -- The loop of markUnknownLocked.
  unfoldable pub mark_each : List Text → Engine S → Option Error → Engine S × Option Error
  mark_each [] e persist_err = (e, persist_err)
  mark_each (id ∷ ids) e persist_err =
      let e' = record e { jobs = update job_key id (set_status JobStatus.unknown) e.jobs } in
      let marked = persist_job_at ops id (emit_unknown id e') in
      mark_each ids marked.0 (keep_last marked.1 persist_err)

  unfoldable pub mark_unknown : List Text → Engine S → Engine S
  mark_unknown [] e = e
  mark_unknown (id ∷ ids) e =
      let w = mark_each (id ∷ ids) (begin_batch e) none in
      let commit = commit_batch ops w.0 in record_persist_outcome (w.1 ∷ commit.1 ∷ []) commit.0

  unfoldable pub requeue_back : List Text → Engine S → Engine S × List Text
  requeue_back [] e = (e, [])
  requeue_back (id ∷ ids) e = requeue_all ops (id ∷ ids) [] e

  -- DetectStaleAssignmentsStop
  unfoldable pub detect_stale : Duration → Engine S → Engine S × StaleResult
  detect_stale timeout e =
      let c = collect_stale timeout e.jobs e in
      let stale = sort_by (λ a b. ltb a.seq b.seq) c.1 in
      let d = decide_stale stale c.0 in
      let b = requeue_back d.1 d.0 in
      let ids = map job_key stale in
      if e.replan.enabled && e.replan.on_stale
      then (mark_unknown d.2.unknown b.0, record d.2 { requeued = b.1 })
      else (mark_unknown ids c.0, record { unknown = ids; requeued = []; stop_requested = [] })

  -- AckStop
  unfoldable pub ack_stop : Text → Text → Engine S → Engine S × Result (Unit {0})
  ack_stop robot_id job_id e =
      if not e.replan.enabled then (e, err replan_off) else elim (find job_key job_id e.jobs) [
        | none ↦ (e, err unknown_job)
        | some j ↦
            if not (is_empty j.assigned_robot) && not (eqt j.assigned_robot robot_id)
            then (e, err robot_mismatch)
            else if ack_open j robot_id (find stop_request_key job_id e.stop_req)
            then ((requeue_all ops (job_id ∷ []) [] e).0, ok tt)
            else (e, err no_stop_request)
      ]
