-- ===== src/Api/Robots.antt =====
-- The handlers of the robots and of the scheduler: /robots, /robots/{id}, /dispatch,
-- /jobs/detect-stale, /jobs/replan, /jobs/stop-ack and /health.
use hydra_umc_job_dispatcher.Common.{
  ℕ, true, false, ◌||◌, not, Option, none, some, [], ◌∷◌, Text, is_empty, if◌then◌else◌,
}
use hydra_umc_job_dispatcher.Model.{
  Error, ok, err, unknown_robot, unknown_job, robot_busy, replan_off,
}
use hydra_umc_job_dispatcher.Engine.{Engine, StoreOps}
use hydra_umc_job_dispatcher.Tools.{confirm_tools}
use hydra_umc_job_dispatcher.Registry.{RobotUpdate, update_robot, remove_robot}
use hydra_umc_job_dispatcher.Dispatch.{dispatch_once}
use hydra_umc_job_dispatcher.Requeue.{replan_robot}
use hydra_umc_job_dispatcher.Stale.{detect_stale, ack_stop}
use hydra_umc_job_dispatcher.Queries
use hydra_umc_job_dispatcher.Queries.{stop_requests}
use hydra_umc_job_dispatcher.Waiting.{waiting_jobs}
use hydra_umc_job_dispatcher.Api.{
  Method, get_method, post_method, delete_method, Decoded, decoded, Answer, refuse, not_allowed,
  answer, body_error_status, DetectRequest, StopAckRequest, robots_body, assignments_body,
  stale_body, requeued_body, health_body, waiting_body, stop_body,
}

abbrev pub remove_error_status : Error → ℕ
remove_error_status unknown_robot = 404
remove_error_status robot_busy = 409
remove_error_status _ = 500

abbrev pub replan_error_status : Error → ℕ
replan_error_status unknown_robot = 404
replan_error_status _ = 400

abbrev pub ack_error_status : Error → ℕ
ack_error_status unknown_job = 404
ack_error_status replan_off = 400
ack_error_status _ = 409

module _ {S : Type 0} (ops : StoreOps S) where
  unfoldable pub post_robot : RobotUpdate → Engine S → Engine S × Answer
  post_robot u e =
      let w = update_robot ops u e in
      if is_empty u.id then (e, refuse 400) else (w, answer 200 (robots_body (Queries.robots w)))

  -- handleRobots
  unfoldable pub handle_robots : Method → Decoded RobotUpdate → Engine S → Engine S × Answer
  unfolding post_robot
  handle_robots get_method d e = (e, answer 200 (robots_body (Queries.robots e)))
  handle_robots post_method (decoded u) e = post_robot u e
  handle_robots post_method d e = (e, refuse (body_error_status d))
  handle_robots _ d e = (e, not_allowed (get_method ∷ post_method ∷ []))

  unfoldable pub delete_robot : Text → Engine S → Engine S × Answer
  delete_robot id e =
      let w = remove_robot ops id e in
      if is_empty id then (e, refuse 400) else elim w.1 [
        | err x ↦ (w.0, refuse (remove_error_status x))
        | ok _ ↦ (w.0, answer 200 (robots_body (Queries.robots w.0)))
      ]

  -- handleRobotByID; `none` is a path that could not be read
  unfoldable pub handle_robot_by_id : Method → Option Text → Engine S → Engine S × Answer
  unfolding delete_robot
  handle_robot_by_id delete_method none e = (e, refuse 400)
  handle_robot_by_id delete_method (some id) e = delete_robot id e
  handle_robot_by_id _ id e = (e, not_allowed (delete_method ∷ []))

  -- handleDispatch; what the controllers answer is an argument
  unfoldable pub handle_dispatch : (Text → Option Text) → Method → Engine S → Engine S × Answer
  handle_dispatch fetch post_method e =
      let w = dispatch_once ops (confirm_tools fetch e e).0 in
      (w.0, answer 200 (assignments_body w.1))
  handle_dispatch fetch _ e = (e, not_allowed (post_method ∷ []))

  unfoldable pub post_detect : DetectRequest → Engine S → Engine S × Answer
  post_detect r e =
      let w = detect_stale ops r.timeout e in
      if not r.is_positive then (e, refuse 400) else (
        w.0,
        answer 200 (
            stale_body w.1.unknown
              (if w.0.replan.enabled then some (w.1.requeued, w.1.stop_requested) else none)),
      )

  -- handleDetectStale
  unfoldable pub handle_detect_stale : Method → Decoded DetectRequest → Engine S → Engine S × Answer
  unfolding post_detect
  handle_detect_stale post_method (decoded r) e = post_detect r e
  handle_detect_stale post_method d e = (e, refuse (body_error_status d))
  handle_detect_stale _ d e = (e, not_allowed (post_method ∷ []))

  unfoldable pub post_replan : Text → Engine S → Engine S × Answer
  post_replan robot_id e =
      let w = replan_robot ops robot_id e in
      if is_empty robot_id then (e, refuse 400) else elim w.1 [
        | err x ↦ (w.0, refuse (replan_error_status x))
        | ok ids ↦ (w.0, answer 200 (requeued_body ids))
      ]

  -- handleReplan, with replanning on
  unfoldable pub replan_route : Method → Decoded Text → Engine S → Engine S × Answer
  unfolding post_replan
  replan_route post_method (decoded robot_id) e = post_replan robot_id e
  replan_route post_method d e = (e, refuse (body_error_status d))
  replan_route _ d e = (e, not_allowed (post_method ∷ []))

  -- handleReplan: while replanning is off the route does not exist.
  unfoldable pub handle_replan : Method → Decoded Text → Engine S → Engine S × Answer
  handle_replan m d e = if not e.replan.enabled then (e, refuse 404) else replan_route m d e

  unfoldable pub post_stop_ack : StopAckRequest → Engine S → Engine S × Answer
  post_stop_ack r e =
      let w = ack_stop ops r.robot_id r.job_id e in
      if is_empty r.robot_id || is_empty r.job_id then (e, refuse 400) else elim w.1 [
        | err x ↦ (w.0, refuse (ack_error_status x))
        | ok _ ↦ (w.0, answer 200 (requeued_body (r.job_id ∷ [])))
      ]

  -- handleStopAck, with replanning on
  unfoldable pub stop_ack_route : Method → Decoded StopAckRequest → Engine S → Engine S × Answer
  unfolding post_stop_ack
  stop_ack_route post_method (decoded r) e = post_stop_ack r e
  stop_ack_route post_method d e = (e, refuse (body_error_status d))
  stop_ack_route _ d e = (e, not_allowed (post_method ∷ []))

  -- handleStopAck: while replanning is off the route does not exist.
  unfoldable pub handle_stop_ack : Method → Decoded StopAckRequest → Engine S → Engine S × Answer
  handle_stop_ack m d e = if not e.replan.enabled then (e, refuse 404) else stop_ack_route m d e

-- handleHealth
unfoldable pub handle_health : {S : Type 0} → Method → Engine S → Answer
handle_health get_method e = elim e.last_persist_err [
  | none ↦ answer 200 (health_body true)
  | some x ↦ answer 503 (health_body false)
]
handle_health _ e = not_allowed (get_method ∷ [])

-- handleWaiting
unfoldable pub handle_waiting : {S : Type 0} → Method → Engine S → Answer
handle_waiting get_method e = answer 200 (waiting_body (waiting_jobs e))
handle_waiting _ e = not_allowed (get_method ∷ [])

-- handleStopRequests, with replanning on
unfoldable pub stop_list_route : {S : Type 0} → Method → Engine S → Answer
stop_list_route get_method e = answer 200 (stop_body (stop_requests e))
stop_list_route _ e = not_allowed (get_method ∷ [])

-- handleStopRequests: while replanning is off the route does not exist.
unfoldable pub handle_stop_requests : {S : Type 0} → Method → Engine S → Answer
handle_stop_requests m e = if not e.replan.enabled then refuse 404 else stop_list_route m e
