-- ===== src/Api/Routes.antt =====
-- A request by its route, and the handler that it goes to.
use hydra_umc_job_dispatcher.Common.{ℕ, Option, List, [], ◌∷◌, Text}
use hydra_umc_job_dispatcher.Common.Int.{ℤ}
use hydra_umc_job_dispatcher.Model.{Job, Result}
use hydra_umc_job_dispatcher.Engine.{Engine, StoreOps}
use hydra_umc_job_dispatcher.Registry.{RobotUpdate}
use hydra_umc_job_dispatcher.Api.{
  Method, Decoded, Answer, JobRequest, CompleteRequest, RequeueRequest, DetectRequest,
  StopAckRequest, ListQuery,
}
use hydra_umc_job_dispatcher.Api.Jobs.{
  handle_jobs, handle_submit_job, handle_complete_job, handle_cancel_job, handle_requeue_job,
  handle_job_by_id,
}
use hydra_umc_job_dispatcher.Api.Robots.{
  handle_robots, handle_robot_by_id, handle_dispatch, handle_detect_stale, handle_replan,
  handle_stop_ack, handle_health, handle_waiting, handle_stop_requests,
}

pub data Request : Type 0 where
  jobs_route : (ℤ → ℤ → Result (List Job × ℕ)) → Method → ListQuery → Decoded JobRequest → Request
  submit_route : Method → Decoded JobRequest → Request
  complete_route : Method → Decoded CompleteRequest → Request
  cancel_route : Method → Decoded Text → Request
  requeue_route : Method → Decoded RequeueRequest → Request
  robots_route : Method → Decoded RobotUpdate → Request
  robot_route : Method → Option Text → Request
  dispatch_route : (Text → Option Text) → Method → Request
  detect_route : Method → Decoded DetectRequest → Request
  replan_of_route : Method → Decoded Text → Request
  stop_ack_of_route : Method → Decoded StopAckRequest → Request
  job_route : Method → Text → Request
  health_route : Method → Request
  waiting_route : Method → Request
  stop_requests_route : Method → Request

module _ {S : Type 0} (ops : StoreOps S) where
  -- mux.ServeHTTP
  unfoldable pub serve : Request → Engine S → Engine S × Answer
  serve (jobs_route archived_page m q d) e = handle_jobs ops archived_page m q d e
  serve (submit_route m d) e = handle_submit_job ops m d e
  serve (complete_route m d) e = handle_complete_job ops m d e
  serve (cancel_route m d) e = handle_cancel_job ops m d e
  serve (requeue_route m d) e = handle_requeue_job ops m d e
  serve (robots_route m d) e = handle_robots ops m d e
  serve (robot_route m id) e = handle_robot_by_id ops m id e
  serve (dispatch_route fetch m) e = handle_dispatch ops fetch m e
  serve (detect_route m d) e = handle_detect_stale ops m d e
  serve (replan_of_route m d) e = handle_replan ops m d e
  serve (stop_ack_of_route m d) e = handle_stop_ack ops m d e
  serve (job_route m id) e = (e, handle_job_by_id m id e)
  serve (health_route m) e = (e, handle_health m e)
  serve (waiting_route m) e = (e, handle_waiting m e)
  serve (stop_requests_route m) e = (e, handle_stop_requests m e)

  -- The requests in the order in which the mutex lets them in.
  unfoldable pub serve_all : List Request → Engine S → Engine S
  serve_all [] e = e
  serve_all (r ∷ rs) e = serve_all rs (serve r e).0
