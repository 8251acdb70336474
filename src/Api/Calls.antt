-- ===== src/Api/Calls.antt =====
-- What a request over HTTP asks of the engine (the routes of src/api/api.go): a table of the calls
-- with their arguments, for each route and each method, and the conditions on the request.
use hydra_umc_job_dispatcher.Common.{
  Bool, true, false, ◌||◌, ◌&&◌, not, Option, none, some, List, [], ◌∷◌, is_empty, ltb,
  if◌then◌else◌,
}
use hydra_umc_job_dispatcher.Common.Int.{pos, pos_part, ltb_ℤ}
use hydra_umc_job_dispatcher.Run.{
  Call, page, confirm, add, submit, update, remove, dispatch, complete, cancel, requeue,
  replan_robot_of, detect, acknowledge,
}
use hydra_umc_job_dispatcher.Api.{
  Method, get_method, post_method, delete_method, Decoded, too_large, malformed, decoded, Answer,
  ListQuery, ArchivedFlag, not_given, one, zero_flag, other_flag,
}
use hydra_umc_job_dispatcher.Api.Jobs.{
  job_of_request, bad_status, bad_number, status_of, number_of, byte_length,
}
use hydra_umc_job_dispatcher.Api.Routes.{
  Request, jobs_route, submit_route, complete_route, cancel_route, requeue_route, robots_route,
  robot_route, dispatch_route, detect_route, replan_of_route, stop_ack_of_route, job_route,
  health_route, waiting_route, stop_requests_route,
}

abbrev pub asked : Bool → Call → List Call
asked true c = c ∷ []
asked false c = []

-- A body asks for something if it is posted and can be read.
abbrev pub posted : {A : Type 0} → (A → List Call) → Method → Decoded A → List Call
posted f post_method (decoded a) = f a
posted f post_method too_large = []
posted f post_method malformed = []
posted f _ d = []

abbrev pub is_unopposed : Option Answer → Bool
is_unopposed none = true
is_unopposed (some a) = false

abbrev pub is_live : ArchivedFlag → Bool
is_live not_given = true
is_live zero_flag = true
is_live one = false
is_live other_flag = false

-- GET /jobs reads the queue: the status is one, the numbers are in range, the archive is not asked
-- for and the robot's id is at most 256 bytes long.
abbrev pub reads_queue : ListQuery → Bool
reads_queue q =
    not (bad_status q.status)
    && (not (bad_number true q.limit || bad_number false q.offset)
        && (is_live q.archived && not (ltb 256 (byte_length q.robot))))

-- The calls of a request while replanning is on, or off.
abbrev pub calls_of : Bool → Request → List Call
calls_of on (jobs_route p get_method q d) =
    asked (reads_queue q)
      (page q.robot (status_of q.status) (number_of q.offset) (number_of q.limit))
calls_of on (jobs_route p m q d) =
    posted
      (λ r.
        asked (not (is_empty r.id) && is_unopposed r.refused_proposal) (add (job_of_request r [])))
      m d
calls_of on (submit_route m d) =
    posted
      (λ r.
        asked (not (is_empty r.id) && is_unopposed r.refused_proposal)
          (submit (job_of_request r r.dedup_key)))
      m d
calls_of on (complete_route m d) =
    posted
      (λ r.
        asked (not (is_empty r.robot_id) && not (ltb_ℤ r.attempt (pos 0)))
          (complete r.id r.success r.robot_id (pos_part r.attempt)))
      m d
calls_of on (cancel_route m d) = posted (λ id. asked (not (is_empty id)) (cancel id)) m d
calls_of on (requeue_route m d) =
    posted (λ r. asked (not (is_empty r.id)) (requeue r.id r.robot_id)) m d
calls_of on (robots_route m d) = posted (λ u. asked (not (is_empty u.id)) (update u)) m d
calls_of on (robot_route delete_method (some id)) = asked (not (is_empty id)) (remove id)
calls_of on (robot_route m id) = []
calls_of on (dispatch_route fetch post_method) = confirm fetch ∷ dispatch ∷ []
calls_of on (dispatch_route fetch m) = []
calls_of on (detect_route m d) = posted (λ r. asked r.is_positive (detect r.timeout)) m d
calls_of on (replan_of_route m d) =
    if on then posted (λ id. asked (not (is_empty id)) (replan_robot_of id)) m d else []
calls_of on (stop_ack_of_route m d) =
    if on
    then posted
        (λ r.
          asked (not (is_empty r.robot_id || is_empty r.job_id)) (acknowledge r.robot_id r.job_id))
        m d
    else []
calls_of on (job_route m id) = []
calls_of on (health_route m) = []
calls_of on (waiting_route m) = []
calls_of on (stop_requests_route m) = []
