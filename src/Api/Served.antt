-- ===== src/Api/Served.antt =====
-- The handlers make the calls of the table, and nothing else changes the engine.
use hydra_umc_job_dispatcher.Common.{
  ℕ, ◌≡◌, refl, inl, inr, true, false, ◌||◌, not, none, some, List, [], Text, is_empty, ltb,
  Bool-cases, Option-cases,
}
use hydra_umc_job_dispatcher.Common.Int.{ℤ, pos, pos_part, ltb_ℤ}
use hydra_umc_job_dispatcher.Model.{Job, Result, Result-cases, created, duplicate, retried}
use hydra_umc_job_dispatcher.Engine.{Engine, StoreOps}
use hydra_umc_job_dispatcher.Registry.{RobotUpdate, remove_robot}
use hydra_umc_job_dispatcher.Submit.{add_job, submit_job}
use hydra_umc_job_dispatcher.Outcome.{complete_job_attempt, cancel_job}
use hydra_umc_job_dispatcher.Requeue.{requeue_job, replan_robot}
use hydra_umc_job_dispatcher.Stale.{ack_stop}
use hydra_umc_job_dispatcher.Run.{
  Call, page, add, submit, update, remove, complete, cancel, requeue, replan_robot_of, detect,
  acknowledge, step, run,
}
use hydra_umc_job_dispatcher.Api.{
  Method, get_method, post_method, delete_method, head_method, options_method, other_method,
  Decoded, too_large, malformed, decoded, JobRequest, CompleteRequest, RequeueRequest,
  DetectRequest, StopAckRequest, ListQuery, ArchivedFlag, not_given, one, zero_flag, other_flag,
}
use hydra_umc_job_dispatcher.Api.Jobs.{
  job_of_request, bad_status, bad_number, status_of, number_of, list_live, byte_length,
  handle_list_jobs, post_job, handle_jobs, post_submission, handle_submit_job, post_completion,
  handle_complete_job, post_cancel, handle_cancel_job, post_requeue, handle_requeue_job,
}
use hydra_umc_job_dispatcher.Api.Robots.{
  post_robot, handle_robots, delete_robot, handle_robot_by_id, handle_dispatch, post_detect,
  handle_detect_stale, post_replan, replan_route, handle_replan, post_stop_ack, stop_ack_route,
  handle_stop_ack,
}
use hydra_umc_job_dispatcher.Api.Routes.{
  Request, jobs_route, submit_route, complete_route, cancel_route, requeue_route, robots_route,
  robot_route, dispatch_route, detect_route, replan_of_route, stop_ack_of_route, job_route,
  health_route, waiting_route, stop_requests_route, serve,
}
use hydra_umc_job_dispatcher.Api.Calls.{asked, posted, is_unopposed, reads_queue, calls_of}
use hydra_umc_job_dispatcher.Common.{◌&&◌, if◌then◌else◌, Bool}
use hydra_umc_job_dispatcher.Api.{Answer, refuse}

module _ {S : Type 0} (ops : StoreOps S) where
  -- The engine goes where the calls take it.
  abbrev Makes : List Call → Engine S → Engine S → Type 0
  Makes cs e f = f ≡ run ops cs e

  list_live-Makes :
      (q : ListQuery) (e : Engine S)
      → Makes
          (asked
            (not (ltb 256 (byte_length q.robot)))
            (page q.robot (status_of q.status) (number_of q.offset) (number_of q.limit)))
          e
          (list_live q e).0
  unfolding list_live step run
  list_live-Makes q e = elim (Bool-cases (ltb 256 (byte_length q.robot))) [
    | inl t ↦ rw (t, list_live) refl
    | inr t ↦ rw (t, list_live) refl
  ]

  handle_list_jobs-Makes :
      (p : ℤ → ℤ → Result (List Job × ℕ)) (q : ListQuery) (e : Engine S)
      → Makes
          (asked
            (reads_queue q)
            (page q.robot (status_of q.status) (number_of q.offset) (number_of q.limit)))
          e
          (handle_list_jobs p q e).0
  unfolding handle_list_jobs run
  handle_list_jobs-Makes p q e = elim (Bool-cases (bad_status q.status)) [
    | inl t ↦ rw t refl
    | inr t ↦ elim (Bool-cases (bad_number true q.limit || bad_number false q.offset)) [
      | inl u ↦ rw (t, u) refl
      | inr u ↦ by_flag t u q.archived refl
    ]
  ]
    where
      by_flag :
          bad_status q.status ≡ false
          → bad_number true q.limit || bad_number false q.offset ≡ false
          → (a : ArchivedFlag) → q.archived ≡ a
          → Makes
              (asked
                (reads_queue q)
                (page q.robot (status_of q.status) (number_of q.offset) (number_of q.limit)))
              e
              (handle_list_jobs p q e).0
      by_flag t u not_given f = rw (t, u, f) (list_live-Makes q e)
      by_flag t u zero_flag f = rw (t, u, f) (list_live-Makes q e)
      by_flag t u one f = rw (t, u, f) refl
      by_flag t u other_flag f = rw (t, u, f) refl

  post_job-Makes :
      (r : JobRequest) (e : Engine S)
      → Makes
          (asked
            (not (is_empty r.id) && is_unopposed r.refused_proposal)
            (add (job_of_request r [])))
          e
          (post_job ops r e).0
  unfolding post_job step run
  post_job-Makes r e = elim (Bool-cases (is_empty r.id)) [
    | inl t ↦ rw t refl
    | inr t ↦ elim (Option-cases r.refused_proposal) [
      | inr (a, p) ↦ rw (t, p, post_job) refl
      | inl p ↦ elim (Result-cases (add_job ops (job_of_request r []) e).1) [
        | inl (x, w) ↦ rw (t, p, w, post_job) refl
        | inr (x, w) ↦ rw (t, p, w, post_job) refl
      ]
    ]
  ]

  post_submission-Makes :
      (r : JobRequest) (e : Engine S)
      → Makes
          (asked
            (not (is_empty r.id) && is_unopposed r.refused_proposal)
            (submit (job_of_request r r.dedup_key)))
          e
          (post_submission ops r e).0
  unfolding post_submission step run
  post_submission-Makes r e = elim (Bool-cases (is_empty r.id)) [
    | inl t ↦ rw t refl
    | inr t ↦ elim (Option-cases r.refused_proposal) [
      | inr (a, p) ↦ rw (t, p, post_submission) refl
      | inl p ↦ elim (Result-cases (submit_job ops (job_of_request r r.dedup_key) e).1) [
        | inr (x, w) ↦ rw (t, p, w, post_submission) refl
        | inl ((j, created), w) ↦ rw (t, p, w, post_submission) refl
        | inl ((j, duplicate), w) ↦ rw (t, p, w, post_submission) refl
        | inl ((j, retried), w) ↦ rw (t, p, w, post_submission) refl
      ]
    ]
  ]

  post_completion-Makes :
      (r : CompleteRequest) (e : Engine S)
      → Makes
          (asked
            (not (is_empty r.robot_id) && not (ltb_ℤ r.attempt (pos 0)))
            (complete r.id r.success r.robot_id (pos_part r.attempt)))
          e
          (post_completion ops r e).0
  unfolding post_completion step run
  post_completion-Makes r e = elim (Bool-cases (is_empty r.robot_id)) [
    | inl t ↦ rw t refl
    | inr t ↦ elim (Bool-cases (ltb_ℤ r.attempt (pos 0))) [
      | inl n ↦ rw (t, n) refl
      | inr n ↦
          elim (Result-cases
            (complete_job_attempt ops r.id r.success r.robot_id (pos_part r.attempt) e).1) [
              | inl (x, w) ↦ rw (t, n, w, post_completion) refl
              | inr (x, w) ↦ rw (t, n, w, post_completion) refl
            ]
    ]
  ]

  post_cancel-Makes :
      (id : Text) (e : Engine S)
      → Makes (asked (not (is_empty id)) (cancel id)) e (post_cancel ops id e).0
  unfolding post_cancel step run
  post_cancel-Makes id e = elim (Bool-cases (is_empty id)) [
    | inl t ↦ rw t refl
    | inr t ↦ elim (Result-cases (cancel_job ops id e).1) [
      | inl (x, w) ↦ rw (t, w, post_cancel) refl
      | inr (x, w) ↦ rw (t, w, post_cancel) refl
    ]
  ]

  post_requeue-Makes :
      (r : RequeueRequest) (e : Engine S)
      → Makes (asked (not (is_empty r.id)) (requeue r.id r.robot_id)) e (post_requeue ops r e).0
  unfolding post_requeue step run
  post_requeue-Makes r e = elim (Bool-cases (is_empty r.id)) [
    | inl t ↦ rw t refl
    | inr t ↦ elim (Result-cases (requeue_job ops r.id r.robot_id e).1) [
      | inl (x, w) ↦ rw (t, w, post_requeue) refl
      | inr (x, w) ↦ rw (t, w, post_requeue) refl
    ]
  ]

  post_robot-Makes :
      (u : RobotUpdate) (e : Engine S)
      → Makes (asked (not (is_empty u.id)) (update u)) e (post_robot ops u e).0
  unfolding post_robot step run
  post_robot-Makes u e = elim (Bool-cases (is_empty u.id)) [ inl t ↦ rw t refl | inr t ↦ rw t refl ]

  delete_robot-Makes :
      (id : Text) (e : Engine S)
      → Makes (asked (not (is_empty id)) (remove id)) e (delete_robot ops id e).0
  unfolding delete_robot step run
  delete_robot-Makes id e = elim (Bool-cases (is_empty id)) [
    | inl t ↦ rw t refl
    | inr t ↦ elim (Result-cases (remove_robot ops id e).1) [
      | inl (x, w) ↦ rw (t, w, delete_robot) refl
      | inr (x, w) ↦ rw (t, w, delete_robot) refl
    ]
  ]

  post_detect-Makes :
      (r : DetectRequest) (e : Engine S)
      → Makes (asked r.is_positive (detect r.timeout)) e (post_detect ops r e).0
  unfolding post_detect step run
  post_detect-Makes r e = elim (Bool-cases r.is_positive) [
    | inl t ↦ rw (t, post_detect) refl
    | inr t ↦ rw (t, post_detect) refl
  ]

  post_replan-Makes :
      (id : Text) (e : Engine S)
      → Makes (asked (not (is_empty id)) (replan_robot_of id)) e (post_replan ops id e).0
  unfolding post_replan step run
  post_replan-Makes id e = elim (Bool-cases (is_empty id)) [
    | inl t ↦ rw t refl
    | inr t ↦ elim (Result-cases (replan_robot ops id e).1) [
      | inl (x, w) ↦ rw (t, w, post_replan) refl
      | inr (x, w) ↦ rw (t, w, post_replan) refl
    ]
  ]

  post_stop_ack-Makes :
      (r : StopAckRequest) (e : Engine S)
      → Makes
          (asked (not (is_empty r.robot_id || is_empty r.job_id)) (acknowledge r.robot_id r.job_id))
          e
          (post_stop_ack ops r e).0
  unfolding post_stop_ack step run
  post_stop_ack-Makes r e = elim (Bool-cases (is_empty r.robot_id || is_empty r.job_id)) [
    | inl t ↦ rw t refl
    | inr t ↦ elim (Result-cases (ack_stop ops r.robot_id r.job_id e).1) [
      | inl (x, w) ↦ rw (t, w, post_stop_ack) refl
      | inr (x, w) ↦ rw (t, w, post_stop_ack) refl
    ]
  ]

  replan_route-Makes :
      (m : Method) (d : Decoded Text) (e : Engine S)
      → Makes
          (posted (λ id. asked (not (is_empty id)) (replan_robot_of id)) m d)
          e
          (replan_route ops m d e).0
  unfolding replan_route run
  replan_route-Makes post_method (decoded id) e = post_replan-Makes id e
  replan_route-Makes post_method too_large e = refl
  replan_route-Makes post_method malformed e = refl
  replan_route-Makes get_method d e = refl
  replan_route-Makes delete_method d e = refl
  replan_route-Makes other_method d e = refl
  replan_route-Makes head_method d e = refl
  replan_route-Makes options_method d e = refl

  stop_ack_route-Makes :
      (m : Method) (d : Decoded StopAckRequest) (e : Engine S)
      → Makes
          (posted
            (λ r.
              asked
                (not (is_empty r.robot_id || is_empty r.job_id))
                (acknowledge r.robot_id r.job_id))
            m
            d)
          e
          (stop_ack_route ops m d e).0
  unfolding stop_ack_route run
  stop_ack_route-Makes post_method (decoded r) e = post_stop_ack-Makes r e
  stop_ack_route-Makes post_method too_large e = refl
  stop_ack_route-Makes post_method malformed e = refl
  stop_ack_route-Makes get_method d e = refl
  stop_ack_route-Makes delete_method d e = refl
  stop_ack_route-Makes other_method d e = refl
  stop_ack_route-Makes head_method d e = refl
  stop_ack_route-Makes options_method d e = refl

  -- A route that is there only while replanning is on.
  gate-Makes :
      (on : Bool) (cs : List Call) (e : Engine S) (a : Answer) (f : Engine S × Answer)
      → Makes cs e f.0
      → Makes (if on then cs else []) e (if not on then (e, a) else f).0
  unfolding run
  gate-Makes true cs e a f h = h
  gate-Makes false cs e a f h = refl

  pub serve-run :
      (r : Request) (e : Engine S) → (serve ops r e).0 ≡ run ops (calls_of e.replan.enabled r) e
  unfolding serve handle_jobs handle_submit_job handle_complete_job handle_cancel_job
      handle_requeue_job handle_robots handle_robot_by_id handle_dispatch handle_detect_stale
      handle_replan handle_stop_ack step run
  serve-run (jobs_route p get_method q d) e = handle_list_jobs-Makes p q e
  serve-run (jobs_route p post_method q (decoded r)) e = post_job-Makes r e
  serve-run (jobs_route p post_method q too_large) e = refl
  serve-run (jobs_route p post_method q malformed) e = refl
  serve-run (jobs_route p delete_method q d) e = refl
  serve-run (jobs_route p other_method q d) e = refl
  serve-run (jobs_route p head_method q d) e = refl
  serve-run (jobs_route p options_method q d) e = refl
  serve-run (submit_route post_method (decoded r)) e = post_submission-Makes r e
  serve-run (submit_route post_method too_large) e = refl
  serve-run (submit_route post_method malformed) e = refl
  serve-run (submit_route get_method d) e = refl
  serve-run (submit_route delete_method d) e = refl
  serve-run (submit_route other_method d) e = refl
  serve-run (submit_route head_method d) e = refl
  serve-run (submit_route options_method d) e = refl
  serve-run (complete_route post_method (decoded r)) e = post_completion-Makes r e
  serve-run (complete_route post_method too_large) e = refl
  serve-run (complete_route post_method malformed) e = refl
  serve-run (complete_route get_method d) e = refl
  serve-run (complete_route delete_method d) e = refl
  serve-run (complete_route other_method d) e = refl
  serve-run (complete_route head_method d) e = refl
  serve-run (complete_route options_method d) e = refl
  serve-run (cancel_route post_method (decoded id)) e = post_cancel-Makes id e
  serve-run (cancel_route post_method too_large) e = refl
  serve-run (cancel_route post_method malformed) e = refl
  serve-run (cancel_route get_method d) e = refl
  serve-run (cancel_route delete_method d) e = refl
  serve-run (cancel_route other_method d) e = refl
  serve-run (cancel_route head_method d) e = refl
  serve-run (cancel_route options_method d) e = refl
  serve-run (requeue_route post_method (decoded r)) e = post_requeue-Makes r e
  serve-run (requeue_route post_method too_large) e = refl
  serve-run (requeue_route post_method malformed) e = refl
  serve-run (requeue_route get_method d) e = refl
  serve-run (requeue_route delete_method d) e = refl
  serve-run (requeue_route other_method d) e = refl
  serve-run (requeue_route head_method d) e = refl
  serve-run (requeue_route options_method d) e = refl
  serve-run (robots_route get_method d) e = refl
  serve-run (robots_route post_method (decoded u)) e = post_robot-Makes u e
  serve-run (robots_route post_method too_large) e = refl
  serve-run (robots_route post_method malformed) e = refl
  serve-run (robots_route delete_method d) e = refl
  serve-run (robots_route other_method d) e = refl
  serve-run (robots_route head_method d) e = refl
  serve-run (robots_route options_method d) e = refl
  serve-run (robot_route delete_method none) e = refl
  serve-run (robot_route delete_method (some id)) e = delete_robot-Makes id e
  serve-run (robot_route get_method id) e = refl
  serve-run (robot_route post_method id) e = refl
  serve-run (robot_route other_method id) e = refl
  serve-run (robot_route head_method id) e = refl
  serve-run (robot_route options_method id) e = refl
  serve-run (dispatch_route fetch post_method) e = refl
  serve-run (dispatch_route fetch get_method) e = refl
  serve-run (dispatch_route fetch delete_method) e = refl
  serve-run (dispatch_route fetch other_method) e = refl
  serve-run (dispatch_route fetch head_method) e = refl
  serve-run (dispatch_route fetch options_method) e = refl
  serve-run (detect_route post_method (decoded r)) e = post_detect-Makes r e
  serve-run (detect_route post_method too_large) e = refl
  serve-run (detect_route post_method malformed) e = refl
  serve-run (detect_route get_method d) e = refl
  serve-run (detect_route delete_method d) e = refl
  serve-run (detect_route other_method d) e = refl
  serve-run (detect_route head_method d) e = refl
  serve-run (detect_route options_method d) e = refl
  serve-run (job_route m id) e = refl
  serve-run (waiting_route m) e = refl
  serve-run (stop_requests_route m) e = refl
  serve-run (health_route m) e = refl
  serve-run (replan_of_route m d) e =
      gate-Makes e.replan.enabled _ e (refuse 404) (replan_route ops m d e)
        (replan_route-Makes m d e)
  serve-run (stop_ack_of_route m d) e =
      gate-Makes e.replan.enabled _ e (refuse 404) (stop_ack_route ops m d e)
        (stop_ack_route-Makes m d e)
