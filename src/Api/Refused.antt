-- ===== src/Api/Refused.antt =====
-- A request that is refused leaves the jobs and the robots as they were.
use hydra_umc_job_dispatcher.Common.{
  arith, ℕ, ◌≤◌, ◌≡◌, refl, inl, inr, true, false, ◌||◌, not, none, some, List, [], Text, is_empty,
  ltb, Bool-cases, Option-cases,
}
use hydra_umc_job_dispatcher.Common.Int.{ℤ, pos, pos_part, ltb_ℤ}
use hydra_umc_job_dispatcher.Model.{Job, Result, Result-cases, created, duplicate, retried}
use hydra_umc_job_dispatcher.Engine.{Engine, StoreOps}
use hydra_umc_job_dispatcher.Registry.{RobotUpdate, remove_robot}
use hydra_umc_job_dispatcher.Submit.{add_job, submit_job}
use hydra_umc_job_dispatcher.Outcome.{complete_job_attempt, cancel_job}
use hydra_umc_job_dispatcher.Requeue.{requeue_job, replan_robot}
use hydra_umc_job_dispatcher.Stale.{ack_stop}
use hydra_umc_job_dispatcher.Api.{
  Answer, Method, get_method, post_method, delete_method, head_method, options_method, other_method,
  Decoded, too_large, malformed, decoded, JobRequest, CompleteRequest, RequeueRequest,
  DetectRequest, StopAckRequest, ListQuery, ArchivedFlag, not_given, one, zero_flag, other_flag,
}
use hydra_umc_job_dispatcher.Api.Jobs.{
  job_of_request, bad_status, bad_number, list_live, byte_length, handle_list_jobs, post_job,
  handle_jobs, post_submission, handle_submit_job, post_completion, handle_complete_job,
  post_cancel, handle_cancel_job, post_requeue, handle_requeue_job,
}
use hydra_umc_job_dispatcher.Api.Robots.{
  post_robot, handle_robots, delete_robot, handle_robot_by_id, handle_dispatch, post_detect,
  handle_detect_stale, post_replan, replan_route, handle_replan, post_stop_ack, stop_ack_route,
  handle_stop_ack,
}
use hydra_umc_job_dispatcher.Api.Routes.{
  Request, jobs_route, submit_route, complete_route, cancel_route, requeue_route, robots_route,
  robot_route, dispatch_route, detect_route, replan_of_route, stop_ack_of_route, job_route,
  health_route, waiting_route, stop_requests_route, serve,
}
use hydra_umc_job_dispatcher.Api.Failing.{
  IsUntouched, add_job-IsSafe, submit_job-IsSafe, complete_job_attempt-IsSafe, cancel_job-IsSafe,
  requeue_job-IsSafe, replan_robot-IsSafe, remove_robot-IsSafe, ack_stop-IsSafe,
}

-- With a status of 400 or above, nothing has been touched.
abbrev pub IsMild : {S : Type 0} → Engine S × Answer → Engine S → Type 0
IsMild out e = 400 ≤ out.1.status → IsUntouched out.0 e

succeeded : ¬ (400 ≤ 200)
succeeded h = absurd (omega arith)

created_ok : ¬ (400 ≤ 201)
created_ok h = absurd (omega arith)

module _ {S : Type 0} (ops : StoreOps S) where
  list_live-IsMild : (q : ListQuery) (e : Engine S) → IsMild (list_live q e) e
  unfolding list_live
  list_live-IsMild q e = elim (Bool-cases (ltb 256 (byte_length q.robot))) [
    | inl t ↦ rw t (λ h. (refl, refl))
    | inr t ↦ rw t (λ h. absurd (succeeded h))
  ]

  handle_list_jobs-IsMild :
      (p : ℤ → ℤ → Result (List Job × ℕ)) (q : ListQuery) (e : Engine S)
      → IsMild (handle_list_jobs p q e) e
  unfolding handle_list_jobs
  handle_list_jobs-IsMild p q e = elim (Bool-cases (bad_status q.status)) [
    | inl t ↦ rw t (λ h. (refl, refl))
    | inr t ↦ elim (Bool-cases (bad_number true q.limit || bad_number false q.offset)) [
      | inl u ↦ rw (t, u) (λ h. (refl, refl))
      | inr u ↦ by_flag t u q.archived refl
    ]
  ]
    where
      by_flag :
          bad_status q.status ≡ false
          → bad_number true q.limit || bad_number false q.offset ≡ false
          → (a : ArchivedFlag) → q.archived ≡ a
          → IsMild (handle_list_jobs p q e) e
      by_flag t u not_given f = rw (t, u, f) (list_live-IsMild q e)
      by_flag t u zero_flag f = rw (t, u, f) (list_live-IsMild q e)
      by_flag t u one f = rw (t, u, f) (λ h. (refl, refl))
      by_flag t u other_flag f = rw (t, u, f) (λ h. (refl, refl))

  post_job-IsMild : (r : JobRequest) (e : Engine S) → IsMild (post_job ops r e) e
  unfolding post_job
  post_job-IsMild r e = elim (Bool-cases (is_empty r.id)) [
    | inl t ↦ rw t (λ h. (refl, refl))
    | inr t ↦ elim (Option-cases r.refused_proposal) [
      | inr (a, p) ↦ rw (t, p, post_job) (λ h. (refl, refl))
      | inl p ↦ elim (Result-cases (add_job ops (job_of_request r []) e).1) [
        | inl (x, w) ↦ rw (t, p, w, post_job) (λ h. absurd (created_ok h))
        | inr (x, w) ↦ rw (t, p, w, post_job) (λ h. add_job-IsSafe ops (job_of_request r []) e x w)
      ]
    ]
  ]

  post_submission-IsMild : (r : JobRequest) (e : Engine S) → IsMild (post_submission ops r e) e
  unfolding post_submission
  post_submission-IsMild r e = elim (Bool-cases (is_empty r.id)) [
    | inl t ↦ rw t (λ h. (refl, refl))
    | inr t ↦ elim (Option-cases r.refused_proposal) [
      | inr (a, p) ↦ rw (t, p, post_submission) (λ h. (refl, refl))
      | inl p ↦ elim (Result-cases (submit_job ops (job_of_request r r.dedup_key) e).1) [
        | inr (x, w) ↦
            rw (t, p, w, post_submission)
              (λ h. submit_job-IsSafe ops (job_of_request r r.dedup_key) e x w)
        | inl ((j, created), w) ↦ rw (t, p, w, post_submission) (λ h. absurd (created_ok h))
        | inl ((j, duplicate), w) ↦ rw (t, p, w, post_submission) (λ h. absurd (succeeded h))
        | inl ((j, retried), w) ↦ rw (t, p, w, post_submission) (λ h. absurd (succeeded h))
      ]
    ]
  ]

  post_completion-IsMild : (r : CompleteRequest) (e : Engine S) → IsMild (post_completion ops r e) e
  unfolding post_completion
  post_completion-IsMild r e = elim (Bool-cases (is_empty r.robot_id)) [
    | inl t ↦ rw t (λ h. (refl, refl))
    | inr t ↦ elim (Bool-cases (ltb_ℤ r.attempt (pos 0))) [
      | inl n ↦ rw (t, n) (λ h. (refl, refl))
      | inr n ↦
          elim (Result-cases
            (complete_job_attempt ops r.id r.success r.robot_id (pos_part r.attempt) e).1) [
              | inl (x, w) ↦ rw (t, n, w, post_completion) (λ h. absurd (succeeded h))
              | inr (x, w) ↦
                  rw (t, n, w, post_completion)
                    (λ h.
                      complete_job_attempt-IsSafe ops r.id r.success r.robot_id (pos_part r.attempt)
                        e x w)
            ]
    ]
  ]

  post_cancel-IsMild : (id : Text) (e : Engine S) → IsMild (post_cancel ops id e) e
  unfolding post_cancel
  post_cancel-IsMild id e = elim (Bool-cases (is_empty id)) [
    | inl t ↦ rw t (λ h. (refl, refl))
    | inr t ↦ elim (Result-cases (cancel_job ops id e).1) [
      | inl (x, w) ↦ rw (t, w, post_cancel) (λ h. absurd (succeeded h))
      | inr (x, w) ↦ rw (t, w, post_cancel) (λ h. cancel_job-IsSafe ops id e x w)
    ]
  ]

  post_requeue-IsMild : (r : RequeueRequest) (e : Engine S) → IsMild (post_requeue ops r e) e
  unfolding post_requeue
  post_requeue-IsMild r e = elim (Bool-cases (is_empty r.id)) [
    | inl t ↦ rw t (λ h. (refl, refl))
    | inr t ↦ elim (Result-cases (requeue_job ops r.id r.robot_id e).1) [
      | inl (x, w) ↦ rw (t, w, post_requeue) (λ h. absurd (succeeded h))
      | inr (x, w) ↦ rw (t, w, post_requeue) (λ h. requeue_job-IsSafe ops r.id r.robot_id e x w)
    ]
  ]

  post_robot-IsMild : (u : RobotUpdate) (e : Engine S) → IsMild (post_robot ops u e) e
  unfolding post_robot
  post_robot-IsMild u e = elim (Bool-cases (is_empty u.id)) [
    | inl t ↦ rw t (λ h. (refl, refl))
    | inr t ↦ rw t (λ h. absurd (succeeded h))
  ]

  delete_robot-IsMild : (id : Text) (e : Engine S) → IsMild (delete_robot ops id e) e
  unfolding delete_robot
  delete_robot-IsMild id e = elim (Bool-cases (is_empty id)) [
    | inl t ↦ rw t (λ h. (refl, refl))
    | inr t ↦ elim (Result-cases (remove_robot ops id e).1) [
      | inl (x, w) ↦ rw (t, w, delete_robot) (λ h. absurd (succeeded h))
      | inr (x, w) ↦ rw (t, w, delete_robot) (λ h. remove_robot-IsSafe ops id e x w)
    ]
  ]

  post_detect-IsMild : (r : DetectRequest) (e : Engine S) → IsMild (post_detect ops r e) e
  unfolding post_detect
  post_detect-IsMild r e = elim (Bool-cases (not r.is_positive)) [
    | inl t ↦ rw t (λ h. (refl, refl))
    | inr t ↦ rw t (λ h. absurd (succeeded h))
  ]

  post_replan-IsMild : (id : Text) (e : Engine S) → IsMild (post_replan ops id e) e
  unfolding post_replan
  post_replan-IsMild id e = elim (Bool-cases (is_empty id)) [
    | inl t ↦ rw t (λ h. (refl, refl))
    | inr t ↦ elim (Result-cases (replan_robot ops id e).1) [
      | inl (x, w) ↦ rw (t, w, post_replan) (λ h. absurd (succeeded h))
      | inr (x, w) ↦ rw (t, w, post_replan) (λ h. replan_robot-IsSafe ops id e x w)
    ]
  ]

  post_stop_ack-IsMild : (r : StopAckRequest) (e : Engine S) → IsMild (post_stop_ack ops r e) e
  unfolding post_stop_ack
  post_stop_ack-IsMild r e = elim (Bool-cases (is_empty r.robot_id || is_empty r.job_id)) [
    | inl t ↦ rw t (λ h. (refl, refl))
    | inr t ↦ elim (Result-cases (ack_stop ops r.robot_id r.job_id e).1) [
      | inl (x, w) ↦ rw (t, w, post_stop_ack) (λ h. absurd (succeeded h))
      | inr (x, w) ↦ rw (t, w, post_stop_ack) (λ h. ack_stop-IsSafe ops r.robot_id r.job_id e x w)
    ]
  ]

  replan_route-IsMild :
      (m : Method) (d : Decoded Text) (e : Engine S) → IsMild (replan_route ops m d e) e
  unfolding replan_route
  replan_route-IsMild post_method (decoded id) e = post_replan-IsMild id e
  replan_route-IsMild post_method too_large e = λ h. (refl, refl)
  replan_route-IsMild post_method malformed e = λ h. (refl, refl)
  replan_route-IsMild get_method d e = λ h. (refl, refl)
  replan_route-IsMild delete_method d e = λ h. (refl, refl)
  replan_route-IsMild other_method d e = λ h. (refl, refl)
  replan_route-IsMild head_method d e = λ h. (refl, refl)
  replan_route-IsMild options_method d e = λ h. (refl, refl)

  stop_ack_route-IsMild :
      (m : Method) (d : Decoded StopAckRequest) (e : Engine S) → IsMild (stop_ack_route ops m d e) e
  unfolding stop_ack_route
  stop_ack_route-IsMild post_method (decoded r) e = post_stop_ack-IsMild r e
  stop_ack_route-IsMild post_method too_large e = λ h. (refl, refl)
  stop_ack_route-IsMild post_method malformed e = λ h. (refl, refl)
  stop_ack_route-IsMild get_method d e = λ h. (refl, refl)
  stop_ack_route-IsMild delete_method d e = λ h. (refl, refl)
  stop_ack_route-IsMild other_method d e = λ h. (refl, refl)
  stop_ack_route-IsMild head_method d e = λ h. (refl, refl)
  stop_ack_route-IsMild options_method d e = λ h. (refl, refl)

  -- A request that is answered with a status of 400 or above leaves the jobs and the robots of the
  -- queue as they were.
  pub serve-refused :
      (r : Request) (e : Engine S)
      → 400 ≤ (serve ops r e).1.status
      → IsUntouched (serve ops r e).0 e
  unfolding serve handle_jobs handle_submit_job handle_complete_job handle_cancel_job
      handle_requeue_job handle_robots handle_robot_by_id handle_dispatch handle_detect_stale
      handle_replan handle_stop_ack
  serve-refused (jobs_route p get_method q d) e = handle_list_jobs-IsMild p q e
  serve-refused (jobs_route p post_method q (decoded r)) e = post_job-IsMild r e
  serve-refused (jobs_route p post_method q too_large) e = λ h. (refl, refl)
  serve-refused (jobs_route p post_method q malformed) e = λ h. (refl, refl)
  serve-refused (jobs_route p delete_method q d) e = λ h. (refl, refl)
  serve-refused (jobs_route p other_method q d) e = λ h. (refl, refl)
  serve-refused (jobs_route p head_method q d) e = λ h. (refl, refl)
  serve-refused (jobs_route p options_method q d) e = λ h. (refl, refl)
  serve-refused (submit_route post_method (decoded r)) e = post_submission-IsMild r e
  serve-refused (submit_route post_method too_large) e = λ h. (refl, refl)
  serve-refused (submit_route post_method malformed) e = λ h. (refl, refl)
  serve-refused (submit_route get_method d) e = λ h. (refl, refl)
  serve-refused (submit_route delete_method d) e = λ h. (refl, refl)
  serve-refused (submit_route other_method d) e = λ h. (refl, refl)
  serve-refused (submit_route head_method d) e = λ h. (refl, refl)
  serve-refused (submit_route options_method d) e = λ h. (refl, refl)
  serve-refused (complete_route post_method (decoded r)) e = post_completion-IsMild r e
  serve-refused (complete_route post_method too_large) e = λ h. (refl, refl)
  serve-refused (complete_route post_method malformed) e = λ h. (refl, refl)
  serve-refused (complete_route get_method d) e = λ h. (refl, refl)
  serve-refused (complete_route delete_method d) e = λ h. (refl, refl)
  serve-refused (complete_route other_method d) e = λ h. (refl, refl)
  serve-refused (complete_route head_method d) e = λ h. (refl, refl)
  serve-refused (complete_route options_method d) e = λ h. (refl, refl)
  serve-refused (cancel_route post_method (decoded id)) e = post_cancel-IsMild id e
  serve-refused (cancel_route post_method too_large) e = λ h. (refl, refl)
  serve-refused (cancel_route post_method malformed) e = λ h. (refl, refl)
  serve-refused (cancel_route get_method d) e = λ h. (refl, refl)
  serve-refused (cancel_route delete_method d) e = λ h. (refl, refl)
  serve-refused (cancel_route other_method d) e = λ h. (refl, refl)
  serve-refused (cancel_route head_method d) e = λ h. (refl, refl)
  serve-refused (cancel_route options_method d) e = λ h. (refl, refl)
  serve-refused (requeue_route post_method (decoded r)) e = post_requeue-IsMild r e
  serve-refused (requeue_route post_method too_large) e = λ h. (refl, refl)
  serve-refused (requeue_route post_method malformed) e = λ h. (refl, refl)
  serve-refused (requeue_route get_method d) e = λ h. (refl, refl)
  serve-refused (requeue_route delete_method d) e = λ h. (refl, refl)
  serve-refused (requeue_route other_method d) e = λ h. (refl, refl)
  serve-refused (requeue_route head_method d) e = λ h. (refl, refl)
  serve-refused (requeue_route options_method d) e = λ h. (refl, refl)
  serve-refused (robots_route get_method d) e = λ h. (refl, refl)
  serve-refused (robots_route post_method (decoded u)) e = post_robot-IsMild u e
  serve-refused (robots_route post_method too_large) e = λ h. (refl, refl)
  serve-refused (robots_route post_method malformed) e = λ h. (refl, refl)
  serve-refused (robots_route delete_method d) e = λ h. (refl, refl)
  serve-refused (robots_route other_method d) e = λ h. (refl, refl)
  serve-refused (robots_route head_method d) e = λ h. (refl, refl)
  serve-refused (robots_route options_method d) e = λ h. (refl, refl)
  serve-refused (robot_route delete_method none) e = λ h. (refl, refl)
  serve-refused (robot_route delete_method (some id)) e = delete_robot-IsMild id e
  serve-refused (robot_route get_method id) e = λ h. (refl, refl)
  serve-refused (robot_route post_method id) e = λ h. (refl, refl)
  serve-refused (robot_route other_method id) e = λ h. (refl, refl)
  serve-refused (robot_route head_method id) e = λ h. (refl, refl)
  serve-refused (robot_route options_method id) e = λ h. (refl, refl)
  serve-refused (dispatch_route fetch post_method) e = λ h. absurd (succeeded h)
  serve-refused (dispatch_route fetch get_method) e = λ h. (refl, refl)
  serve-refused (dispatch_route fetch delete_method) e = λ h. (refl, refl)
  serve-refused (dispatch_route fetch other_method) e = λ h. (refl, refl)
  serve-refused (dispatch_route fetch head_method) e = λ h. (refl, refl)
  serve-refused (dispatch_route fetch options_method) e = λ h. (refl, refl)
  serve-refused (detect_route post_method (decoded r)) e = post_detect-IsMild r e
  serve-refused (detect_route post_method too_large) e = λ h. (refl, refl)
  serve-refused (detect_route post_method malformed) e = λ h. (refl, refl)
  serve-refused (detect_route get_method d) e = λ h. (refl, refl)
  serve-refused (detect_route delete_method d) e = λ h. (refl, refl)
  serve-refused (detect_route other_method d) e = λ h. (refl, refl)
  serve-refused (detect_route head_method d) e = λ h. (refl, refl)
  serve-refused (detect_route options_method d) e = λ h. (refl, refl)
  serve-refused (job_route m id) e = λ h. (refl, refl)
  serve-refused (waiting_route m) e = λ h. (refl, refl)
  serve-refused (stop_requests_route m) e = λ h. (refl, refl)
  serve-refused (health_route m) e = λ h. (refl, refl)
  serve-refused (replan_of_route m d) e = elim (Bool-cases (not e.replan.enabled)) [
    | inl t ↦ rw t (λ h. (refl, refl))
    | inr t ↦ rw t (replan_route-IsMild m d e)
  ]
  serve-refused (stop_ack_of_route m d) e = elim (Bool-cases (not e.replan.enabled)) [
    | inl t ↦ rw t (λ h. (refl, refl))
    | inr t ↦ rw t (stop_ack_route-IsMild m d e)
  ]
