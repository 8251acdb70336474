-- ===== src/Api/Jobs.antt =====
-- The handlers of the jobs: /jobs, /jobs/submit, /jobs/complete, /jobs/cancel, /jobs/requeue and
-- /jobs/{id}.
use hydra_umc_job_dispatcher.Common.{
  ◌+◌, ℕ, Bool, true, false, ◌||◌, ◌&&◌, not, Option, none, some, List, [], ◌∷◌, Text, is_empty,
  ltb, if◌then◌else◌,
}
use hydra_umc_job_dispatcher.Common.Int.{ℤ, pos, pos_part, ltb_ℤ}
use hydra_umc_job_dispatcher.Model.{
  Job, JobStatus, Error, Result, ok, err, created, unknown_dep, invalid_job, unknown_job,
  unknown_robot, job_not_assigned, robot_mismatch, attempt_mismatch, job_in_flight, job_finished,
  no_archive,
}
use hydra_umc_job_dispatcher.Engine.{Engine, StoreOps}
use hydra_umc_job_dispatcher.Submit.{add_job, submit_job}
use hydra_umc_job_dispatcher.Outcome.{complete_job_attempt, cancel_job}
use hydra_umc_job_dispatcher.Requeue.{requeue_job}
use hydra_umc_job_dispatcher.Queries
use hydra_umc_job_dispatcher.Queries.{jobs_page_for}
use hydra_umc_job_dispatcher.Api.{
  Method, get_method, post_method, Decoded, decoded, Answer, refuse, not_allowed, answer,
  body_error_status, JobRequest, CompleteRequest, RequeueRequest, ListQuery, not_given, one,
  zero_flag, other_flag, job_body, jobs_body, submitted_body,
}

-- dispatcher.Job{ID: req.ID, ...}; the engine gives a new job its status, so any stands here
abbrev pub job_of_request : JobRequest → Text → Job
job_of_request r dedup_key = record {
  id = r.id;
  priority = r.priority;
  required_tool = r.required_tool;
  location = r.location;
  depends_on = r.depends_on;
  status = JobStatus.pending;
  assigned_robot = [];
  dedup_key = dedup_key;
  submitted_at_ms = pos 0;
  assigned_at_ms = pos 0;
  completed_at_ms = pos 0;
  attempt = 0;
  seq = 0;
}

-- The status of a refused submission.
abbrev pub submit_error_status : Error → ℕ
submit_error_status invalid_job = 400
submit_error_status unknown_dep = 400
submit_error_status _ = 409

-- completeJobErrorStatus
abbrev pub complete_error_status : Error → ℕ
complete_error_status unknown_job = 404
complete_error_status unknown_robot = 404
complete_error_status job_not_assigned = 409
complete_error_status robot_mismatch = 409
complete_error_status attempt_mismatch = 409
complete_error_status _ = 400

abbrev pub cancel_error_status : Error → ℕ
cancel_error_status unknown_job = 404
cancel_error_status job_in_flight = 409
cancel_error_status job_finished = 409
cancel_error_status _ = 400

abbrev pub requeue_error_status : Error → ℕ
requeue_error_status unknown_job = 404
requeue_error_status job_finished = 409
requeue_error_status robot_mismatch = 409
requeue_error_status _ = 400

-- The test on a number of the query, and its value.
abbrev pub bad_number : Bool → Option (Option ℤ) → Bool
bad_number is_limit none = false
bad_number is_limit (some none) = true
bad_number is_limit (some (some n)) = ltb_ℤ n (pos 0) || (is_limit && not (ltb_ℤ (pos 0) n))

abbrev pub number_of : Option (Option ℤ) → ℤ
number_of (some (some n)) = n
number_of _ = pos 0

abbrev pub bad_status : Option (Option JobStatus) → Bool
bad_status (some none) = true
bad_status _ = false

abbrev pub status_of : Option (Option JobStatus) → Option JobStatus
status_of (some o) = o
status_of none = none

abbrev pub is_given_status : Option (Option JobStatus) → Bool
is_given_status none = false
is_given_status (some o) = true

-- The answer to GET /jobs?archived=1, by what ArchivedPage gives
unfoldable pub list_archived : Result (List Job × ℕ) → ListQuery → Answer
list_archived page q =
    if is_given_status q.status || not (is_empty q.robot) then refuse 400 else elim page [
      | ok (jobs, total) ↦ answer 200 (jobs_body jobs total)
      | err no_archive ↦ refuse 404
      | err _ ↦ refuse 500
    ]

-- The bytes that a code point takes in UTF-8
abbrev pub bytes_of : ℕ → ℕ
bytes_of c = if ltb c 0x80 then 1 else if ltb c 0x800 then 2 else if ltb c 0x10000 then 3 else 4

-- len of a string
abbrev pub byte_length : Text → ℕ
byte_length [] = 0
byte_length (c ∷ s) = bytes_of c + byte_length s

module _ {S : Type 0} where
  unfoldable pub list_live : ListQuery → Engine S → Engine S × Answer
  list_live q e =
      let page =
        jobs_page_for q.robot (status_of q.status) (number_of q.offset) (number_of q.limit) e in
      if ltb 256 (byte_length q.robot)
      then (e, refuse 400)
      else (page.0, answer 200 (jobs_body page.1 page.2))

  -- handleListJobs
  unfoldable pub handle_list_jobs :
      (ℤ → ℤ → Result (List Job × ℕ)) → ListQuery → Engine S → Engine S × Answer
  unfolding list_live list_archived
  handle_list_jobs archived_page q e =
      if bad_status q.status
      then (e, refuse 400)
      else if bad_number true q.limit || bad_number false q.offset
      then (e, refuse 400)
      else elim q.archived [
        | other_flag ↦ (e, refuse 400)
        | one ↦ (e, list_archived (archived_page (number_of q.offset) (number_of q.limit)) q)
        | zero_flag ↦ list_live q e
        | not_given ↦ list_live q e
      ]

module _ {S : Type 0} (ops : StoreOps S) where
  unfoldable pub post_job : JobRequest → Engine S → Engine S × Answer
  post_job r e =
      let w = add_job ops (job_of_request r []) e in
      if is_empty r.id then (e, refuse 400) else elim r.refused_proposal [
        | some a ↦ (e, a)
        | none ↦ elim w.1 [
          | err x ↦ (w.0, refuse (submit_error_status x))
          | ok _ ↦ (w.0, answer 201 (job_body (Queries.job r.id w.0)))
        ]
      ]

  -- handleJobs
  unfoldable pub handle_jobs :
      (ℤ → ℤ → Result (List Job × ℕ))
      → Method
      → ListQuery
      → Decoded JobRequest
      → Engine S
      → Engine S × Answer
  unfolding handle_list_jobs post_job
  handle_jobs archived_page get_method q d e = handle_list_jobs archived_page q e
  handle_jobs archived_page post_method q (decoded r) e = post_job r e
  handle_jobs archived_page post_method q d e = (e, refuse (body_error_status d))
  handle_jobs archived_page _ q d e = (e, not_allowed (get_method ∷ post_method ∷ []))

  unfoldable pub post_submission : JobRequest → Engine S → Engine S × Answer
  post_submission r e =
      let w = submit_job ops (job_of_request r r.dedup_key) e in
      if is_empty r.id then (e, refuse 400) else elim r.refused_proposal [
        | some a ↦ (e, a)
        | none ↦ elim w.1 [
          | err x ↦ (w.0, refuse (submit_error_status x))
          | ok (stored, created) ↦ (w.0, answer 201 (submitted_body stored created))
          | ok (stored, result) ↦ (w.0, answer 200 (submitted_body stored result))
        ]
      ]

  -- handleSubmitJob
  unfoldable pub handle_submit_job : Method → Decoded JobRequest → Engine S → Engine S × Answer
  unfolding post_submission
  handle_submit_job post_method (decoded r) e = post_submission r e
  handle_submit_job post_method d e = (e, refuse (body_error_status d))
  handle_submit_job _ d e = (e, not_allowed (post_method ∷ []))

  unfoldable pub post_completion : CompleteRequest → Engine S → Engine S × Answer
  post_completion r e =
      let w = complete_job_attempt ops r.id r.success r.robot_id (pos_part r.attempt) e in
      if is_empty r.robot_id
      then (e, refuse 400)
      else if ltb_ℤ r.attempt (pos 0)
      then (e, refuse 400)
      else elim w.1 [
        | err x ↦ (w.0, refuse (complete_error_status x))
        | ok _ ↦ (w.0, answer 200 (job_body (Queries.job r.id w.0)))
      ]

  -- handleCompleteJob
  unfoldable pub handle_complete_job :
      Method → Decoded CompleteRequest → Engine S → Engine S × Answer
  unfolding post_completion
  handle_complete_job post_method (decoded r) e = post_completion r e
  handle_complete_job post_method d e = (e, refuse (body_error_status d))
  handle_complete_job _ d e = (e, not_allowed (post_method ∷ []))

  unfoldable pub post_cancel : Text → Engine S → Engine S × Answer
  post_cancel id e =
      let w = cancel_job ops id e in
      if is_empty id then (e, refuse 400) else elim w.1 [
        | err x ↦ (w.0, refuse (cancel_error_status x))
        | ok _ ↦ (w.0, answer 200 (job_body (Queries.job id w.0)))
      ]

  -- handleCancelJob
  unfoldable pub handle_cancel_job : Method → Decoded Text → Engine S → Engine S × Answer
  unfolding post_cancel
  handle_cancel_job post_method (decoded id) e = post_cancel id e
  handle_cancel_job post_method d e = (e, refuse (body_error_status d))
  handle_cancel_job _ d e = (e, not_allowed (post_method ∷ []))

  unfoldable pub post_requeue : RequeueRequest → Engine S → Engine S × Answer
  post_requeue r e =
      let w = requeue_job ops r.id r.robot_id e in
      if is_empty r.id then (e, refuse 400) else elim w.1 [
        | err x ↦ (w.0, refuse (requeue_error_status x))
        | ok _ ↦ (w.0, answer 200 (job_body (Queries.job r.id w.0)))
      ]

  -- handleRequeueJob
  unfoldable pub handle_requeue_job : Method → Decoded RequeueRequest → Engine S → Engine S × Answer
  unfolding post_requeue
  handle_requeue_job post_method (decoded r) e = post_requeue r e
  handle_requeue_job post_method d e = (e, refuse (body_error_status d))
  handle_requeue_job _ d e = (e, not_allowed (post_method ∷ []))

-- handleJobByID
unfoldable pub handle_job_by_id : {S : Type 0} → Method → Text → Engine S → Answer
handle_job_by_id get_method id e =
    if is_empty id
    then refuse 404
    else elim (Queries.job id e) [ none ↦ refuse 404 | some j ↦ answer 200 (job_body (some j)) ]
handle_job_by_id _ id e = not_allowed (get_method ∷ [])
