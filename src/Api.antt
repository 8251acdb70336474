-- ===== src/Api.antt =====
-- The routes of the HTTP interface that read or change the queue (src/api/api.go). What the decoder,
-- the URL and the query string give is the argument of a handler, and its answer is a status and what
-- is written as the body. The proposal check (src/api/proposal_gate.go) and the archive's pages are
-- arguments as well. A handler that reads after it has written does so before the next call.
pub mod Jobs
pub mod Robots
pub mod Routes
pub mod Calls
pub mod Served
pub mod Failing
pub mod Refused
pub mod Sound
pub mod Entry
pub mod Admitted
use hydra_umc_job_dispatcher.Common.{ℕ, Bool, true, false, Option, none, some, List, [], ◌∷◌, Text}
use hydra_umc_job_dispatcher.Common.Int.{ℤ}
use hydra_umc_job_dispatcher.Time.{Duration}
use hydra_umc_job_dispatcher.Model.{Job, JobStatus, Robot, Assignment, Error, SubmitResult}
use hydra_umc_job_dispatcher.Waiting.{WaitingJob}
use hydra_umc_job_dispatcher.Queries.{StopView}

pub data Method : Type 0 where
  get_method head_method options_method post_method delete_method other_method : Method

-- What json.Decode gives: the body was over the limit, was no such object, or was one.
pub data Decoded (A : Type 0) : Type 0 where
  too_large malformed : Decoded A
  decoded : A → Decoded A

pub data Body : Type 0 where
  refusal : Body
  job_body : Option Job → Body
  jobs_body : List Job → ℕ → Body
  submitted_body : Job → SubmitResult → Body
  robots_body : List Robot → Body
  assignments_body : List Assignment → Body
  stale_body : List Text → Option (List Text × List Text) → Body
  requeued_body : List Text → Body
  health_body : Bool → Body
  waiting_body : List WaitingJob → Body
  stop_body : List StopView → Body

pub record Answer : Type 0 where
  pub status : ℕ
  pub allow : List Method
  pub body : Body

-- writeError, and http.NotFound
abbrev pub refuse : ℕ → Answer
refuse status = record { status = status; allow = []; body = refusal }

abbrev pub not_allowed : List Method → Answer
not_allowed allow = record { status = 405; allow = allow; body = refusal }

-- writeJSON
abbrev pub answer : ℕ → Body → Answer
answer status body = record { status = status; allow = []; body = body }

-- bodyErrorStatus
abbrev pub body_error_status : {A : Type 0} → Decoded A → ℕ
body_error_status too_large = 413
body_error_status malformed = 400
body_error_status (decoded a) = 400

-- jobRequest and submitRequest, with what checkProposal answers: `none` lets the job pass.
pub record JobRequest : Type 0 where
  pub id : Text
  pub priority : ℤ
  pub required_tool : Text
  pub location : Text
  pub depends_on : List Text
  pub dedup_key : Text
  pub refused_proposal : Option Answer

pub record CompleteRequest : Type 0 where
  pub id : Text
  pub success : Bool
  pub robot_id : Text
  pub attempt : ℤ

pub record RequeueRequest : Type 0 where
  pub id : Text
  pub robot_id : Text

-- `TimeoutSeconds > 0`, and the duration that it is
pub record DetectRequest : Type 0 where
  pub is_positive : Bool
  pub timeout : Duration

pub record StopAckRequest : Type 0 where
  pub robot_id : Text
  pub job_id : Text

-- ?archived=
pub data ArchivedFlag : Type 0 where
  not_given one zero_flag other_flag : ArchivedFlag

-- The query of GET /jobs. In `some none` the parameter was given and is no status, or no number.
pub record ListQuery : Type 0 where
  pub status : Option (Option JobStatus)
  pub limit : Option (Option ℤ)
  pub offset : Option (Option ℤ)
  pub archived : ArchivedFlag
  pub robot : Text
