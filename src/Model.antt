-- ===== src/Model.antt =====
-- The data of the queue (src/dispatcher/dispatcher.go, and the configuration records of
-- tools.go, location.go, replan.go, stopconfirm.go and toolconfirm.go). The counters of the
-- program (Load, Attempt, the submission order) rise by one at a time and are not bounded here.
use hydra_umc_job_dispatcher.Common.{
  ℕ, ◌≡◌, refl, ◌⊎◌, inl, inr, Bool, true, false, ◌||◌, List, [], ◌∷◌, ◌++◌, Text, eqt,
  if◌then◌else◌,
}
use hydra_umc_job_dispatcher.Common.Int.{ℤ}
use hydra_umc_job_dispatcher.Time.{Instant, Duration}

pub data JobStatus : Type 0 where
  pending blocked assigned done failed unreachable unknown cancelled : JobStatus

pub JobStatus-discrete : Discrete JobStatus
JobStatus-discrete = hlevel

abbrev pub is_pending : JobStatus → Bool
is_pending pending = true
is_pending _ = false

abbrev pub is_assigned : JobStatus → Bool
is_assigned assigned = true
is_assigned _ = false

abbrev pub is_unknown : JobStatus → Bool
is_unknown unknown = true
is_unknown _ = false

abbrev pub is_done : JobStatus → Bool
is_done done = true
is_done _ = false

-- A job of which a robot may be executing the work.
abbrev pub is_in_flight : JobStatus → Bool
is_in_flight s = is_assigned s || is_unknown s

-- Job, with the unexported `seq`; it is also the JobRecord that a Store persists.
pub record Job : Type 0 where
  pub id : Text
  pub priority : ℤ
  pub required_tool : Text
  pub location : Text
  pub depends_on : List Text
  pub status : JobStatus
  pub assigned_robot : Text
  pub dedup_key : Text
  pub submitted_at_ms : ℤ
  pub assigned_at_ms : ℤ
  pub completed_at_ms : ℤ
  pub attempt : ℕ
  pub seq : ℕ

abbrev pub job_key : Job → Text
job_key j = j.id

pub data SubmitResult : Type 0 where
  created duplicate retried : SubmitResult

pub record Robot : Type 0 where
  pub id : Text
  pub location : Text
  pub tool : Text
  pub available : Bool
  pub load : ℕ
  pub stop_capable : Bool
  pub self_reported_unavailable : Bool
  pub last_heartbeat : Instant

abbrev pub robot_key : Robot → Text
robot_key r = r.id

pub record Assignment : Type 0 where
  pub job_id : Text
  pub robot_id : Text

-- The sentinel errors, without the text that `%w` wraps round them, and an error of the store.
pub data Error : Type 0 where
  job_exists unknown_dep unknown_job unknown_robot job_not_assigned : Error
  job_in_flight job_finished robot_mismatch robot_busy attempt_mismatch invalid_job : Error
  replan_off no_stop_request no_archive : Error
  store_error : ℕ → Error

-- A Go pair (value, error) of which exactly one counts.
pub data Result {ℓ} (A : Type ℓ) : Type ℓ where
  ok : A → Result A
  err : Error → Result A

pub Result-cases {ℓ} :
    {A : Type ℓ} (r : Result A) → ((a : A) × (r ≡ ok a)) ⊎ ((x : Error) × (r ≡ err x))
Result-cases (ok a) = inl (a, refl)
Result-cases (err x) = inr (x, refl)

-- dedupIndex: DedupKey -> JobID
pub record DedupEntry : Type 0 where
  pub dedup_key : Text
  pub job_id : Text

abbrev pub dedup_entry_key : DedupEntry → Text
dedup_entry_key d = d.dedup_key

-- heldBy: robot -> the ids of the jobs that name it
pub record Holding : Type 0 where
  pub robot_id : Text
  pub job_ids : List Text

abbrev pub holding_key : Holding → Text
holding_key h = h.robot_id

-- ToolCatalog: the known names, and the names already warned about.
pub record ToolCatalog : Type 0 where
  pub known : List Text
  pub warned : List Text

-- A valid table holds finite costs that are not negative. Each is a multiple of the smallest
-- positive float64, and stands here as that multiple.
pub record CostEntry : Type 0 where
  pub start : Text
  pub target : Text
  pub cost : ℕ

pub record LocationConfig : Type 0 where
  pub enabled : Bool
  pub costs : List CostEntry

pub record ReplanConfig : Type 0 where
  pub enabled : Bool
  pub on_stale : Bool
  pub on_fault : Bool
  pub stop_ack_timeout : Duration
  pub allow_unconfirmed : Bool

-- stopRequest, with the job that it is about.
pub record StopRequest : Type 0 where
  pub job_id : Text
  pub robot_id : Text
  pub attempt : ℕ
  pub at : Instant
  pub timeout_at : Instant
  pub expired : Bool

abbrev pub stop_request_key : StopRequest → Text
stop_request_key q = q.job_id

-- UnconfirmedSkip, UnconfirmedAllow
pub data OnUnconfirmed : Type 0 where
  skip allow : OnUnconfirmed

abbrev pub is_allow : OnUnconfirmed → Bool
is_allow allow = true
is_allow skip = false

-- toolSeen, with the robot that was asked.
pub record ToolSeen : Type 0 where
  pub robot_id : Text
  pub tool : Text
  pub at : Instant

abbrev pub tool_seen_key : ToolSeen → Text
tool_seen_key s = s.robot_id

pub record ToolConfirmation : Type 0 where
  pub enabled : Bool
  pub ttl : Duration
  pub on_unconfirmed : OnUnconfirmed
  pub seen : List ToolSeen

-- pendingWrites: the maps hold pointers, so the ids stand for the values at the commit.
pub record PendingWrites : Type 0 where
  pub job_ids : List Text
  pub robot_ids : List Text

-- Tests on lists of ids.
unfoldable pub mem_text : Text → List Text → Bool
mem_text a [] = false
mem_text a (b ∷ bs) = eqt b a || mem_text a bs

-- set[a] = struct{}{}
unfoldable pub add_text : Text → List Text → List Text
unfolding mem_text
add_text a bs = if mem_text a bs then bs else bs ++ a ∷ []
