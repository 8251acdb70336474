-- ===== src/Queries.antt =====
-- The reads that the handlers answer from (src/dispatcher/dispatcher.go: Job, Jobs, Robots,
-- JobsPage, JobsPageFor; src/dispatcher/stopconfirm.go: StopRequests;
-- src/dispatcher/state.go: State).
pub mod Paging
use hydra_umc_job_dispatcher.Common.{
  ℕ, zero, suc, Bool, true, false, ◌&&◌, ◌||◌, not, Option, none, some, List, [], ◌∷◌, map, Text,
  eqt, ltt, is_empty, ltb, length, select, sort_by, if◌then◌else◌, ite,
}
use hydra_umc_job_dispatcher.Common.Int.{ℤ, pos_part}
use hydra_umc_job_dispatcher.Common.Keyed.{find}
use hydra_umc_job_dispatcher.Time.{unix_milli}
use hydra_umc_job_dispatcher.Events.{drop}
use hydra_umc_job_dispatcher.Model.{
  Job, JobStatus, JobStatus-discrete, Robot, StopRequest, job_key, is_in_flight, is_assigned,
}
use hydra_umc_job_dispatcher.Engine.{Engine}
use hydra_umc_job_dispatcher.Held.{jobs_held_by}

abbrev pub take : {A : Type 0} → ℕ → List A → List A
take zero xs = []
take (suc n) [] = []
take (suc n) (x ∷ xs) = x ∷ take n xs

-- `status == "" || j.Status == status`
abbrev has_status : Option JobStatus → Job → Bool
has_status none j = true
has_status (some s) j = ite (JobStatus-discrete j.status s) true false

-- The piece of a list from `offset` on, at most `limit` long; a limit of 0 is none, and an offset
-- behind the end is the end.
unfoldable pub piece : ℤ → ℤ → List Job → List Job
piece offset limit matching =
    let total = length matching in
    let start = if ltb total (pos_part offset) then total else pos_part offset in
    let rest = drop start matching in
    if ltb 0 (pos_part limit) && ltb (pos_part limit) (length rest)
    then take (pos_part limit) rest
    else rest

-- StopRequest, the exported view of a request
pub record StopView : Type 0 where
  pub job_id : Text
  pub robot_id : Text
  pub requested_at_ms : ℤ
  pub expired : Bool

module _ {S : Type 0} where
  -- Job
  abbrev pub job : Text → Engine S → Option Job
  job id e = find job_key id e.jobs

  -- Jobs
  abbrev pub jobs : Engine S → List Job
  jobs e = sort_by (λ a b. ltb a.seq b.seq) e.jobs

  -- Robots
  abbrev pub robots : Engine S → List Robot
  robots e = sort_by (λ a b. ltt a.id b.id) e.robots

  -- JobsPageFor, with the engine after the pruning that the lookup by robot does.
  unfoldable pub jobs_page_for :
      Text → Option JobStatus → ℤ → ℤ → Engine S → Engine S × List Job × ℕ
  jobs_page_for robot status offset limit e =
      let held = jobs_held_by robot e in
      let candidates = if is_empty robot then e.jobs else held.0 in
      let matching = sort_by (λ a b. ltb a.seq b.seq) (select (has_status status) candidates) in
      (held.1, piece offset limit matching, length matching)

  -- JobsPage
  abbrev pub jobs_page : Option JobStatus → ℤ → ℤ → Engine S → Engine S × List Job × ℕ
  jobs_page status offset limit e = jobs_page_for [] status offset limit e

  -- `ok && (assigned or unknown) && j.AssignedRobot == r.robotID`
  abbrev is_open : Engine S → StopRequest → Bool
  is_open e q = elim (find job_key q.job_id e.jobs) [
    | none ↦ false
    | some j ↦ is_in_flight j.status && eqt j.assigned_robot q.robot_id
  ]

  -- StopRequests
  unfoldable pub stop_requests : Engine S → List StopView
  stop_requests e =
      sort_by (λ a b. ltt a.job_id b.job_id)
        (map
          (λ q. record {
            job_id = q.job_id;
            robot_id = q.robot_id;
            requested_at_ms = unix_milli q.at;
            expired = q.expired;
          })
          (select (is_open e) e.stop_req))

  -- State: the jobs in each status, and the ids that a robot holds, in submission order.
  unfoldable pub count_status : JobStatus → Engine S → ℕ
  count_status s e = length (select (has_status (some s)) e.jobs)

  unfoldable pub held_by_robot : Text → Engine S → List Text
  held_by_robot robot e = map job_key (
      sort_by (λ a b. ltb a.seq b.seq)
        (select
          (λ j.
            is_assigned j.status && not (is_empty j.assigned_robot) && eqt j.assigned_robot robot)
          e.jobs))
