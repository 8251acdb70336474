-- ===== src/Waiting.antt =====
-- The read-only view of the pending jobs (src/dispatcher/waiting.go: WaitingJobs,
-- waitReasonLocked).
pub mod Turn
use hydra_umc_job_dispatcher.Common.{
  ℕ, suc, Bool, true, false, not, ◌&&◌, Option, none, some, List, [], ◌∷◌, map, Text, eqt, is_empty,
  ◌==◌, length, if◌then◌else◌,
}
use hydra_umc_job_dispatcher.Common.Int.{ℤ}
use hydra_umc_job_dispatcher.Model.{Job, Robot}
use hydra_umc_job_dispatcher.Engine.{Engine, is_nil}
use hydra_umc_job_dispatcher.Tools.{tool_confirmed}
use hydra_umc_job_dispatcher.Dispatch.{robot_eligible, eligible_jobs}

pub data WaitReason : Type 0 where
  no_robots no_robot_with_tool robots_busy robots_stale its_turn tool_unconfirmed : WaitReason

pub record WaitingJob : Type 0 where
  pub job_id : Text
  pub priority : ℤ
  pub required_tool : Text
  pub reason : WaitReason

-- The counters of the loop.
pub record Counts : Type 0 where
  pub with_tool : ℕ
  pub available : ℕ
  pub unconfirmed : ℕ

-- `j.RequiredTool != "" && r.Tool != j.RequiredTool`
abbrev pub lacks_tool : Job → Robot → Bool
lacks_tool j r = not (is_empty j.required_tool) && not (eqt r.tool j.required_tool)

abbrev one_more : Bool → ℕ → ℕ
one_more b n = if b then suc n else n

-- The switch behind the loop.
abbrev pub reason_of_counts : Counts → WaitReason
reason_of_counts c =
    if c.with_tool == 0
    then no_robot_with_tool
    else if c.available == 0
    then robots_busy
    else if c.unconfirmed == c.available
    then tool_unconfirmed
    else robots_stale

module _ {S : Type 0} where
  abbrev pub count_robot : Engine S → Job → Robot → Counts → Counts
  count_robot e j r c = record {
    with_tool = suc c.with_tool;
    available = one_more r.available c.available;
    unconfirmed =
        one_more (r.available && not (tool_confirmed e.tool_check r j e.now)) c.unconfirmed;
  }

  -- The loop, which an eligible robot ends.
  unfoldable pub reason_from : Engine S → Job → Counts → List Robot → WaitReason
  reason_from e j c [] = reason_of_counts c
  reason_from e j c (r ∷ rs) =
      if lacks_tool j r
      then reason_from e j c rs
      else if robot_eligible e j r
      then its_turn
      else reason_from e j (count_robot e j r c) rs

  unfoldable pub wait_reason : Engine S → Job → WaitReason
  wait_reason e j =
      if is_nil e.robots
      then no_robots
      else reason_from e j (record { with_tool = 0; available = 0; unconfirmed = 0 }) e.robots

  -- WaitingJobs
  unfoldable pub waiting_jobs : Engine S → List WaitingJob
  waiting_jobs e =
      map
        (λ j. record {
          job_id = j.id;
          priority = j.priority;
          required_tool = j.required_tool;
          reason = wait_reason e j;
        })
        (eligible_jobs e.jobs)
