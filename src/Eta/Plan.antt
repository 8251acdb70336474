-- ===== src/Eta/Plan.antt =====
-- planLocked: the jobs that have not ended, laid out in time.
use hydra_umc_job_dispatcher.Common.{
  ℕ, zero, suc, ◌+◌, Bool, true, false, ◌&&◌, ◌||◌, not, Option, none, some, List, [], ◌∷◌, ◌++◌,
  Text, eqt, is_empty, ltb, length, select, sort_by, if◌then◌else◌,
}
use hydra_umc_job_dispatcher.Common.Int.{ℤ, pos, ltb_ℤ, ◌+ℤ◌}
use hydra_umc_job_dispatcher.Common.Keyed.{find, put, update}
use hydra_umc_job_dispatcher.Time.{is_zero, heartbeat_from_future, unix_milli}
use hydra_umc_job_dispatcher.Model.{
  Job, JobStatus, Robot, job_key, robot_key, mem_text, is_assigned, is_unknown,
}
use hydra_umc_job_dispatcher.Engine.{Engine}
use hydra_umc_job_dispatcher.Dispatch.{prefer, runs_before}
use hydra_umc_job_dispatcher.Eta.{Basis, DurationModel, for_tool}

-- Why a job has no estimate.
pub data EtaReason : Type 0 where
  no_robot_with_tool no_robot_available no_duration dependency outcome_unknown : EtaReason

-- Why an estimate has no range.
pub data IntervalReason : Type 0 where
  too_few_samples no_history : IntervalReason

-- The bounds of an estimate.
pub record Span : Type 0 where
  pub start_low : ℤ
  pub start_high : ℤ
  pub end_low : ℤ
  pub end_high : ℤ
  pub duration_low : ℤ
  pub duration_high : ℤ

-- JobETA: `none` is an empty string, and a range of zeros.
pub record JobEta : Type 0 where
  pub job_id : Text
  pub status : JobStatus
  pub estimated : Bool
  pub reason : Option EtaReason
  pub robot_id : Text
  pub start_ms : ℤ
  pub end_ms : ℤ
  pub duration_ms : ℤ
  pub basis : Option Basis
  pub overdue : Bool
  pub span : Option Span
  pub interval_reason : Option IntervalReason

abbrev pub eta_key : JobEta → Text
eta_key r = r.job_id

-- free: when a robot can take its next job
pub record FreeAt : Type 0 where
  pub robot_id : Text
  pub at : ℤ

abbrev pub free_key : FreeAt → Text
free_key f = f.robot_id

-- The variables of planLocked.
pub record Plan : Type 0 where
  pub results : List JobEta
  pub order : List Text
  pub free : List FreeAt
  pub assigned_on : List Text
  pub planned : List Text
  pub progress : Bool

abbrev pub empty_plan : Plan
empty_plan = record {
  results = [];
  order = [];
  free = [];
  assigned_on = [];
  planned = [];
  progress = true;
}

-- `&JobETA{JobID: j.ID, Status: j.Status}`
abbrev pub blank_eta : Job → JobEta
blank_eta j = record {
  job_id = j.id;
  status = j.status;
  estimated = false;
  reason = none;
  robot_id = [];
  start_ms = pos 0;
  end_ms = pos 0;
  duration_ms = pos 0;
  basis = none;
  overdue = false;
  span = none;
  interval_reason = none;
}

abbrev pub with_reason : EtaReason → JobEta → JobEta
with_reason x r = record r { reason = some x }

abbrev pub set_free : Text → ℤ → List FreeAt → List FreeAt
set_free robot_id at fs = put free_key (record { robot_id = robot_id; at = at }) fs

-- free[id], and zero for a robot without an entry
abbrev pub free_or_zero : Text → List FreeAt → ℤ
free_or_zero id fs = elim (find free_key id fs) [ none ↦ pos 0 | some f ↦ f.at ]

-- The function `add` of planLocked, with the result it writes.
unfoldable pub add_result : JobEta → Plan → Plan
add_result r p = record p { results = put eta_key r p.results; order = p.order ++ r.job_id ∷ [] }

abbrev pub later : ℤ → ℤ → ℤ
later a b = if ltb_ℤ a b then b else a

-- The estimate of an assigned job.
unfoldable pub running_eta : Job → ℤ → ℤ × Basis → JobEta
running_eta j now (ms, basis) = record (blank_eta j) {
  estimated = true;
  robot_id = j.assigned_robot;
  start_ms = j.assigned_at_ms;
  duration_ms = ms;
  basis = some basis;
  end_ms = later (j.assigned_at_ms +ℤ ms) now;
  overdue = ltb_ℤ (j.assigned_at_ms +ℤ ms) now;
}

-- What a dependency state is (depReady): one will never finish, one is not planned yet, or the time
-- when all have ended.
pub data Ready : Type 0 where
  dead not_known : Ready
  ready_at : ℤ → Ready

abbrev pub ends_dead : JobStatus → Bool
ends_dead JobStatus.failed = true
ends_dead JobStatus.unreachable = true
ends_dead JobStatus.cancelled = true
ends_dead JobStatus.unknown = true
ends_dead _ = false

abbrev pub is_ended_well : JobStatus → Bool
is_ended_well JobStatus.done = true
is_ended_well _ = false

-- `r == nil || (!r.Estimated && r.Reason == "")`
abbrev pub is_open_eta : Option JobEta → Bool
is_open_eta none = true
is_open_eta (some r) = not r.estimated && (elim r.reason [ none ↦ true | some _ ↦ false ])

abbrev pub when_estimated : Option JobEta → Option ℤ
when_estimated none = none
when_estimated (some r) = if r.estimated then some r.end_ms else none

-- A robot that may be chosen, and when it could start.
pub record Choice : Type 0 where
  pub best : Option (Robot × ℤ)
  pub tool_exists : Bool

abbrev pub estimate : Text → ℤ → ℤ → Basis → JobEta → JobEta
estimate robot_id start ms basis r = record r {
  estimated = true;
  robot_id = robot_id;
  start_ms = start;
  duration_ms = ms;
  basis = some basis;
  end_ms = start +ℤ ms;
}

-- A write through the pointer results[j.ID], on which the plan of the job ends.
abbrev pub mark : Job → (JobEta → JobEta) → Plan → Plan
mark j f p = record p {
  results = update eta_key j.id f p.results;
  planned = j.id ∷ p.planned;
  progress = true;
}

module _ {S : Type 0} (e : Engine S) (m : DurationModel) where
  -- The loop over the assigned jobs.
  unfoldable pub plan_assigned : List Job → Plan → Plan
  plan_assigned [] p = p
  plan_assigned (j ∷ js) p =
      let now = unix_milli e.now in
      let held : Plan = elim (find robot_key j.assigned_robot e.robots) [
        | none ↦ p
        | some r ↦ record p { assigned_on = r.id ∷ p.assigned_on }
      ] in
      elim (for_tool m j.required_tool) [
        | none ↦
            plan_assigned js (record (add_result (with_reason no_duration (blank_eta j)) held) {
              free = elim (find robot_key j.assigned_robot e.robots) [
                | none ↦ p.free
                | some r ↦ set_free r.id now p.free
              ];
            })
        | some found ↦
            let r = running_eta j now found in
            plan_assigned js (record (add_result r held) {
              free = elim (find robot_key j.assigned_robot e.robots) [
                | none ↦ p.free
                | some w ↦
                    if ltb_ℤ (free_or_zero w.id p.free) r.end_ms
                    then set_free w.id r.end_ms p.free
                    else p.free
              ];
            })
      ]

  -- robotHeardFromLocked
  unfoldable pub robot_heard_from : Robot → Bool
  robot_heard_from r =
      if not (ltb 0 e.robot_freshness)
      then true
      else not (
          is_zero r.last_heartbeat
          || heartbeat_from_future e.now r.last_heartbeat
          || ltb (r.last_heartbeat + e.robot_freshness) e.now)

  -- The loop over the robots that run nothing.
  unfoldable pub free_robots : List Robot → Plan → Plan
  unfolding robot_heard_from
  free_robots [] p = p
  free_robots (r ∷ rs) p =
      if mem_text r.id p.assigned_on
      then free_robots rs p
      else if r.available && robot_heard_from r
      then free_robots rs (record p { free = set_free r.id (unix_milli e.now) p.free })
      else free_robots rs p

  -- depReady: `ready` and `known` are its variables.
  unfoldable pub dep_ready : List JobEta → ℤ → Bool → List Text → Ready
  dep_ready results ready known [] = if known then ready_at ready else not_known
  dep_ready results ready known (dep ∷ deps) = elim (find job_key dep e.jobs) [
    | none ↦ dep_ready results ready known deps
    | some d ↦
        let skipped = dep_ready results ready known deps in
        let waits = dep_ready results ready false deps in
        if is_ended_well d.status
        then skipped
        else if ends_dead d.status
        then dead
        else if is_open_eta (find eta_key dep results)
        then waits
        else elim (when_estimated (find eta_key dep results)) [
          | none ↦ dead
          | some end ↦ dep_ready results (later ready end) known deps
        ]
  ]

  -- `!found || start < bestStart || (start == bestStart && preferLocked(...))`
  unfoldable pub is_better : Job → Robot → ℤ → Option (Robot × ℤ) → Bool
  is_better j r start none = true
  is_better j r start (some (b, at)) =
      ltb_ℤ start at || (not (ltb_ℤ at start) && prefer e.location j r b)

  -- The loop over the robots.
  unfoldable pub choose : Job → ℤ → List FreeAt → List Robot → Choice → Choice
  unfolding is_better
  choose j ready free [] c = c
  choose j ready free (r ∷ rs) c =
      let seen = record c { tool_exists = true } in
      let skipped = choose j ready free rs c in
      if not (is_empty j.required_tool) && not (eqt r.tool j.required_tool)
      then skipped
      else elim (find free_key r.id free) [
        | none ↦ choose j ready free rs seen
        | some f ↦
            let start = later f.at ready in
            choose j ready free rs
              (if is_better j r start c.best then record seen { best = some (r, start) } else seen)
      ]

  -- What the rest of the round does to a job whose dependencies are known.
  unfoldable pub place : Job → ℤ → Plan → Plan
  place j ready p = elim (for_tool m j.required_tool) [
    | none ↦ mark j (with_reason no_duration) p
    | some (ms, basis) ↦
        let c = choose j ready p.free e.robots (record { best = none; tool_exists = false }) in
        elim c.best [
          | none ↦
              mark j
                (with_reason (if c.tool_exists then no_robot_available else no_robot_with_tool)) p
          | some (r, start) ↦ record (mark j (estimate r.id start ms basis) p) {
            free = set_free r.id (start +ℤ ms) p.free;
          }
        ]
  ]

  unfoldable pub settle : Job → Ready → Plan → Plan
  settle j dead p = mark j (with_reason dependency) p
  settle j not_known p = p
  settle j (ready_at t) p = place j t p

  -- One round of the inner loop.
  unfoldable pub plan_job : Job → Plan → Plan
  plan_job j p =
      if mem_text j.id p.planned
      then p
      else settle j (dep_ready p.results (pos 0) true j.depends_on) p

  unfoldable pub plan_pass : List Job → Plan → Plan
  plan_pass [] p = p
  plan_pass (j ∷ js) p = plan_pass js (plan_job j p)

  -- `for progress := true; progress;`: each pass but the last plans a job.
  unfoldable pub plan_passes : ℕ → List Job → Plan → Plan
  plan_passes zero js p = p
  plan_passes (suc fuel) js p =
      let rest = plan_passes fuel js (plan_pass js (record p { progress = false })) in
      if p.progress then rest else p

  -- `for _, j := range jobs { add(j) }`, with the reason of the jobs
  unfoldable pub add_results : List Job → Option EtaReason → Plan → Plan
  unfolding add_result
  add_results [] x p = p
  add_results (j ∷ js) x p = add_results js x (add_result (record (blank_eta j) { reason = x }) p)

  abbrev pub in_order : (Job → Bool) → List Job
  in_order p = sort_by (λ a b. ltb a.seq b.seq) (select p e.jobs)

  unfoldable pub waiting_of : List Job → List Job
  waiting_of jobs = sort_by runs_before (select (λ j. is_waiting_turn j.status) jobs)
    where
      is_waiting_turn : JobStatus → Bool
      is_waiting_turn JobStatus.pending = true
      is_waiting_turn JobStatus.blocked = true
      is_waiting_turn _ = false

  -- The plan before the waiting jobs are laid out.
  unfoldable pub begun : Plan
  unfolding plan_assigned free_robots add_results
  begun =
      let running = plan_assigned (in_order (λ j. is_assigned j.status)) empty_plan in
      let lost = select (λ j. is_unknown j.status) e.jobs in
      add_results (waiting_of e.jobs) none
        (add_results lost (some outcome_unknown) (free_robots e.robots running))

  unfoldable pub plan : Plan
  unfolding begun plan_passes
  plan = plan_passes (suc (length (waiting_of e.jobs))) (waiting_of e.jobs) begun
