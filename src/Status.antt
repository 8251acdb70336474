-- ===== src/Status.antt =====
-- The verdict on a waiting job (src/dispatcher/dispatcher.go: computeStatus, refreshBlocked).
pub mod Verdict
pub mod Passes
pub mod Settled
pub mod FixedPoint
pub mod Rank
pub mod Unique
use hydra_umc_job_dispatcher.Common.{
  ℕ, zero, suc, Bool, true, false, ◌||◌, not, Option, none, some, List, [], ◌∷◌, map, Text, length,
  ite, if◌then◌else◌,
}
use hydra_umc_job_dispatcher.Common.Keyed.{find, update}
use hydra_umc_job_dispatcher.Model.{Job, JobStatus, JobStatus-discrete, Error, job_key, is_done}
use hydra_umc_job_dispatcher.Model
use hydra_umc_job_dispatcher.Engine.{Engine, StoreOps, persist_job}

-- A dependency that cannot end well by itself.
abbrev pub ends_badly : JobStatus → Bool
ends_badly JobStatus.failed = true
ends_badly JobStatus.unreachable = true
ends_badly JobStatus.cancelled = true
ends_badly _ = false

-- A job whose status is a verdict on its dependencies.
abbrev pub is_waiting : JobStatus → Bool
is_waiting JobStatus.pending = true
is_waiting JobStatus.blocked = true
is_waiting JobStatus.unreachable = true
is_waiting _ = false

-- The loop of computeStatus over the dependencies; a dependency that is gone is passed over.
unfoldable pub compute_from : List Job → Bool → List Text → JobStatus
compute_from jobs blocked [] = if blocked then JobStatus.blocked else JobStatus.pending
compute_from jobs blocked (dep ∷ deps) = elim (find job_key dep jobs) [
  | none ↦ compute_from jobs blocked deps
  | some d ↦
      let rest = compute_from jobs (blocked || not (is_done d.status)) deps in
      if ends_badly d.status then JobStatus.unreachable else rest
]

unfoldable pub compute_status : List Job → Job → JobStatus
unfolding compute_from
compute_status jobs j = compute_from jobs false j.depends_on

-- j.Status = s
abbrev pub set_status : JobStatus → Job → Job
set_status s j = record j { status = s }

-- The variables of refreshBlocked.
pub record Refresh (S : Type 0) : Type 0 where
  pub engine : Engine S
  pub changed : Bool
  pub persist_err : Option Error

-- `if err != nil { persistErr = err }`
abbrev pub keep_last : Option Error → Option Error → Option Error
keep_last none old = old
keep_last (some e) old = some e

module _ {S : Type 0} (ops : StoreOps S) where
  -- One job that is given its new verdict and written.
  unfoldable pub refresh_write : Job → JobStatus → Refresh S → Refresh S
  refresh_write j next r =
      let e = record r.engine { jobs = update job_key j.id (set_status next) r.engine.jobs } in
      let w = persist_job ops (set_status next j) e in
      record { engine = w.0; changed = true; persist_err = keep_last w.1 r.persist_err }

  -- The body of the loop over the jobs.
  unfoldable pub refresh_visit : Text → Refresh S → Refresh S
  unfolding refresh_write
  refresh_visit id r = elim (find job_key id r.engine.jobs) [
    | none ↦ r
    | some j ↦
        let next = compute_status r.engine.jobs j in
        if is_waiting j.status
        then ite (JobStatus-discrete next j.status) r (refresh_write j next r)
        else r
  ]

  -- One pass over the jobs.
  unfoldable pub refresh_pass : List Text → Refresh S → Refresh S
  refresh_pass [] r = r
  refresh_pass (id ∷ ids) r = refresh_pass ids (refresh_visit id r)

  -- `for changed := true; changed; { changed = false; ... }`
  unfoldable pub refresh_loop : ℕ → List Text → Refresh S → Refresh S
  refresh_loop zero ids r = r
  refresh_loop (suc fuel) ids r =
      let next = refresh_loop fuel ids (refresh_pass ids (record r { changed = false })) in
      if r.changed then next else r

  -- The passes that an acyclic queue can need are at most its jobs and one to see no change.
  unfoldable pub refresh_blocked : Engine S → Engine S × Option Error
  unfolding refresh_loop
  refresh_blocked e =
      let r =
        refresh_loop (suc (suc (length e.jobs))) (map job_key e.jobs)
          (record { engine = e; changed = true; persist_err = none }) in
      (r.engine, r.persist_err)
