-- ===== src/Status/Passes.antt =====
-- The passes of refreshBlocked on the jobs alone, without the writes to the store.
use hydra_umc_job_dispatcher.Common.{
  ℕ, zero, suc, ◌≡◌, refl, inl, inr, Bool, true, false, none, some, List, [], ◌∷◌, map, Text,
  Option-cases, Bool-cases, length, ite, arith, ap, ◌∙◌, if◌then◌else◌,
}
use hydra_umc_job_dispatcher.Common.Keyed.{find, update}
use hydra_umc_job_dispatcher.Model.{Job, JobStatus, JobStatus-discrete, job_key}
use hydra_umc_job_dispatcher.Engine.{Engine, StoreOps}
use hydra_umc_job_dispatcher.Engine.Frame.{persist_job-SameQueue}
use hydra_umc_job_dispatcher.Status.{
  Refresh, compute_status, is_waiting, set_status, refresh_write, refresh_visit, refresh_pass,
  refresh_loop, refresh_blocked,
}

-- The jobs, and whether this pass has changed one.
pub record Verdicts : Type 0 where
  pub jobs : List Job
  pub changed : Bool

unfoldable pub visit : Text → Verdicts → Verdicts
visit id v = elim (find job_key id v.jobs) [
  | none ↦ v
  | some j ↦
      let next = compute_status v.jobs j in
      if is_waiting j.status
      then ite (JobStatus-discrete next j.status) v
          (record { jobs = update job_key j.id (set_status next) v.jobs; changed = true })
      else v
]

unfoldable pub pass : List Text → Verdicts → Verdicts
pass [] v = v
pass (id ∷ ids) v = pass ids (visit id v)

unfoldable pub loop : ℕ → List Text → Verdicts → Verdicts
loop zero ids v = v
loop (suc fuel) ids v =
    let next = loop fuel ids (pass ids (record v { changed = false })) in
    if v.changed then next else v

unfoldable pub refresh_jobs : List Job → List Job
unfolding loop
refresh_jobs jobs =
    (loop (suc (suc (length jobs))) (map job_key jobs)
      (record { jobs = jobs; changed = true })).jobs

module _ {S : Type 0} where
  abbrev verdicts : Refresh S → Verdicts
  verdicts r = record { jobs = r.engine.jobs; changed = r.changed }

  -- Everything but the jobs stays as it is.
  pub record Beside (a b : Engine S) : Type 0 where
    pub robots : a.robots ≡ b.robots
    pub held_by : a.held_by ≡ b.held_by
    pub dedup_index : a.dedup_index ≡ b.dedup_index
    pub next_seq : a.next_seq ≡ b.next_seq
    pub stop_req : a.stop_req ≡ b.stop_req
    pub replan : a.replan ≡ b.replan
    pub now : a.now ≡ b.now

module _ {S : Type 0} (ops : StoreOps S) where
  write_lem :
      (j : Job) (next : JobStatus) (r : Refresh S)
      → (verdicts (refresh_write ops j next r)
          ≡ record { jobs = update job_key j.id (set_status next) r.engine.jobs; changed = true })
        × Beside (refresh_write ops j next r).engine r.engine
  unfolding refresh_write
  write_lem j next r = ground (
    arith,
    persist_job-SameQueue ops (set_status next j)
        (record r.engine { jobs = update job_key j.id (set_status next) r.engine.jobs }),
  )

  visit_lem :
      (id : Text) (r : Refresh S) → verdicts (refresh_visit ops id r) ≡ visit id (verdicts r)
  unfolding refresh_visit visit
  visit_lem id r = elim (Option-cases (find job_key id r.engine.jobs)) [
    | inl e ↦ rw (e, refresh_visit, visit)
    | inr (j, e) ↦
        let w = write_lem j (compute_status r.engine.jobs j) r in
        rw (e, refresh_visit, visit) (ground (arith, w))
  ]

  visit-Beside : (id : Text) (r : Refresh S) → Beside (refresh_visit ops id r).engine r.engine
  unfolding refresh_visit
  visit-Beside id r = elim (Option-cases (find job_key id r.engine.jobs)) [
    | inl e ↦ rw (e, refresh_visit) (ground arith)
    | inr (j, e) ↦
        let w = write_lem j (compute_status r.engine.jobs j) r in
        rw (e, refresh_visit) (ground (arith, w))
  ]

  pass_lem :
      (ids : List Text) (r : Refresh S) → verdicts (refresh_pass ops ids r) ≡ pass ids (verdicts r)
  unfolding refresh_pass pass
  pass_lem [] r = refl
  pass_lem (id ∷ ids) r = rw (← visit_lem id r) (pass_lem ids (refresh_visit ops id r))

  pass-Beside : (ids : List Text) (r : Refresh S) → Beside (refresh_pass ops ids r).engine r.engine
  unfolding refresh_pass
  pass-Beside [] r = ground arith
  pass-Beside (id ∷ ids) r =
      ground (arith, visit-Beside id r, pass-Beside ids (refresh_visit ops id r))

  loop_lem :
      (fuel : ℕ) (ids : List Text) (r : Refresh S)
      → verdicts (refresh_loop ops fuel ids r) ≡ loop fuel ids (verdicts r)
  unfolding refresh_loop loop
  loop_lem zero ids r = refl
  loop_lem (suc fuel) ids r = elim (Bool-cases r.changed) [
    | inl e ↦ rw (e) (
        loop_lem fuel ids (refresh_pass ops ids (record r { changed = false }))
        ∙ ap (loop fuel ids) (pass_lem ids (record r { changed = false })))
    | inr e ↦ rw (e) (ground arith)
  ]

  loop-Beside :
      (fuel : ℕ) (ids : List Text) (r : Refresh S)
      → Beside (refresh_loop ops fuel ids r).engine r.engine
  unfolding refresh_loop
  loop-Beside zero ids r = ground arith
  loop-Beside (suc fuel) ids r = ground (
    arith,
    pass-Beside ids (record r { changed = false }),
    loop-Beside fuel ids (refresh_pass ops ids (record r { changed = false })),
  )

  -- What refreshBlocked does to the jobs does not depend on the store.
  pub refresh_blocked-jobs : (e : Engine S) → (refresh_blocked ops e).0.jobs ≡ refresh_jobs e.jobs
  unfolding refresh_blocked refresh_jobs
  refresh_blocked-jobs e =
      ap (λ v. v.jobs)
        (loop_lem (suc (suc (length e.jobs))) (map job_key e.jobs)
          (record { engine = e; changed = true; persist_err = none }))

  pub refresh_blocked-Beside : (e : Engine S) → Beside (refresh_blocked ops e).0 e
  unfolding refresh_blocked
  refresh_blocked-Beside e =
      loop-Beside (suc (suc (length e.jobs))) (map job_key e.jobs)
        (record { engine = e; changed = true; persist_err = none })
