-- ===== src/Reservation/Assigning.antt =====
-- A dispatch pass keeps the reservations, with whatever writes fail on the way.
use mathlib.Core.Option
use mathlib.Core.Path.{subst₂}
use hydra_umc_job_dispatcher.Common.{
  ◌≡◌, refl, sym, ◌∙◌, ap, subst, inl, inr, true, false, Option, none, some, List, [], ◌∷◌, Text,
  text_dec, Elem, Bool-cases, Option-cases, some_inj, if_pos, if_neg, arith,
}
use hydra_umc_job_dispatcher.Common.Int.{ℤ}
use hydra_umc_job_dispatcher.Common.Keyed.{find, update, find-update, find-Elem}
use hydra_umc_job_dispatcher.Time.{unix_milli}
use hydra_umc_job_dispatcher.Events.{EventType}
use hydra_umc_job_dispatcher.Model.{Job, Robot, Error, job_key, robot_key}
use hydra_umc_job_dispatcher.Engine.{Engine, StoreOps, persist_job, persist_robot}
use hydra_umc_job_dispatcher.Engine.Frame.{
  persist_job-SameQueue, persist_robot-SameQueue, record_persist_outcome-SameQueue, emit-SameQueue,
}
use hydra_umc_job_dispatcher.Held.{note_held, note_assigned}
use hydra_umc_job_dispatcher.Dispatch.{
  Pass, set_available, give_to, take_back, best_robot_for, roll_back, give_job, dispatch_job,
  dispatch_jobs, dispatch_once, eligible_jobs,
}
use hydra_umc_job_dispatcher.Dispatch.Best.{best_robot_for-eligible, eligible_available}
use hydra_umc_job_dispatcher.Reservation.{
  IsReserved, EngineIsReserved, IsIdle, SameQueue-IsReserved, free-IsReserved,
}
use hydra_umc_job_dispatcher.Reservation.Changes.{assign-IsReserved}
use hydra_umc_job_dispatcher.Reservation.Sheds.{IsRelease, update-IsReserved}

take_back-IsRelease : (at : ℤ) → IsRelease (take_back at)
take_back-IsRelease at j = (refl, λ a. cc, λ n. cc, λ a. cc)

-- A robot that is available has no assigned job.
available-IsIdle :
    {S : Type 0} (e : Engine S) (r : Robot)
    → EngineIsReserved e
    → Elem r e.robots
    → r.available ≡ true
    → IsIdle r.id e.jobs
available-IsIdle e r v m free x j f a n =
    let (w, h, u) = v.reserved x j f a in
    let same = some_inj (
      sym (find-Elem robot_key e.robots v.distinct m)
      ∙ ap (λ z. find robot_key z e.robots) (sym n)
      ∙ h) in
    let taken = ap (λ z. z.available) same ∙ u in cc

-- The job that was given and taken back is not assigned, and the others are as they were.
IsIdle-again :
    (r : Text) (k : Job) (f : Job → Job) (at : ℤ) (jobs : List Job)
    → ((j : Job) → job_key (f j) ≡ job_key j)
    → IsIdle r jobs
    → IsIdle r (update job_key k.id (take_back at) (update job_key k.id f jobs))
IsIdle-again r k f at jobs same idle x j g a n =
    let outer =
      find-update job_key x k.id (take_back at) (update job_key k.id f jobs) (λ z. refl) in
    let inner = find-update job_key x k.id f jobs same in
    elim (text_dec k.id x) [
      | yes p ↦ waits (sym (outer ∙ if_pos (text_dec k.id x) p _ _) ∙ g)
      | no p ↦
          idle x j
            (sym (outer ∙ if_neg (text_dec k.id x) p _ _ ∙ inner ∙ if_neg (text_dec k.id x) p _ _)
              ∙ g)
            a n
    ]
  where
    waits : Option.map (take_back at) (find job_key x (update job_key k.id f jobs)) ≡ some j → ⊥
    waits h = elim (Option-cases (find job_key x (update job_key k.id f jobs))) [
      | inl q ↦ ground arith
      | inr (i, q) ↦
          let m = ap (λ z. z.status) (some_inj (ap (Option.map (take_back at)) (sym q) ∙ h)) in
          ground arith
    ]

module _ {S : Type 0} (ops : StoreOps S) where
  roll_back-IsReserved :
      (j : Job) (r : Robot) (x : Option Error) (e : Engine S) (p : Pass S)
      → IsIdle r.id (update job_key j.id (take_back j.assigned_at_ms) e.jobs)
      → EngineIsReserved e
      → EngineIsReserved (roll_back ops j r x e p).engine
  unfolding roll_back
  roll_back-IsReserved j r x e p idle v = SameQueue-IsReserved (persist_robot-SameQueue ops r _) (
      free-IsReserved r.id (set_available r.available) (λ z. refl) idle
        (update-IsReserved j.id (take_back j.assigned_at_ms) (take_back-IsRelease j.assigned_at_ms)
          v))

  -- The robot is marked as taken already; the job is given to it, or both go back.
  give_job-IsReserved :
      (j : Job) (r : Robot) (robots : List Robot) (e : Engine S) (p : Pass S)
      → e.robots ≡ update robot_key r.id (set_available false) robots
      → find robot_key r.id robots ≡ some r
      → IsIdle r.id e.jobs
      → IsReserved e.jobs robots e.held_by
      → EngineIsReserved (give_job ops j r e p).engine
  unfolding give_job note_assigned
  give_job-IsReserved j r robots e p taken found idle v =
      let at = unix_milli e.now in
      let given = give_to r.id at j in
      let jobs = update job_key j.id (give_to r.id at) e.jobs in
      let start : Engine S = record e { jobs = jobs; held_by = note_held given e.held_by } in
      let written = persist_job-SameQueue ops given start in
      let assigned : EngineIsReserved start =
        subst (λ z. IsReserved jobs z (note_held given e.held_by)) (sym taken)
          (assign-IsReserved j r at v found idle) in
      let ready = SameQueue-IsReserved written assigned in
      elim (Option-cases (persist_job ops given start).1) [
        | inl q ↦
            rw (q, give_job)
              (SameQueue-IsReserved (emit-SameQueue EventType.assigned given _) ready)
        | inr (x, q) ↦
            rw (q, give_job)
              (roll_back-IsReserved j r (some x) _ p
                (subst (λ z. IsIdle r.id (update job_key j.id (take_back j.assigned_at_ms) z))
                  (sym written.jobs)
                  (IsIdle-again r.id j (give_to r.id at) j.assigned_at_ms e.jobs (λ z. refl) idle))
                ready)
      ]

  dispatch_job-IsReserved :
      (j : Job) (p : Pass S)
      → EngineIsReserved p.engine
      → EngineIsReserved (dispatch_job ops j p).engine
  unfolding dispatch_job
  dispatch_job-IsReserved j p v = elim (Option-cases (best_robot_for p.engine j)) [
    | inl q ↦ rw (q, dispatch_job) v
    | inr (r, q) ↦
        let (m, fit) = best_robot_for-eligible p.engine j q in
        let found = find-Elem robot_key p.engine.robots v.distinct m in
        let idle = available-IsIdle p.engine r v m (eligible_available p.engine j r fit) in
        let start : Engine S = record p.engine {
          robots = update robot_key r.id (set_available false) p.engine.robots;
        } in
        let written = persist_robot-SameQueue ops (set_available false r) start in
        let taken =
          SameQueue-IsReserved written
            (free-IsReserved r.id (set_available false) (λ z. refl) idle v) in
        let still = subst (λ z. IsIdle r.id z) (sym written.jobs) idle in
        elim (Option-cases (persist_robot ops (set_available false r) start).1) [
          | inl w ↦
              rw (q, w, dispatch_job)
                (give_job-IsReserved j r p.engine.robots _ p written.robots found still (
                  subst₂ (λ x y. IsReserved x p.engine.robots y) (sym written.jobs)
                    (sym written.held_by) v))
          | inr (x, w) ↦
              rw (q, w, dispatch_job)
                (free-IsReserved r.id (set_available r.available) (λ z. refl) still taken)
        ]
  ]

  dispatch_jobs-IsReserved :
      (js : List Job) (p : Pass S)
      → EngineIsReserved p.engine
      → EngineIsReserved (dispatch_jobs ops js p).engine
  unfolding dispatch_jobs
  dispatch_jobs-IsReserved [] p v = v
  dispatch_jobs-IsReserved (j ∷ js) p v =
      dispatch_jobs-IsReserved js (dispatch_job ops j p) (dispatch_job-IsReserved j p v)

  -- After a pass every robot with an assigned job is taken, and none has two.
  pub dispatch_once-IsReserved :
      (e : Engine S) → EngineIsReserved e → EngineIsReserved (dispatch_once ops e).0
  unfolding dispatch_once
  dispatch_once-IsReserved e v =
      let start : Pass S = record {
        engine = e;
        assignments = [];
        persisted = false;
        persist_err = none;
      } in
      let done = dispatch_jobs-IsReserved (eligible_jobs e.jobs) start v in
      elim (Bool-cases (dispatch_jobs ops (eligible_jobs e.jobs) start).persisted) [
        | inl t ↦ rw t (SameQueue-IsReserved (record_persist_outcome-SameQueue _ _) done)
        | inr t ↦ rw t done
      ]
