-- ===== src/Lifecycle/Assigning.antt =====
-- A dispatch pass, as steps of the queue.
use mathlib.Core.Option
use hydra_umc_job_dispatcher.Common.{
  ◌≡◌, refl, sym, ◌∙◌, ap, subst, inl, inr, true, false, none, some, List, [], ◌∷◌, Text, text_dec,
  Elem, here, there, Elem-select, Bool-cases, Option-cases, if_pos, if_neg, arith, select,
}
use hydra_umc_job_dispatcher.Common.Int.{ℤ}
use hydra_umc_job_dispatcher.Common.Keyed.{find, update, find-update, find-Elem, Distinct}
use hydra_umc_job_dispatcher.Common.Sorting.{Elem-sort_by, sort_by-Distinct, select-Distinct}
use hydra_umc_job_dispatcher.Time.{unix_milli}
use hydra_umc_job_dispatcher.Events.{EventType}
use hydra_umc_job_dispatcher.Model.{Job, JobStatus, Robot, job_key, robot_key, is_pending}
use hydra_umc_job_dispatcher.Engine.{Engine, StoreOps, persist_job, persist_robot}
use hydra_umc_job_dispatcher.Engine.Frame.{
  persist_job-SameQueue, persist_robot-SameQueue, record_persist_outcome-SameQueue, emit-SameQueue,
}
use hydra_umc_job_dispatcher.Held.{note_held, note_assigned}
use hydra_umc_job_dispatcher.Dispatch.{
  Pass, set_available, give_to, take_back, best_robot_for, runs_before, roll_back, give_job,
  dispatch_job, dispatch_jobs, dispatch_once, eligible_jobs,
}
use hydra_umc_job_dispatcher.Lifecycle.{given, taken_back, Steps}
use hydra_umc_job_dispatcher.Lifecycle.Builders.{change-Steps, SameQueue-Steps}

-- What one round may do to the queue.
pub data Round (j : Job) (js : List Job) : List Job → Type 0 where
  passed : Round j js js
  handed : (r : Text) (at : ℤ) → Round j js (update job_key j.id (give_to r at) js)
  undone :
      (r : Text) (at before : ℤ)
      → Round j js (update job_key j.id (take_back before) (update job_key j.id (give_to r at) js))

update_ne :
    (id x : Text) (f : Job → Job) (js : List Job)
    → ((j : Job) → job_key (f j) ≡ job_key j)
    → (id ≡ x → ⊥)
    → find job_key x (update job_key id f js) ≡ find job_key x js
update_ne id x f js same n = find-update job_key x id f js same ∙ if_neg (text_dec id x) n _ _

-- A round leaves the other jobs alone.
pub Round-ne :
    {j : Job} {js ks : List Job} (x : Text)
    → Round j js ks
    → (j.id ≡ x → ⊥)
    → find job_key x ks ≡ find job_key x js
Round-ne x passed n = refl
Round-ne {j} {js} x (handed r at) n = update_ne j.id x (give_to r at) js (λ z. refl) n
Round-ne {j} {js} x (undone r at before) n =
    update_ne j.id x (take_back before) (update job_key j.id (give_to r at) js) (λ z. refl) n
    ∙ update_ne j.id x (give_to r at) js (λ z. refl) n

is_pending-eq : (s : JobStatus) → is_pending s ≡ true → s ≡ JobStatus.pending
is_pending-eq s h = ground arith

Round-Steps :
    (j : Job) {is js ks : List Job}
    → find job_key j.id js ≡ some j
    → is_pending j.status ≡ true
    → Round j js ks
    → Steps is js
    → Steps is ks
Round-Steps j f p passed v = v
Round-Steps j {js = js} f p (handed r at) v =
    change-Steps j.id (give_to r at) j js f (λ z. refl) (given (is_pending-eq j.status p) refl refl)
      v
Round-Steps j {js = js} f p (undone r at before) v =
    let there_it =
      find-update job_key j.id j.id (give_to r at) js (λ z. refl)
      ∙ if_pos (text_dec j.id j.id) refl _ _
      ∙ ap (Option.map (give_to r at)) f in
    change-Steps j.id (take_back before) (give_to r at j) (update job_key j.id (give_to r at) js)
      there_it (λ z. refl) (taken_back refl refl refl)
      (change-Steps j.id (give_to r at) j js f (λ z. refl)
        (given (is_pending-eq j.status p) refl refl) v)

then_Round : {j : Job} {js ks ls : List Job} → Round j js ks → ls ≡ ks → Round j js ls
then_Round {j} {js} w e = subst (λ z. Round j js z) (sym e) w

module _ {S : Type 0} (ops : StoreOps S) where
  give_job-Round :
      (j : Job) (r : Robot) (e : Engine S) (p : Pass S)
      → Round j e.jobs (give_job ops j r e p).engine.jobs
  unfolding give_job note_assigned roll_back
  give_job-Round j r e p =
      let at = unix_milli e.now in
      let given = give_to r.id at j in
      let start : Engine S = record e {
        jobs = update job_key j.id (give_to r.id at) e.jobs;
        held_by = note_held given e.held_by;
      } in
      let written = persist_job-SameQueue ops given start in
      elim (Option-cases (persist_job ops given start).1) [
        | inl q ↦
            rw (q, give_job)
              (then_Round (handed r.id at)
                ((emit-SameQueue EventType.assigned given _).jobs ∙ written.jobs))
        | inr (x, q) ↦
            rw (q, give_job)
              (then_Round (undone r.id at j.assigned_at_ms) (
                (persist_robot-SameQueue ops r _).jobs
                ∙ ap (λ z. update job_key j.id (take_back j.assigned_at_ms) z) written.jobs))
      ]

  pub dispatch_job-Round :
      (j : Job) (p : Pass S) → Round j p.engine.jobs (dispatch_job ops j p).engine.jobs
  unfolding dispatch_job
  dispatch_job-Round j p = elim (Option-cases (best_robot_for p.engine j)) [
    | inl q ↦ rw (q, dispatch_job) passed
    | inr (r, q) ↦
        let start : Engine S = record p.engine {
          robots = update robot_key r.id (set_available false) p.engine.robots;
        } in
        let written = persist_robot-SameQueue ops (set_available false r) start in
        elim (Option-cases (persist_robot ops (set_available false r) start).1) [
          | inl w ↦
              rw (q, w, dispatch_job)
                (subst
                  (λ z.
                    Round j z
                      (give_job ops j r (persist_robot ops (set_available false r) start).0
                        p).engine.jobs)
                  written.jobs (give_job-Round j r _ p))
          | inr (x, w) ↦ rw (q, w, dispatch_job) (then_Round passed written.jobs)
        ]
  ]

  -- The jobs of the pass that are still to come stand in the queue as they were read.
  dispatch_jobs-Steps :
      {is : List Job} (js : List Job) (p : Pass S)
      → Distinct job_key js
      → ((j : Job)
          → Elem j js
          → (find job_key j.id p.engine.jobs ≡ some j) × (is_pending j.status ≡ true))
      → Steps is p.engine.jobs
      → Steps is (dispatch_jobs ops js p).engine.jobs
  unfolding dispatch_jobs
  dispatch_jobs-Steps [] p d all v = v
  dispatch_jobs-Steps (j ∷ js) p (new, d) all v =
      let w = dispatch_job-Round j p in
      let (f, t) = all j here in
      dispatch_jobs-Steps js (dispatch_job ops j p) d
        (λ k m.
          let (g, u) = all k (there m) in
          let other = λ (e : j.id ≡ k.id). once e new (find-Elem job_key js d m) in
          (Round-ne k.id w other ∙ g, u))
        (Round-Steps j f t w v)
    where
      once :
          {k : Job} → j.id ≡ k.id → find job_key j.id js ≡ none → find job_key k.id js ≡ some k → ⊥
      once {k} e n s = clash k (sym n ∙ ap (λ z. find job_key z js) e ∙ s)
        where
          clash : (k : Job) → none ≡ some k → ⊥
          clash k q = cc

  pub dispatch_once-Steps :
      {is : List Job} (e : Engine S)
      → Distinct job_key e.jobs
      → Steps is e.jobs
      → Steps is (dispatch_once ops e).0.jobs
  unfolding dispatch_once eligible_jobs
  dispatch_once-Steps e d v =
      let start : Pass S = record {
        engine = e;
        assignments = [];
        persisted = false;
        persist_err = none;
      } in
      let done =
        dispatch_jobs-Steps (eligible_jobs e.jobs) start
          (sort_by-Distinct runs_before job_key _ (select-Distinct job_key _ e.jobs d))
          (λ j m.
            let (n, t) =
              Elem-select (λ z. is_pending z.status) j e.jobs
                (Elem-sort_by runs_before (select (λ z. is_pending z.status) e.jobs) m) in
            (find-Elem job_key e.jobs d n, t))
          v in
      elim (Bool-cases (dispatch_jobs ops (eligible_jobs e.jobs) start).persisted) [
        | inl t ↦ rw t (SameQueue-Steps (record_persist_outcome-SameQueue _ _) done)
        | inr t ↦ rw t done
      ]
