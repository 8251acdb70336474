-- ===== src/Dispatch/Exhausted.antt =====
-- A dispatch pass gives out all it can: what a pass over a store that takes every write leaves behind.
use mathlib.Core.Option
use hydra_umc_job_dispatcher.Common.{
  ◌≡◌, refl, sym, ◌∙◌, ap, subst, ◌⊎◌, inl, inr, Bool, true, false, none, some, List, [], ◌∷◌, Text,
  text_dec, Elem, here, there, Elem-cons, Bool-cases, Option-cases, some_inj, if_pos, select,
  select-Elem, Elem-select,
}
use hydra_umc_job_dispatcher.Common.Keyed.{
  find, update, find-update, find-Elem, find-key, Elem-find, Distinct,
}
use hydra_umc_job_dispatcher.Common.Sorting.{
  Elem-sort_by, sort_by-Elem, sort_by-Distinct, select-Distinct,
}
use hydra_umc_job_dispatcher.Time.{unix_milli}
use hydra_umc_job_dispatcher.Events.{EventType}
use hydra_umc_job_dispatcher.Model.{Job, Robot, job_key, robot_key, is_pending}
use hydra_umc_job_dispatcher.Engine.{Engine, StoreOps, persist_robot}
use hydra_umc_job_dispatcher.Engine.Frame.{
  persist_job-SameQueue, persist_robot-SameQueue, record_persist_outcome-SameQueue, emit-SameQueue,
}
use hydra_umc_job_dispatcher.Held.{note_held, note_assigned}
use hydra_umc_job_dispatcher.Dispatch.{
  Pass, set_available, give_to, best_robot_for, runs_before, give_job, dispatch_job, dispatch_jobs,
  dispatch_once, eligible_jobs,
}
use hydra_umc_job_dispatcher.Dispatch.Least.{best_robot_for-none}
use hydra_umc_job_dispatcher.Lifecycle.Assigning.{Round-ne, dispatch_job-Round}
use hydra_umc_job_dispatcher.Dispatch.Tighter.{
  IsReliable, IsExhausted, Tighter, Tighter-refl, Tighter-trans, emit-Tighter, outcome-Tighter,
  taken-Tighter, Tighter-IsExhausted, persist_job-Tighter, persist_robot-Tighter, persist_job-taken,
  persist_robot-taken,
}

assigned_now :
    (f : Job → Job) (js : List Job) (j k : Job)
    → ((i : Job) → job_key (f i) ≡ job_key i)
    → ((i : Job) → is_pending (f i).status ≡ false)
    → find job_key j.id js ≡ some j
    → find job_key j.id (update job_key j.id f js) ≡ some k
    → is_pending k.status ≡ false
assigned_now f js j k same off found g =
    let moved =
      find-update job_key j.id j.id f js same
      ∙ if_pos (text_dec j.id j.id) refl _ _
      ∙ ap (Option.map f) found in
    subst (λ z. is_pending z.status ≡ false) (some_inj (sym moved ∙ g)) (off j)

-- Two jobs of a list with distinct ids are not under one id.
once :
    (j k : Job) (js : List Job)
    → j.id ≡ k.id
    → find job_key j.id js ≡ none
    → find job_key k.id js ≡ some k
    → ⊥
once j k js e n s = clash (sym n ∙ ap (λ z. find job_key z js) e ∙ s)
  where
    clash : none ≡ some k → ⊥
    clash q = cc

module _ {S : Type 0} (ops : StoreOps S) where
  -- A job for which there is a robot is given to it.
  record Handed (j : Job) (p : Pass S) : Type 0 where
    given_job :
        (k : Job)
        → find job_key j.id (dispatch_job ops j p).engine.jobs ≡ some k
        → is_pending k.status ≡ false
    tighter : Tighter (dispatch_job ops j p).engine p.engine

  give_job-Tighter :
      (j : Job) (r : Robot) (e : Engine S) (p : Pass S)
      → IsReliable ops
      → Tighter (give_job ops j r e p).engine e
        × ((give_job ops j r e p).engine.jobs
            ≡ update job_key j.id (give_to r.id (unix_milli e.now)) e.jobs)
  unfolding give_job note_assigned
  give_job-Tighter j r e p v =
      let at = unix_milli e.now in
      let given = give_to r.id at j in
      let start : Engine S = record e {
        jobs = update job_key j.id (give_to r.id at) e.jobs;
        held_by = note_held given e.held_by;
      } in
      let begun : Tighter start e = record {
        tool_check = refl;
        robot_freshness = refl;
        now = refl;
        fewer = λ w m a. m;
      } in
      rw (persist_job-taken ops given start v, give_job)
        (
          Tighter-trans (emit-Tighter EventType.assigned given _)
              (Tighter-trans (persist_job-Tighter ops given start) begun),
          (emit-SameQueue EventType.assigned given _).jobs
              ∙ (persist_job-SameQueue ops given start).jobs,
        )

  dispatch_job-Handed :
      (j : Job) (p : Pass S) (r : Robot)
      → IsReliable ops
      → best_robot_for p.engine j ≡ some r
      → find job_key j.id p.engine.jobs ≡ some j
      → Handed j p
  unfolding dispatch_job
  dispatch_job-Handed j p r v q found =
      let start : Engine S = record p.engine {
        robots = update robot_key r.id (set_available false) p.engine.robots;
      } in
      let e = (persist_robot ops (set_available false r) start).0 in
      let (t, jobs) = give_job-Tighter j r e p v in
      let taken =
        Tighter-trans (persist_robot-Tighter ops (set_available false r) start)
          (taken-Tighter r.id p.engine) in
      let same = (persist_robot-SameQueue ops (set_available false r) start).jobs in
      let result : dispatch_job ops j p ≡ give_job ops j r e p =
        rw (q, persist_robot-taken ops (set_available false r) start v, dispatch_job) refl in
      let queue =
        ap (λ z. z.engine.jobs) result
        ∙ jobs
        ∙ ap (update job_key j.id (give_to r.id (unix_milli e.now))) same in
      record {
        given_job = λ k f.
            assigned_now (give_to r.id (unix_milli e.now)) p.engine.jobs j k (λ z. refl) (λ z. refl)
              found (ap (λ z. find job_key j.id z) (sym queue) ∙ f);
        tighter = subst (λ z. Tighter z.engine p.engine) (sym result) (Tighter-trans t taken);
      }

  -- What the rest of a pass leaves behind.
  record Passed (js : List Job) (p q : Pass S) : Type 0 where
    tighter : Tighter q.engine p.engine
    kept :
        (x : Text)
        → (find job_key x q.engine.jobs ≡ find job_key x p.engine.jobs)
          ⊎ ((j : Job) × Elem j js × (j.id ≡ x))
    none_left :
        (j k : Job)
        → Elem j js
        → find job_key j.id q.engine.jobs ≡ some k
        → is_pending k.status ≡ true
        → IsExhausted q.engine k

  -- One round, on a job that stands in the queue.
  round_left :
      (j : Job) (p : Pass S)
      → IsReliable ops
      → find job_key j.id p.engine.jobs ≡ some j
      → Tighter (dispatch_job ops j p).engine p.engine
        × ((k : Job)
            → find job_key j.id (dispatch_job ops j p).engine.jobs ≡ some k
            → is_pending k.status ≡ true
            → IsExhausted (dispatch_job ops j p).engine k)
  unfolding dispatch_job
  round_left j p v found = elim (Option-cases (best_robot_for p.engine j)) [
    | inr (r, q) ↦
        let h = dispatch_job-Handed j p r v q found in
        (h.tighter, λ k f t. absurd (clash t (h.given_job k f)))
    | inl q ↦
        let same : dispatch_job ops j p ≡ p = rw (q, dispatch_job) refl in
        (
          subst (λ z. Tighter z.engine p.engine) (sym same) (Tighter-refl p.engine),
          λ k f t.
              subst (λ z. IsExhausted z.engine k) (sym same)
                (subst (λ z. IsExhausted p.engine z)
                  (some_inj (sym found ∙ ap (λ z. find job_key j.id z.engine.jobs) (sym same) ∙ f))
                  (best_robot_for-none p.engine j q)),
        )
  ]
    where
      clash : {b : Bool} → b ≡ true → b ≡ false → ⊥
      clash x y = cc

  dispatch_jobs-Passed :
      (js : List Job) (p : Pass S)
      → IsReliable ops
      → Distinct job_key js
      → ((j : Job) → Elem j js → find job_key j.id p.engine.jobs ≡ some j)
      → Passed js p (dispatch_jobs ops js p)
  unfolding dispatch_jobs
  dispatch_jobs-Passed [] p v d all = record {
    tighter = Tighter-refl p.engine;
    kept = λ x. inl refl;
    none_left = λ j k m. elim m [ ];
  }
  dispatch_jobs-Passed (j ∷ js) p v (new, d) all =
      let w = dispatch_job-Round ops j p in
      let (t, left) = round_left j p v (all j here) in
      let other = λ (k : Job) (m : Elem k js) (e : j.id ≡ k.id).
        once j k js e new (find-Elem job_key js d m) in
      let rest =
        dispatch_jobs-Passed js (dispatch_job ops j p) v d
          (λ k m. Round-ne k.id w (other k m) ∙ all k (there m)) in
      record {
        tighter = Tighter-trans rest.tighter t;
        kept = λ x. elim (rest.kept x) [
          | inr (k, m, e) ↦ inr (k, there m, e)
          | inl e ↦ elim (text_dec j.id x) [
            | yes q ↦ inr (j, here, q)
            | no n ↦ inl (e ∙ Round-ne x w n)
          ]
        ];
        none_left = λ i k m f u. elim (Elem-cons m) [
          | inr l ↦ rest.none_left i k l f u
          | inl e ↦ elim (rest.kept j.id) [
            | inr (l, n, q) ↦ absurd (other l n (sym q))
            | inl same ↦ Tighter-IsExhausted k rest.tighter (
                left k
                  (sym same
                    ∙ ap
                        (λ z.
                          find job_key z.id
                            (dispatch_jobs ops js (dispatch_job ops j p)).engine.jobs)
                        (sym e)
                    ∙ f)
                  u)
          ]
        ];
      }

  -- The jobs of the pass are those that are pending at its start.
  pass_left :
      (e : Engine S) (q : Pass S) (p0 : Pass S)
      → p0.engine ≡ e
      → Distinct job_key e.jobs
      → Passed (eligible_jobs e.jobs) p0 q
      → (x : Text) (j : Job) → find job_key x q.engine.jobs ≡ some j
      → is_pending j.status ≡ true
      → IsExhausted q.engine j
  unfolding eligible_jobs
  pass_left e q p same d w x j f t = elim (w.kept x) [
    | inr (i, m, n) ↦ w.none_left i j m (ap (λ z. find job_key z q.engine.jobs) n ∙ f) t
    | inl k ↦
        let before = sym (ap (λ z. find job_key x z.jobs) same) ∙ sym k ∙ f in
        let listed =
          sort_by-Elem runs_before (select (λ z. is_pending z.status) e.jobs)
            (select-Elem (λ z. is_pending z.status) t (Elem-find job_key x e.jobs before)) in
        let name = find-key job_key x e.jobs {v = j} before in
        w.none_left j j listed (ap (λ z. find job_key z q.engine.jobs) name ∙ f) t
  ]

  -- After a pass over a store that takes every write, no robot may be given any job that is still
  -- pending, if the queue holds each id once.
  pub dispatch_once-IsExhausted :
      (e : Engine S) (x : Text) (j : Job)
      → IsReliable ops
      → Distinct job_key e.jobs
      → find job_key x (dispatch_once ops e).0.jobs ≡ some j
      → is_pending j.status ≡ true
      → IsExhausted (dispatch_once ops e).0 j
  unfolding dispatch_once eligible_jobs
  dispatch_once-IsExhausted e x j v d =
      let start : Pass S = record {
        engine = e;
        assignments = [];
        persisted = false;
        persist_err = none;
      } in
      let q = dispatch_jobs ops (eligible_jobs e.jobs) start in
      let w =
        dispatch_jobs-Passed (eligible_jobs e.jobs) start v
          (sort_by-Distinct runs_before job_key _ (select-Distinct job_key _ e.jobs d))
          (λ i m.
            let (n, _) =
              Elem-select (λ z. is_pending z.status) i e.jobs
                (Elem-sort_by runs_before (select (λ z. is_pending z.status) e.jobs) m) in
            find-Elem job_key e.jobs d n) in
      let left = pass_left e q start refl d w x j in
      elim (Bool-cases q.persisted) [
        | inr u ↦ rw u left
        | inl u ↦ rw u (λ f t.
            Tighter-IsExhausted j (outcome-Tighter (q.persist_err ∷ []) q.engine) (
              left
                (sym (
                    ap (λ z. find job_key x z)
                      (record_persist_outcome-SameQueue (q.persist_err ∷ []) q.engine).jobs)
                  ∙ f)
                t))
      ]
