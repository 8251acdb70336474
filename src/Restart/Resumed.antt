-- ===== src/Restart/Resumed.antt =====
-- The invariants of the queue and the registry hold after a start over what was saved.
use mathlib.Core.Option
use hydra_umc_job_dispatcher.Common.{
  ◌≡◌, refl, sym, ◌∙◌, ap, subst, true, false, Option, some, List, [], ◌∷◌, map, Text, text_dec,
  is_empty, if_pos, if_neg, some_inj,
}
use hydra_umc_job_dispatcher.Common.Keyed.{find, put, find-put, put-Distinct, Distinct}
use hydra_umc_job_dispatcher.Model.{Job, Robot, Holding, job_key, robot_key, mem_text}
use hydra_umc_job_dispatcher.Engine.{Engine, StoreOps, new_engine}
use hydra_umc_job_dispatcher.Held.{note_assigned, note_held, held_ids}
use hydra_umc_job_dispatcher.Held.Index.{Indexed, note_held-mem, note_held_self}
use hydra_umc_job_dispatcher.Reservation.{IsReserved, EngineIsReserved, Reserved, Exclusive}
use hydra_umc_job_dispatcher.Run.{Call, started, run, all_named}
use hydra_umc_job_dispatcher.Run.Reserved.{started-IsReserved, run-IsReserved}
use hydra_umc_job_dispatcher.Run.Sound.{history-IsSound, run-Steps}
use hydra_umc_job_dispatcher.Lifecycle.Sound.{IsSound, DepsDone, is_ready}
use hydra_umc_job_dispatcher.Status.Rank.{Closed}
use hydra_umc_job_dispatcher.Lifecycle.Kept.{Steps-IsSound}
use hydra_umc_job_dispatcher.Restart.{
  JobRecord, scanned_robot, job_of_record, load_job, load_jobs, load_robots, loaded, fresh,
}
use hydra_umc_job_dispatcher.Restart.Loaded.{
  saved_job, loaded-find, load_robots-jobs, load_robots-held_by, load_jobs-robots,
}

module _ {S : Type 0} where
  load_jobs-Distinct :
      (rs : List JobRecord) (e : Engine S)
      → Distinct job_key e.jobs
      → Distinct job_key (load_jobs rs e).jobs
  unfolding load_jobs load_job note_assigned
  load_jobs-Distinct [] e d = d
  load_jobs-Distinct (r ∷ rs) e d =
      load_jobs-Distinct rs (load_job r e) (put-Distinct job_key (job_of_record r) e.jobs d)

  load_robots-Distinct :
      (rs : List Robot) (e : Engine S)
      → Distinct robot_key e.robots
      → Distinct robot_key (load_robots rs e).robots
  unfolding load_robots
  load_robots-Distinct [] e d = d
  load_robots-Distinct (r ∷ rs) e d =
      load_robots-Distinct rs _ (put-Distinct robot_key r e.robots d)

  note-Indexed :
      (j : Job) (js : List Job) (e : Engine S)
      → js ≡ put job_key j e.jobs
      → Indexed e.jobs e.held_by
      → Indexed js (note_held j e.held_by)
  note-Indexed j js e same v x k f n =
      let g = sym (ap (λ z. find job_key x z) same ∙ find-put job_key x j e.jobs) ∙ f in
      elim (text_dec (job_key j) x) [
        | yes p ↦
            let q = some_inj (sym (if_pos (text_dec (job_key j) x) p _ _) ∙ g) in
            subst (λ z. mem_text x (held_ids z.assigned_robot (note_held j e.held_by)) ≡ true) q
              (subst (λ z. mem_text z (held_ids j.assigned_robot (note_held j e.held_by)) ≡ true) p
                (note_held_self j e.held_by
                  (subst (λ z. is_empty z.assigned_robot ≡ false) (sym q) n)))
        | no p ↦
            note_held-mem x k.assigned_robot j e.held_by
              (v x k (sym (if_neg (text_dec (job_key j) x) p _ _) ∙ g) n)
      ]

  load_jobs-Indexed :
      (rs : List JobRecord) (e : Engine S)
      → Indexed e.jobs e.held_by
      → Indexed (load_jobs rs e).jobs (load_jobs rs e).held_by
  unfolding load_jobs load_job note_assigned
  load_jobs-Indexed [] e v = v
  load_jobs-Indexed (r ∷ rs) e v =
      load_jobs-Indexed rs (load_job r e) (note-Indexed (job_of_record r) _ e refl v)

  loaded-Indexed :
      (js : List JobRecord) (rs : List Robot) (s : S)
      → Indexed (loaded js rs s).jobs (loaded js rs s).held_by
  unfolding loaded new_engine find
  loaded-Indexed js rs s =
      let e = load_jobs js (fresh s) in
      subst (λ z. Indexed (load_robots rs e).jobs z) (sym (load_robots-held_by rs e))
        (subst (λ z. Indexed z e.held_by) (sym (load_robots-jobs rs e))
          (load_jobs-Indexed js (fresh s) (λ x j f n. absurd (cc))))

  loaded-Distinct :
      (js : List JobRecord) (rs : List Robot) (s : S)
      → Distinct job_key (loaded js rs s).jobs × Distinct robot_key (loaded js rs s).robots
  unfolding loaded new_engine
  loaded-Distinct js rs s =
      let e = load_jobs js (fresh s) in
      (
        subst (λ z. Distinct job_key z) (sym (load_robots-jobs rs e))
            (load_jobs-Distinct js (fresh s) tt),
        load_robots-Distinct rs e
            (subst (λ z. Distinct robot_key z) (sym (load_jobs-robots js (fresh s))) tt),
      )

  module _ (js : List Job) (rs : List Robot) (s : S) (dj : Distinct job_key js)
      (dr : Distinct robot_key rs) where
    -- The engine after the start.
    abbrev back : Engine S
    back = loaded (map saved_job js) (map scanned_robot rs) s

    back-jobs : (x : Text) {o : Option Job} → find job_key x back.jobs ≡ o → find job_key x js ≡ o
    back-jobs x f = sym (loaded-find js rs s x dj dr).0 ∙ f

    loaded-IsReserved : {held : List Holding} → IsReserved js rs held → EngineIsReserved back
    loaded-IsReserved v = record {
      reserved = λ x j f a.
          let (r, g, u) = v.reserved x j (back-jobs x f) a in
          (
            scanned_robot r,
            (loaded-find js rs s j.assigned_robot dj dr).1 ∙ ap (Option.map scanned_robot) g,
            u,
          );
      exclusive = λ x y i j f g. v.exclusive x y i j (back-jobs x f) (back-jobs y g);
      indexed = loaded-Indexed (map saved_job js) (map scanned_robot rs) s;
      named = (loaded-find js rs s [] dj dr).1 ∙ ap (Option.map scanned_robot) v.named;
      distinct = (loaded-Distinct (map saved_job js) (map scanned_robot rs) s).1;
    }

    loaded-IsSound : IsSound js → IsSound back.jobs
    loaded-IsSound v = record {
      closed = λ x d j f m.
          let (k, g) = v.closed x d j (back-jobs x f) m in (k, (loaded-find js rs s d dj dr).0 ∙ g);
      ready = λ x j f t d k m g. v.ready x j (back-jobs x f) t d k m (back-jobs d g);
      rank = v.rank;
      ranked = λ x d j f. v.ranked x d j (back-jobs x f);
    }

  -- Lists that answer every lookup as an engine does have what the engine has.
  saved-IsReserved :
      (js : List Job) (rs : List Robot) (e : Engine S)
      → ((x : Text) → find job_key x js ≡ find job_key x e.jobs)
      → ((x : Text) → find robot_key x rs ≡ find robot_key x e.robots)
      → Distinct robot_key rs
      → EngineIsReserved e
      → IsReserved js rs e.held_by
  saved-IsReserved js rs e sj sr d v = record {
    reserved = λ x j f a.
        let (r, g, u) = v.reserved x j (sym (sj x) ∙ f) a in (r, sr j.assigned_robot ∙ g, u);
    exclusive = λ x y i j f g. v.exclusive x y i j (sym (sj x) ∙ f) (sym (sj y) ∙ g);
    indexed = λ x j f. v.indexed x j (sym (sj x) ∙ f);
    named = sr [] ∙ v.named;
    distinct = d;
  }

saved-IsSound :
    (js ks : List Job)
    → ((x : Text) → find job_key x js ≡ find job_key x ks)
    → IsSound ks
    → IsSound js
saved-IsSound js ks same v = record {
  closed = λ x d j f m. let (k, g) = v.closed x d j (sym (same x) ∙ f) m in (k, same d ∙ g);
  ready = λ x j f t d k m g. v.ready x j (sym (same x) ∙ f) t d k m (sym (same d) ∙ g);
  rank = v.rank;
  ranked = λ x d j f. v.ranked x d j (sym (same x) ∙ f);
}

module _ {S : Type 0} (ops : StoreOps S) where
  -- Take the queue and the registry after a history of calls on an engine that started empty, and a
  -- start over records from which LoadAll gives each of these jobs and robots once and no others (so
  -- no write was lost), the robots without the fields that are kept in memory only; and a further
  -- history. Each registration and heartbeat of both histories gives the id of its robot. Then the
  -- robot of an assigned job is registered and not available, no two assigned jobs name one robot,
  -- each dependency is in the queue, and the dependencies of a job that is pending, assigned, unknown
  -- or done are done.
  pub resumed_invariants :
      (s : Option S) (cs : List Call) (js : List Job) (rs : List Robot) (t : S) (ds : List Call)
      → all_named cs ≡ true
      → all_named ds ≡ true
      → Distinct job_key js
      → Distinct robot_key rs
      → ((x : Text) → find job_key x js ≡ find job_key x (run ops cs (started s)).jobs)
      → ((x : Text) → find robot_key x rs ≡ find robot_key x (run ops cs (started s)).robots)
      → let e = run ops ds (loaded (map saved_job js) (map scanned_robot rs) t) in
        Reserved e.jobs e.robots
        × Exclusive e.jobs
        × Closed e.jobs
        × ((x : Text) (j : Job)
            → find job_key x e.jobs ≡ some j
            → is_ready j.status ≡ true
            → DepsDone e.jobs j.depends_on)
  resumed_invariants s cs js rs t ds nc nd dj dr sj sr =
      let e = run ops cs (started s) in
      let start = loaded (map saved_job js) (map scanned_robot rs) t in
      let held = run-IsReserved ops ds start nd (
        loaded-IsReserved js rs t dj dr (
          saved-IsReserved js rs e sj sr dr
            (run-IsReserved ops cs (started s) nc (started-IsReserved s)))) in
      let sound =
        Steps-IsSound
          (run-Steps ops ds start (loaded-Distinct (map saved_job js) (map scanned_robot rs) t).0)
          (loaded-IsSound js rs t dj dr (saved-IsSound js e.jobs sj (history-IsSound ops s cs))) in
      (held.reserved, held.exclusive, sound.closed, sound.ready)
