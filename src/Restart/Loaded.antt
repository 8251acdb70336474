-- ===== src/Restart/Loaded.antt =====
-- What an engine holds that was loaded from a store: the jobs and robots that were saved, and an
-- order of submission that goes on behind theirs.
use mathlib.Core.Option
use hydra_umc_job_dispatcher.Common.{
  ◌≡◌, refl, sym, ◌∙◌, ap, inl, inr, none, some, List, [], ◌∷◌, map, Text, text_dec, if_pos, if_neg,
  Option-cases, some_inj,
}
use hydra_umc_job_dispatcher.Common.Keyed.{find, put, find-put, Distinct}
use hydra_umc_job_dispatcher.Model.{Job, Robot, job_key, robot_key}
use hydra_umc_job_dispatcher.Engine.{Engine, new_engine}
use hydra_umc_job_dispatcher.Held.{note_assigned}
use hydra_umc_job_dispatcher.Restart.{
  JobRecord, record_of, scanned, scanned_robot, job_of_record, load_job, load_jobs, load_robots,
  loaded, fresh,
}

-- The record of a job, after it was saved and read back.
abbrev pub saved_job : Job → JobRecord
saved_job j = scanned (record_of j)

module _ {S : Type 0} where
  pub load_robots-jobs : (rs : List Robot) (e : Engine S) → (load_robots rs e).jobs ≡ e.jobs
  unfolding load_robots
  load_robots-jobs [] e = refl
  load_robots-jobs (r ∷ rs) e = load_robots-jobs rs _

  pub load_robots-held_by :
      (rs : List Robot) (e : Engine S) → (load_robots rs e).held_by ≡ e.held_by
  unfolding load_robots
  load_robots-held_by [] e = refl
  load_robots-held_by (r ∷ rs) e = load_robots-held_by rs _

  pub load_robots-next_seq :
      (rs : List Robot) (e : Engine S) → (load_robots rs e).next_seq ≡ e.next_seq
  unfolding load_robots
  load_robots-next_seq [] e = refl
  load_robots-next_seq (r ∷ rs) e = load_robots-next_seq rs _

  pub load_jobs-robots : (rs : List JobRecord) (e : Engine S) → (load_jobs rs e).robots ≡ e.robots
  unfolding load_jobs load_job note_assigned
  load_jobs-robots [] e = refl
  load_jobs-robots (r ∷ rs) e = load_jobs-robots rs (load_job r e)

  load_job-jobs :
      (r : JobRecord) (e : Engine S) → (load_job r e).jobs ≡ put job_key (job_of_record r) e.jobs
  unfolding load_job note_assigned
  load_job-jobs r e = refl

  -- A record stands behind every id that was not there before.
  load_jobs-other :
      (x : Text) (js : List Job) (e : Engine S)
      → find job_key x js ≡ none
      → find job_key x (load_jobs (map saved_job js) e).jobs ≡ find job_key x e.jobs
  unfolding load_jobs find
  load_jobs-other x [] e n = refl
  load_jobs-other x (j ∷ js) e n = elim (text_dec (job_key j) x) [
    | yes p ↦ absurd (some-none (sym (if_pos (text_dec (job_key j) x) p _ _) ∙ n))
    | no p ↦
        load_jobs-other x js (load_job (saved_job j) e)
          (sym (if_neg (text_dec (job_key j) x) p _ _) ∙ n)
        ∙ ap (λ z. find job_key x z) (load_job-jobs (saved_job j) e)
        ∙ find-put job_key x j e.jobs
        ∙ if_neg (text_dec (job_key j) x) p _ _
  ]
    where
      some-none : some j ≡ none → ⊥
      some-none e = cc

  load_jobs-find :
      (x : Text) (js : List Job) (e : Engine S) (j : Job)
      → Distinct job_key js
      → find job_key x js ≡ some j
      → find job_key x (load_jobs (map saved_job js) e).jobs ≡ some j
  unfolding load_jobs find
  load_jobs-find x [] e j d f = absurd (cc)
  load_jobs-find x (k ∷ js) e j (new, d) f = elim (text_dec (job_key k) x) [
    | no p ↦
        load_jobs-find x js (load_job (saved_job k) e) j d
          (sym (if_neg (text_dec (job_key k) x) p _ _) ∙ f)
    | yes p ↦
        load_jobs-other x js (load_job (saved_job k) e) (ap (λ z. find job_key z js) (sym p) ∙ new)
        ∙ ap (λ z. find job_key x z) (load_job-jobs (saved_job k) e)
        ∙ find-put job_key x k e.jobs
        ∙ if_pos (text_dec (job_key k) x) p _ _
        ∙ sym (if_pos (text_dec (job_key k) x) p _ _)
        ∙ f
  ]

  load_robots-other :
      (x : Text) (rs : List Robot) (e : Engine S)
      → find robot_key x rs ≡ none
      → find robot_key x (load_robots (map scanned_robot rs) e).robots ≡ find robot_key x e.robots
  unfolding load_robots find
  load_robots-other x [] e n = refl
  load_robots-other x (r ∷ rs) e n = elim (text_dec (robot_key r) x) [
    | yes p ↦ absurd (some-none (sym (if_pos (text_dec (robot_key r) x) p _ _) ∙ n))
    | no p ↦
        load_robots-other x rs (record e { robots = put robot_key (scanned_robot r) e.robots })
          (sym (if_neg (text_dec (robot_key r) x) p _ _) ∙ n)
        ∙ find-put robot_key x (scanned_robot r) e.robots
        ∙ if_neg (text_dec (robot_key r) x) p _ _
  ]
    where
      some-none : some r ≡ none → ⊥
      some-none e = cc

  load_robots-find :
      (x : Text) (rs : List Robot) (e : Engine S) (r : Robot)
      → Distinct robot_key rs
      → find robot_key x rs ≡ some r
      → find robot_key x (load_robots (map scanned_robot rs) e).robots ≡ some (scanned_robot r)
  unfolding load_robots find
  load_robots-find x [] e r d f = absurd (cc)
  load_robots-find x (w ∷ rs) e r (new, d) f = elim (text_dec (robot_key w) x) [
    | no p ↦
        load_robots-find x rs (record e { robots = put robot_key (scanned_robot w) e.robots }) r d
          (sym (if_neg (text_dec (robot_key w) x) p _ _) ∙ f)
    | yes p ↦
        load_robots-other x rs (record e { robots = put robot_key (scanned_robot w) e.robots })
          (ap (λ z. find robot_key z rs) (sym p) ∙ new)
        ∙ find-put robot_key x (scanned_robot w) e.robots
        ∙ if_pos (text_dec (robot_key w) x) p _ _
        ∙ ap (λ z. some (scanned_robot z))
            (some_inj (sym (if_pos (text_dec (robot_key w) x) p _ _) ∙ f))
  ]

  loaded-jobs :
      (js : List Job) (rs : List Robot) (s : S) (x : Text)
      → Distinct job_key js
      → find job_key x (loaded (map saved_job js) rs s).jobs ≡ find job_key x js
  unfolding loaded new_engine find
  loaded-jobs js rs s x d =
      let same =
        ap (λ z. find job_key x z) (load_robots-jobs rs (load_jobs (map saved_job js) (fresh s))) in
      elim (Option-cases (find job_key x js)) [
        | inl n ↦ same ∙ load_jobs-other x js (fresh s) n ∙ sym n
        | inr (j, f) ↦ same ∙ load_jobs-find x js (fresh s) j d f ∙ sym f
      ]

  loaded-robots :
      (js : List JobRecord) (rs : List Robot) (s : S) (x : Text)
      → Distinct robot_key rs
      → find robot_key x (loaded js (map scanned_robot rs) s).robots
        ≡ Option.map scanned_robot (find robot_key x rs)
  unfolding loaded new_engine find
  loaded-robots js rs s x d = elim (Option-cases (find robot_key x rs)) [
    | inl n ↦
        load_robots-other x rs (load_jobs js (fresh s)) n
        ∙ ap (λ z. find robot_key x z) (load_jobs-robots js (fresh s))
        ∙ ap (Option.map scanned_robot) (sym n)
    | inr (r, f) ↦
        load_robots-find x rs (load_jobs js (fresh s)) r d f ∙ ap (Option.map scanned_robot) (sym f)
  ]

  -- Jobs and robots that were saved, each once, are found again after a start, the robots without
  -- the fields that are kept in memory only; and no others are found.
  pub loaded-find :
      (js : List Job) (rs : List Robot) (s : S) (x : Text)
      → Distinct job_key js
      → Distinct robot_key rs
      → (find job_key x (loaded (map saved_job js) (map scanned_robot rs) s).jobs
          ≡ find job_key x js)
        × (find robot_key x (loaded (map saved_job js) (map scanned_robot rs) s).robots
            ≡ Option.map scanned_robot (find robot_key x rs))
  loaded-find js rs s x d c =
      (loaded-jobs js (map scanned_robot rs) s x d, loaded-robots (map saved_job js) rs s x c)
