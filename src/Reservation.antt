-- ===== src/Reservation.antt =====
-- A robot that holds an assigned job is never free, and no two assigned jobs name one robot: the
-- invariant that keeps two jobs from one robot, and the changes of state that keep it. What the
-- engine's methods do is put together from these in the modules below.
pub mod Changes
pub mod Sheds
pub mod Ending
pub mod Returning
pub mod Silence
pub mod Fleet
pub mod Assigning
pub mod Entering
use mathlib.Core.Option
use hydra_umc_job_dispatcher.Common.{
  ◌≡◌, ◌≢◌, refl, sym, ◌∙◌, ap, subst, ◌⊎◌, inl, inr, Bool, true, false, Option, none, some, List,
  [], Text, text_dec, is_empty, some_inj, ite, if_pos, if_neg, arith,
}
use hydra_umc_job_dispatcher.Common.Int.{ℤ}
use hydra_umc_job_dispatcher.Common.Keyed.{
  find, put, update, delete, find-put, find-update, find-delete, find-key, Distinct,
  update-Distinct,
}
use hydra_umc_job_dispatcher.Model.{
  Job, JobStatus, Robot, Holding, job_key, robot_key, is_assigned, mem_text,
}
use hydra_umc_job_dispatcher.Engine.{Engine}
use hydra_umc_job_dispatcher.Engine.Frame.{SameQueue}
use hydra_umc_job_dispatcher.Held.{note_held, prune_held, held_ids}
use hydra_umc_job_dispatcher.Held.Index.{Indexed, note_held-mem, note_held_self, prune_held-Indexed}
use hydra_umc_job_dispatcher.Dispatch.{give_to, set_available}

-- The robot of an assigned job is registered and not available.
abbrev pub Reserved : List Job → List Robot → Type 0
Reserved jobs robots =
    (x : Text) (j : Job)
    → find job_key x jobs ≡ some j
    → is_assigned j.status ≡ true
    → (r : Robot) × (find robot_key j.assigned_robot robots ≡ some r) × (r.available ≡ false)

-- Two assigned jobs of one robot are one job.
abbrev pub Exclusive : List Job → Type 0
Exclusive jobs =
    (x y : Text) (i j : Job)
    → find job_key x jobs ≡ some i
    → find job_key y jobs ≡ some j
    → is_assigned i.status ≡ true
    → is_assigned j.status ≡ true
    → i.assigned_robot ≡ j.assigned_robot
    → x ≡ y

-- The three parts of the state, with the index that the reservation is read from. No robot is
-- registered twice, or without a name.
pub record IsReserved (jobs : List Job) (robots : List Robot) (held : List Holding) : Type 0 where
  pub reserved : Reserved jobs robots
  pub exclusive : Exclusive jobs
  pub indexed : Indexed jobs held
  pub named : find robot_key [] robots ≡ none
  pub distinct : Distinct robot_key robots

abbrev pub EngineIsReserved : {S : Type 0} → Engine S → Type 0
EngineIsReserved e = IsReserved e.jobs e.robots e.held_by

-- No assigned job names the robot.
abbrev pub IsIdle : Text → List Job → Type 0
IsIdle r jobs =
    (x : Text) (j : Job)
    → find job_key x jobs ≡ some j
    → is_assigned j.status ≡ true
    → j.assigned_robot ≡ r
    → ⊥

-- Each assigned job of the second queue is one of the first, and so is each job that names a robot.
abbrev pub Sheds : List Job → List Job → Type 0
Sheds js ks =
    (x : Text) (k : Job)
    → find job_key x ks ≡ some k
    → (is_assigned k.status ≡ true
        → (j : Job) × (find job_key x js ≡ some j)
          × (is_assigned j.status ≡ true)
          × (j.assigned_robot ≡ k.assigned_robot))
      × (is_empty k.assigned_robot ≡ false
          → (j : Job) × (find job_key x js ≡ some j) × (j.assigned_robot ≡ k.assigned_robot))

pub SameQueue-IsReserved :
    {S : Type 0} {a b : Engine S} → SameQueue a b → EngineIsReserved b → EngineIsReserved a
SameQueue-IsReserved {a = a} {b = b} s v =
    subst (λ js. IsReserved js a.robots a.held_by) (sym s.jobs)
      (subst (λ rs. IsReserved b.jobs rs a.held_by) (sym s.robots)
        (subst (λ hs. IsReserved b.jobs b.robots hs) (sym s.held_by) v))

pub shed-IsReserved :
    {js ks : List Job} {robots : List Robot} {held : List Holding}
    → Sheds js ks
    → IsReserved js robots held
    → IsReserved ks robots held
shed-IsReserved {js} {ks} {robots} {held} sheds v = record {
  reserved = λ x k f a.
      let (j, g, b, e) = (sheds x k f).0 a in
      let (r, h, u) = v.reserved x j g b in
      (r, subst (λ z. find robot_key z robots ≡ some r) e h, u);
  exclusive = λ x y k l f g a b e.
      let (i, f', a', p) = (sheds x k f).0 a in
      let (j, g', b', q) = (sheds y l g).0 b in v.exclusive x y i j f' g' a' b' (p ∙ e ∙ sym q);
  indexed = λ x k f n.
      let (j, g, e) = (sheds x k f).1 n in
      subst (λ z. mem_text x (held_ids z held) ≡ true) e
        (v.indexed x j g (subst (λ z. is_empty z ≡ false) (sym e) n));
  named = v.named;
  distinct = v.distinct;
}

-- A robot changes and does not become available.
pub hold-IsReserved :
    {jobs : List Job} {robots : List Robot} {held : List Holding} (r : Text) (f : Robot → Robot)
    → ((w : Robot) → robot_key (f w) ≡ robot_key w)
    → ((w : Robot) → w.available ≡ false → (f w).available ≡ false)
    → IsReserved jobs robots held
    → IsReserved jobs (update robot_key r f robots) held
hold-IsReserved {jobs} {robots} {held} r f same kept v = record {
  reserved = λ x j g a.
      let (w, h, u) = v.reserved x j g a in
      let found = find-update robot_key j.assigned_robot r f robots same in
      elim (text_dec r j.assigned_robot) [
        | yes p ↦ (f w, ground arith, kept w u)
        | no p ↦ (w, ground arith, u)
      ];
  exclusive = v.exclusive;
  indexed = v.indexed;
  named = ground (arith, find-update robot_key [] r f robots same, v.named);
  distinct = update-Distinct robot_key r f robots same v.distinct;
}

-- A robot that no assigned job names changes in any way.
pub free-IsReserved :
    {jobs : List Job} {robots : List Robot} {held : List Holding} (r : Text) (f : Robot → Robot)
    → ((w : Robot) → robot_key (f w) ≡ robot_key w)
    → IsIdle r jobs
    → IsReserved jobs robots held
    → IsReserved jobs (update robot_key r f robots) held
free-IsReserved {jobs} {robots} {held} r f same idle v = record {
  reserved = λ x j g a.
      let (w, h, u) = v.reserved x j g a in
      let found = find-update robot_key j.assigned_robot r f robots same in
      elim (text_dec r j.assigned_robot) [
        | yes p ↦ absurd (idle x j g a (sym p))
        | no p ↦ (w, ground arith, u)
      ];
  exclusive = v.exclusive;
  indexed = v.indexed;
  named = ground (arith, find-update robot_key [] r f robots same, v.named);
  distinct = update-Distinct robot_key r f robots same v.distinct;
}

pub prune-IsReserved :
    {jobs : List Job} {robots : List Robot} {held : List Holding} (q : Text)
    → IsReserved jobs robots held
    → IsReserved jobs robots (prune_held jobs q held)
prune-IsReserved {jobs} {held = held} q v = record {
  reserved = v.reserved;
  exclusive = v.exclusive;
  indexed = prune_held-Indexed jobs q held v.indexed;
  named = v.named;
  distinct = v.distinct;
}
