-- ===== src/Reservation/Changes.antt =====
-- The changes that register and forget a robot, add a job, and assign one.
use mathlib.Core.Option
use mathlib.Core.Path.{subst₂}
use hydra_umc_job_dispatcher.Common.{
  ◌≡◌, ◌≢◌, refl, sym, ◌∙◌, ap, subst, ◌⊎◌, inl, inr, true, false, none, some, List, [], Text,
  text_dec, is_empty, some_inj, if_pos, if_neg, arith, Option-cases,
}
use hydra_umc_job_dispatcher.Common.Int.{ℤ}
use hydra_umc_job_dispatcher.Common.Keyed.{
  find, put, update, delete, find-put, find-update, find-delete, put-Distinct, update-Distinct,
  delete-Distinct,
}
use hydra_umc_job_dispatcher.Model.{Job, Robot, Holding, job_key, robot_key, is_assigned, mem_text}
use hydra_umc_job_dispatcher.Held.{note_held, held_ids}
use hydra_umc_job_dispatcher.Held.Index.{note_held-mem, note_held_self}
use hydra_umc_job_dispatcher.Dispatch.{give_to, set_available}
use hydra_umc_job_dispatcher.Reservation.{IsReserved, IsIdle}

-- A new robot, with a name.
pub register-IsReserved :
    {jobs : List Job} {robots : List Robot} {held : List Holding} (r : Robot)
    → find robot_key r.id robots ≡ none
    → r.id ≢ []
    → IsReserved jobs robots held
    → IsReserved jobs (put robot_key r robots) held
register-IsReserved {jobs} {robots} {held} r new name v = record {
  reserved = λ x j g a.
      let (w, h, u) = v.reserved x j g a in
      let found = find-put robot_key j.assigned_robot r robots in
      elim (text_dec r.id j.assigned_robot) [
        | yes p ↦ absurd (clash (sym new ∙ ap (λ z. find robot_key z robots) p ∙ h))
        | no p ↦ (w, ground arith, u)
      ];
  exclusive = v.exclusive;
  indexed = v.indexed;
  named = ground (arith, find-put robot_key [] r robots, v.named);
  distinct = put-Distinct robot_key r robots v.distinct;
}
  where
    clash : {w : Robot} → none ≡ some w → ⊥
    clash e = cc

-- A robot that no assigned job names is forgotten.
pub forget-IsReserved :
    {jobs : List Job} {robots : List Robot} {held : List Holding} (r : Text)
    → IsIdle r jobs
    → IsReserved jobs robots held
    → IsReserved jobs (delete robot_key r robots) held
forget-IsReserved {jobs} {robots} {held} r idle v = record {
  reserved = λ x j g a.
      let (w, h, u) = v.reserved x j g a in
      let found = find-delete robot_key j.assigned_robot r robots in
      elim (text_dec r j.assigned_robot) [
        | yes p ↦ absurd (idle x j g a (sym p))
        | no p ↦ (w, ground arith, u)
      ];
  exclusive = v.exclusive;
  indexed = v.indexed;
  named = ground (arith, find-delete robot_key [] r robots, v.named);
  distinct = delete-Distinct robot_key r robots v.distinct;
}

-- A job that is not assigned enters the queue and is noted in the index.
pub enter-IsReserved :
    {jobs : List Job} {robots : List Robot} {held : List Holding} (k : Job)
    → is_assigned k.status ≡ false
    → IsReserved jobs robots held
    → IsReserved (put job_key k jobs) robots (note_held k held)
enter-IsReserved {jobs} {robots} {held} k waits v = record {
  reserved = λ x j g a. v.reserved x j (old x j g a) a;
  exclusive = λ x y i j f g a b e. v.exclusive x y i j (old x i f a) (old y j g b) a b e;
  indexed = λ x j g n.
      let found = find-put job_key x k jobs in
      elim (text_dec k.id x) [
        | yes p ↦
            let e = some_inj (sym (found ∙ if_pos (text_dec k.id x) p _ _) ∙ g) in
            subst (λ z. mem_text x (held_ids z.assigned_robot (note_held k held)) ≡ true) e
              (subst (λ z. mem_text z (held_ids k.assigned_robot (note_held k held)) ≡ true) p
                (note_held_self k held (subst (λ z. is_empty z.assigned_robot ≡ false) (sym e) n)))
        | no p ↦
            note_held-mem x j.assigned_robot k held
              (v.indexed x j (sym (found ∙ if_neg (text_dec k.id x) p _ _) ∙ g) n)
      ];
  named = v.named;
  distinct = v.distinct;
}
  where
    old :
        (x : Text) (j : Job)
        → find job_key x (put job_key k jobs) ≡ some j
        → is_assigned j.status ≡ true
        → find job_key x jobs ≡ some j
    old x j g a = ground (arith, find-put job_key x k jobs)

module _ {jobs : List Job} {robots : List Robot} {held : List Holding} (k : Job) (r : Robot)
    (at : ℤ) (v : IsReserved jobs robots held) (found : find robot_key r.id robots ≡ some r)
    (free : IsIdle r.id jobs) where
  -- A job after the change is the given one, or the one that was there.
  given_cases :
      (x : Text) (j : Job)
      → find job_key x (update job_key k.id (give_to r.id at) jobs) ≡ some j
      → ((x ≡ k.id) × (j.assigned_robot ≡ r.id)) ⊎ (find job_key x jobs ≡ some j)
  given_cases x j g =
      let e = find-update job_key x k.id (give_to r.id at) jobs (λ z. refl) in
      elim (text_dec k.id x) [
        | yes p ↦
            let h = sym (e ∙ if_pos (text_dec k.id x) p _ _) ∙ g in
            elim (Option-cases (find job_key x jobs)) [
              | inl q ↦ absurd (ground arith)
              | inr (i, q) ↦
                  let m = some_inj (ap (Option.map (give_to r.id at)) (sym q) ∙ h) in
                  inl (sym p, sym (ap (λ z. z.assigned_robot) m))
            ]
        | no p ↦ inr (sym (e ∙ if_neg (text_dec k.id x) p _ _) ∙ g)
      ]

  given_reserved :
      (x : Text) (j : Job)
      → find job_key x (update job_key k.id (give_to r.id at) jobs) ≡ some j
      → is_assigned j.status ≡ true
      → (w : Robot) × (find robot_key j.assigned_robot
            (update robot_key r.id (set_available false) robots)
          ≡ some w)
        × (w.available ≡ false)
  given_reserved x j g a =
      let e =
        find-update robot_key j.assigned_robot r.id (set_available false) robots (λ z. refl) in
      elim (given_cases x j g) [
        | inl (_, n) ↦ (
          set_available false r,
          e
              ∙ if_pos (text_dec r.id j.assigned_robot) (sym n) _ _
              ∙ ap (Option.map (set_available false)) (ap (λ z. find robot_key z robots) n ∙ found),
          refl,
        )
        | inr f ↦
            let (w, h, u) = v.reserved x j f a in
            (w, e ∙ if_neg (text_dec r.id j.assigned_robot) (λ n. free x j f a (sym n)) _ _ ∙ h, u)
      ]

  given_exclusive :
      (x y : Text) (i j : Job)
      → find job_key x (update job_key k.id (give_to r.id at) jobs) ≡ some i
      → find job_key y (update job_key k.id (give_to r.id at) jobs) ≡ some j
      → is_assigned i.status ≡ true
      → is_assigned j.status ≡ true
      → i.assigned_robot ≡ j.assigned_robot
      → x ≡ y
  given_exclusive x y i j f g a b e = elim (given_cases x i f) [
    | inl (p, m) ↦ elim (given_cases y j g) [
      | inl (q, n) ↦ p ∙ sym q
      | inr n ↦ absurd (free y j n b (sym e ∙ m))
    ]
    | inr m ↦ elim (given_cases y j g) [
      | inl (q, n) ↦ absurd (free x i m a (e ∙ n))
      | inr n ↦ v.exclusive x y i j m n a b e
    ]
  ]

  given_indexed :
      (x : Text) (j : Job)
      → find job_key x (update job_key k.id (give_to r.id at) jobs) ≡ some j
      → is_empty j.assigned_robot ≡ false
      → mem_text x (held_ids j.assigned_robot (note_held (give_to r.id at k) held)) ≡ true
  given_indexed x j g n = elim (given_cases x j g) [
    | inl (p, name) ↦
        subst₂ (λ y z. mem_text y (held_ids z (note_held (give_to r.id at k) held)) ≡ true) (sym p)
          (sym name)
          (note_held_self (give_to r.id at k) held (subst (λ z. is_empty z ≡ false) name n))
    | inr f ↦ note_held-mem x j.assigned_robot (give_to r.id at k) held (v.indexed x j f n)
  ]

  -- A job is given to a robot that has none, which is taken and noted.
  pub assign-IsReserved :
      IsReserved
        (update job_key k.id (give_to r.id at) jobs)
        (update robot_key r.id (set_available false) robots)
        (note_held (give_to r.id at k) held)
  assign-IsReserved = record {
    reserved = given_reserved;
    exclusive = given_exclusive;
    indexed = given_indexed;
    named =
        ground
          (arith, find-update robot_key [] r.id (set_available false) robots (λ z. refl), v.named);
    distinct = update-Distinct robot_key r.id (set_available false) robots (λ z. refl) v.distinct;
  }
