-- ===== src/Dispatch/Best.antt =====
-- The robot that the scheduler picks.
use hydra_umc_job_dispatcher.Common.{
  ◌≡◌, subst, ◌⊎◌, inl, inr, Bool, true, ◌&&◌, not, Option, none, some, List, [], ◌∷◌, is_empty,
  Elem, here, there, select, Elem-select, Bool-cases, Option-cases, some_inj, arith,
}
use hydra_umc_job_dispatcher.Model.{Job, Robot}
use hydra_umc_job_dispatcher.Engine.{Engine}
use hydra_umc_job_dispatcher.Dispatch.{
  best_by, best_robot_for, robot_eligible, lighter, in_location,
}

-- The best robot is one of the list.
best_by-Elem :
    (better : Robot → Robot → Bool) (o : Option Robot) (rs : List Robot) {r : Robot}
    → best_by better o rs ≡ some r
    → (o ≡ some r) ⊎ Elem r rs
unfolding best_by
best_by-Elem better o [] h = inl h
best_by-Elem better none (x ∷ rs) {r} h = elim (best_by-Elem better (some x) rs h) [
  | inl e ↦ inr (subst (λ z. Elem z (x ∷ rs)) (some_inj e) here)
  | inr m ↦ inr (there m)
]
best_by-Elem better (some b) (x ∷ rs) {r} h = elim (Bool-cases (better x b)) [
  | inl t ↦ elim (best_by-Elem better (some x) rs (rw t at h)) [
    | inl e ↦ inr (subst (λ z. Elem z (x ∷ rs)) (some_inj e) here)
    | inr m ↦ inr (there m)
  ]
  | inr t ↦ elim (best_by-Elem better (some b) rs (rw t at h)) [
    | inl e ↦ inl e
    | inr m ↦ inr (there m)
  ]
]

pub best_of-Elem :
    (better : Robot → Robot → Bool) (rs : List Robot) {r : Robot}
    → best_by better none rs ≡ some r
    → Elem r rs
best_of-Elem better rs h = elim (best_by-Elem better none rs h) [ inl e ↦ absurd (cc) | inr m ↦ m ]

module _ {S : Type 0} where
  -- A robot is picked only from the registry, and only if it may be offered the job.
  pub best_robot_for-eligible :
      (e : Engine S) (j : Job) {r : Robot}
      → best_robot_for e j ≡ some r
      → Elem r e.robots × (robot_eligible e j r ≡ true)
  unfolding best_robot_for
  best_robot_for-eligible e j {r} h =
      elim (Bool-cases (e.location.enabled && not (is_empty j.location))) [
        | inl t ↦ Elem-select (robot_eligible e j) r e.robots (best_of-Elem _ _ (rw t at h))
        | inr t ↦ elim (Option-cases (best_by lighter none here_first)) [
          | inr (b, q) ↦
              let m = best_of-Elem lighter here_first q in
              let k = Elem-select (in_location j) b (select (robot_eligible e j) e.robots) m in
              subst (λ z. Elem z e.robots × (robot_eligible e j z ≡ true))
                (some_inj (rw (t, q) at h)) (Elem-select (robot_eligible e j) b e.robots k.0)
          | inl q ↦
              Elem-select (robot_eligible e j) r e.robots (best_of-Elem lighter _ (rw (t, q) at h))
        ]
      ]
    where
      here_first : List Robot
      here_first = select (in_location j) (select (robot_eligible e j) e.robots)

  -- An eligible robot is available.
  pub eligible_available :
      (e : Engine S) (j : Job) (r : Robot) → robot_eligible e j r ≡ true → r.available ≡ true
  unfolding robot_eligible
  eligible_available e j r h = ground arith
