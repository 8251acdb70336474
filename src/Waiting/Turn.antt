-- ===== src/Waiting/Turn.antt =====
-- The view agrees with the scheduler: a job waits for its turn exactly if a robot would be picked.
use hydra_umc_job_dispatcher.Common.{
  ◌≡◌, ◌≢◌, refl, inl, inr, true, false, some, List, [], ◌∷◌, Elem, here, there, Elem-cons,
  Bool-cases, Option-cases, subst, arith,
}
use hydra_umc_job_dispatcher.Model.{Job, Robot}
use hydra_umc_job_dispatcher.Engine.{Engine, is_nil}
use hydra_umc_job_dispatcher.Dispatch.{robot_eligible, best_robot_for}
use hydra_umc_job_dispatcher.Dispatch.Best.{best_robot_for-eligible}
use hydra_umc_job_dispatcher.Dispatch.Least.{best_robot_for-none}
use hydra_umc_job_dispatcher.Waiting.{
  its_turn, Counts, lacks_tool, count_robot, reason_of_counts, reason_from, wait_reason,
}

is_nil-Elem : {r : Robot} {rs : List Robot} → Elem r rs → is_nil rs ≡ false
is_nil-Elem here = refl
is_nil-Elem (there m) = refl

module _ {S : Type 0} (e : Engine S) (j : Job) where
  eligible_has_tool : (r : Robot) → robot_eligible e j r ≡ true → lacks_tool j r ≡ false
  unfolding robot_eligible
  eligible_has_tool r h = ground arith

  reason_from_turn :
      (c : Counts) (rs : List Robot) {r : Robot}
      → Elem r rs
      → robot_eligible e j r ≡ true
      → reason_from e j c rs ≡ its_turn
  unfolding reason_from
  reason_from_turn c [] m h = elim m [ ]
  reason_from_turn c (x ∷ rs) {r} m h = elim (Elem-cons m) [
    | inl q ↦
        let fit = subst (λ z. robot_eligible e j z ≡ true) q h in
        rw (eligible_has_tool x fit, fit) refl
    | inr k ↦ elim (Bool-cases (lacks_tool j x)) [
      | inl l ↦ rw l (reason_from_turn c rs k h)
      | inr l ↦ elim (Bool-cases (robot_eligible e j x)) [
        | inl f ↦ rw (l, f) refl
        | inr f ↦ rw (l, f) (reason_from_turn (count_robot e j x c) rs k h)
      ]
    ]
  ]

  reason_of_counts_not : (c : Counts) → reason_of_counts c ≢ its_turn
  reason_of_counts_not c h = ground arith

  turn_eligible :
      (c : Counts) (rs : List Robot)
      → reason_from e j c rs ≡ its_turn
      → (r : Robot) × Elem r rs × (robot_eligible e j r ≡ true)
  unfolding reason_from
  turn_eligible c [] h = absurd (reason_of_counts_not c h)
  turn_eligible c (x ∷ rs) h = elim (Bool-cases (lacks_tool j x)) [
    | inl l ↦ let (r, m, f) = turn_eligible c rs (rw l at h) in (r, there m, f)
    | inr l ↦ elim (Bool-cases (robot_eligible e j x)) [
      | inl f ↦ (x, here, f)
      | inr f ↦
          let (r, m, g) = turn_eligible (count_robot e j x c) rs (rw (l, f) at h) in (r, there m, g)
    ]
  ]

  -- If the scheduler would pick a robot for the job, the view says that the job waits for its turn.
  pub picked_its_turn : {r : Robot} → best_robot_for e j ≡ some r → wait_reason e j ≡ its_turn
  unfolding wait_reason
  picked_its_turn {r} h =
      let (m, f) = best_robot_for-eligible e j h in
      rw (is_nil-Elem m) (reason_from_turn _ e.robots m f)

  -- If the view says that the job waits for its turn, the scheduler would pick a robot.
  pub its_turn_picked : wait_reason e j ≡ its_turn → (r : Robot) × (best_robot_for e j ≡ some r)
  unfolding wait_reason
  its_turn_picked h = elim (Option-cases (best_robot_for e j)) [
    | inr (r, q) ↦ (r, q)
    | inl q ↦ elim (Bool-cases (is_nil e.robots)) [
      | inl n ↦ absurd (ground arith)
      | inr n ↦
          let (r, m, f) = turn_eligible _ e.robots (rw n at h) in
          let none_fits = best_robot_for-none e j q r m in absurd (cc)
    ]
  ]
