-- ===== src/Reservation/Sheds.antt =====
-- The changes of one job that end or withdraw an assignment, and the refresh of the verdicts.
use mathlib.Core.Option
use hydra_umc_job_dispatcher.Common.{
  ◌≡◌, refl, sym, ◌∙◌, ap, subst, inl, inr, true, false, some, List, Text, text_dec, is_empty,
  Option-cases, some_inj, if_pos, if_neg, arith,
}
use hydra_umc_job_dispatcher.Common.Keyed.{find, update, find-update}
use hydra_umc_job_dispatcher.Model.{Job, JobStatus, job_key, is_assigned, Robot, Holding}
use hydra_umc_job_dispatcher.Engine.{Engine, StoreOps}
use hydra_umc_job_dispatcher.Status.{is_waiting, refresh_blocked, set_status}
use hydra_umc_job_dispatcher.Status.Passes.{
  refresh_jobs, refresh_blocked-jobs, refresh_blocked-Beside,
}
use hydra_umc_job_dispatcher.Status.Settled.{Reverdict, refresh_jobs-Reverdict}
use hydra_umc_job_dispatcher.Reservation.{IsReserved, EngineIsReserved, Sheds, shed-IsReserved}

pub is_assigned_waiting : (s : JobStatus) → is_waiting s ≡ true → is_assigned s ≡ false
is_assigned_waiting s h = ground arith

-- A change that assigns no job and names no other robot.
abbrev pub IsRelease : (Job → Job) → Type 0
IsRelease f =
    (j : Job)
    → (job_key (f j) ≡ job_key j)
      × (is_assigned (f j).status ≡ true → is_assigned j.status ≡ true)
      × (is_empty (f j).assigned_robot ≡ false → j.assigned_robot ≡ (f j).assigned_robot)
      × (is_assigned (f j).status ≡ true → j.assigned_robot ≡ (f j).assigned_robot)

pub update-Sheds :
    (id : Text) (f : Job → Job) (js : List Job) → IsRelease f → Sheds js (update job_key id f js)
update-Sheds id f js release x k g =
    let e = find-update job_key x id f js (λ j. (release j).0) in
    elim (text_dec id x) [
      | no p ↦
          let h = sym (e ∙ if_neg (text_dec id x) p _ _) ∙ g in
          (λ a. (k, h, a, refl), λ n. (k, h, refl))
      | yes p ↦ changed (sym (e ∙ if_pos (text_dec id x) p _ _) ∙ g)
    ]
  where
    changed :
        Option.map f (find job_key x js) ≡ some k
        → (is_assigned k.status ≡ true
            → (j : Job) × (find job_key x js ≡ some j)
              × (is_assigned j.status ≡ true)
              × (j.assigned_robot ≡ k.assigned_robot))
          × (is_empty k.assigned_robot ≡ false
              → (j : Job) × (find job_key x js ≡ some j) × (j.assigned_robot ≡ k.assigned_robot))
    changed h = elim (Option-cases (find job_key x js)) [
      | inl q ↦ absurd (ground arith)
      | inr (j, q) ↦
          let m = some_inj (ap (Option.map f) (sym q) ∙ h) in
          let (_, a, b, c) = release j in
          (
            λ t.
                let u = subst (λ z. is_assigned z.status ≡ true) (sym m) t in
                (j, q, a u, c u ∙ ap (λ z. z.assigned_robot) m),
            λ t. (
              j,
              q,
              b (subst (λ z. is_empty z.assigned_robot ≡ false) (sym m) t)
                  ∙ ap (λ z. z.assigned_robot) m,
            ),
          )
    ]

pub Reverdict-Sheds : (js ks : List Job) → Reverdict js ks → Sheds js ks
Reverdict-Sheds js ks r x k g = elim (r x) [
  | inl e ↦ let h = sym e ∙ g in (λ a. (k, h, a, refl), λ n. (k, h, refl))
  | inr (j, s, f, w, u, h) ↦
      let m : set_status s j ≡ k = some_inj (sym h ∙ g) in
      (
        λ t. absurd (clash s u (subst (λ z. is_assigned z.status ≡ true) (sym m) t)),
        λ t. (j, f, ap (λ z. z.assigned_robot) m),
      )
]
  where
    clash : (s : JobStatus) → is_waiting s ≡ true → is_assigned s ≡ true → ⊥
    clash s u t = ground arith

pub update-IsReserved :
    {js : List Job} {robots : List Robot} {held : List Holding} (id : Text) (f : Job → Job)
    → IsRelease f
    → IsReserved js robots held
    → IsReserved (update job_key id f js) robots held
update-IsReserved {js} id f release v = shed-IsReserved (update-Sheds id f js release) v

module _ {S : Type 0} (ops : StoreOps S) where
  pub refresh_blocked-IsReserved :
      (e : Engine S) → EngineIsReserved e → EngineIsReserved (refresh_blocked ops e).0
  refresh_blocked-IsReserved e v =
      let after = (refresh_blocked ops e).0 in
      let beside = refresh_blocked-Beside ops e in
      subst (λ js. IsReserved js after.robots after.held_by) (sym (refresh_blocked-jobs ops e))
        (subst (λ rs. IsReserved (refresh_jobs e.jobs) rs after.held_by) (sym beside.robots)
          (subst (λ hs. IsReserved (refresh_jobs e.jobs) e.robots hs) (sym beside.held_by)
            (shed-IsReserved
              (Reverdict-Sheds e.jobs (refresh_jobs e.jobs) (refresh_jobs-Reverdict e.jobs)) v)))
