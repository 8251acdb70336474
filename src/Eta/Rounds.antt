-- ===== src/Eta/Rounds.antt =====
-- One round of the plan: a job that gets an estimate starts when its dependencies have ended.
use hydra_umc_job_dispatcher.Common.{
  ◌≡◌, refl, sym, ◌∙◌, ap, subst, inl, inr, Bool, true, false, ◌&&◌, not, none, some, List, [], ◌∷◌,
  Text, eqt, is_empty, Elem, Elem-cons, Bool-cases, Option-cases, some_inj, if◌then◌else◌,
}
use hydra_umc_job_dispatcher.Common.Int.{
  ℤ, pos, ◌≤ℤ◌, le_ℤ_trans, le_ℤ_refl, max_ℤ_left, max_ℤ_right,
}
use hydra_umc_job_dispatcher.Common.Keyed.{find}
use hydra_umc_job_dispatcher.Model.{Job, Robot, job_key, mem_text}
use hydra_umc_job_dispatcher.Engine.{Engine}
use hydra_umc_job_dispatcher.Eta.{Basis, DurationModel, for_tool}
use hydra_umc_job_dispatcher.Eta.Plan.{
  JobEta, EtaReason, Plan, FreeAt, Choice, Ready, dead, not_known, ready_at, eta_key, free_key,
  with_reason, later, is_ended_well, ends_dead, is_open_eta, when_estimated, estimate, mark,
  dep_ready, choose, is_better, place, settle, plan_job, no_duration, no_robot_available,
  no_robot_with_tool, dependency,
}

module _ {S : Type 0} (e : Engine S) where
  -- The dependencies that have not ended well are estimated to end by `t`.
  abbrev pub DepsEnd : List JobEta → List Text → ℤ → Type 0
  DepsEnd results deps t =
      (d : Text) (k : Job)
      → Elem d deps
      → find job_key d e.jobs ≡ some k
      → is_ended_well k.status ≡ false
      → (end : ℤ) × (when_estimated (find eta_key d results) ≡ some end) × (end ≤ℤ t)

ready_inj : {t u : ℤ} → ready_at t ≡ ready_at u → t ≡ u
ready_inj h = cc

module _ {S : Type 0} (e : Engine S) (m : DurationModel) where
  DepsEnd-cons :
      (results : List JobEta) (dep : Text) (deps : List Text) (t : ℤ)
      → ((k : Job)
          → find job_key dep e.jobs ≡ some k
          → is_ended_well k.status ≡ false
          → (end : ℤ) × (when_estimated (find eta_key dep results) ≡ some end) × (end ≤ℤ t))
      → DepsEnd e results deps t
      → DepsEnd e results (dep ∷ deps) t
  DepsEnd-cons results dep deps t first rest d k n f w = elim (Elem-cons n) [
    | inr l ↦ rest d k l f w
    | inl q ↦
        let (end, a, b) = first k (ap (λ z. find job_key z e.jobs) (sym q) ∙ f) w in
        (end, ap (λ z. when_estimated (find eta_key z results)) q ∙ a, b)
  ]

  -- A time at which the dependencies are ready is not before any of their ends.
  dep_ready_lem :
      (results : List JobEta) (t u : ℤ) (known : Bool) (deps : List Text)
      → dep_ready e m results t known deps ≡ ready_at u
      → (known ≡ true) × (t ≤ℤ u) × DepsEnd e results deps u
  unfolding dep_ready
  dep_ready_lem results t u false [] h = absurd (cc)
  dep_ready_lem results t u true [] h =
      (refl, subst (λ z. t ≤ℤ z) (ready_inj h) (le_ℤ_refl t), λ d k n. elim n [ ])
  dep_ready_lem results t u known (dep ∷ deps) h = elim (Option-cases (find job_key dep e.jobs)) [
    | inl q ↦
        let (a, b, c) = dep_ready_lem results t u known deps (rw (q, dep_ready) at h) in
        (a, b, DepsEnd-cons results dep deps u (λ k f. absurd (cc)) c)
    | inr (d, q) ↦ elim (Bool-cases (is_ended_well d.status)) [
      | inl w ↦
          let (a, b, c) = dep_ready_lem results t u known deps (rw w at (rw (q, dep_ready) at h)) in
          (a, b, DepsEnd-cons results dep deps u (λ k f n. absurd (open_k d k q f w n)) c)
      | inr w ↦ elim (Bool-cases (ends_dead d.status)) [
        | inl x ↦ absurd (not_ready (rw (w, x) at (rw (q, dep_ready) at h)))
        | inr x ↦ elim (Bool-cases (is_open_eta (find eta_key dep results))) [
          | inl o ↦
              let (a, _, _) =
                dep_ready_lem results t u false deps (rw (w, x, o) at (rw (q, dep_ready) at h)) in
              absurd (false_true a)
          | inr o ↦ elim (Option-cases (when_estimated (find eta_key dep results))) [
            | inl n ↦ absurd (not_ready (rw (w, x, o, n) at (rw (q, dep_ready) at h)))
            | inr (end, n) ↦
                let (a, b, c) =
                  dep_ready_lem results (later t end) u known deps
                    (rw (w, x, o, n) at (rw (q, dep_ready) at h)) in
                (
                  a,
                  le_ℤ_trans t (later t end) u (max_ℤ_left t end) b,
                  DepsEnd-cons results dep deps u
                      (λ k f z. (end, n, le_ℤ_trans end (later t end) u (max_ℤ_right t end) b)) c,
                )
          ]
        ]
      ]
    ]
  ]
    where
      not_ready : dead ≡ ready_at u → ⊥
      not_ready p = cc

      false_true : false ≡ true → ⊥
      false_true p = cc

      open_k :
          (d k : Job)
          → find job_key dep e.jobs ≡ some d
          → find job_key dep e.jobs ≡ some k
          → is_ended_well d.status ≡ true
          → is_ended_well k.status ≡ false
          → ⊥
      open_k d k q f w n =
          clash (subst (λ z. is_ended_well z.status ≡ true) (some_inj (sym q ∙ f)) w) n
        where
          clash : {b : Bool} → b ≡ true → b ≡ false → ⊥
          clash x y = cc

  choose_lem :
      (j : Job) (ready : ℤ) (free : List FreeAt) (rs : List Robot) (c : Choice) (r : Robot)
      (start : ℤ)
      → ((w : Robot) (at : ℤ) → c.best ≡ some (w, at) → ready ≤ℤ at)
      → (choose e m j ready free rs c).best ≡ some (r, start)
      → ready ≤ℤ start
  unfolding choose
  choose_lem j ready free [] c r start all h = all r start h
  choose_lem j ready free (w ∷ rs) c r start all h =
      elim (Bool-cases (not (is_empty j.required_tool) && not (eqt w.tool j.required_tool))) [
        | inl x ↦ choose_lem j ready free rs c r start all (rw (x, choose) at h)
        | inr x ↦ elim (Option-cases (find free_key w.id free)) [
          | inl q ↦
              choose_lem j ready free rs (record c { tool_exists = true }) r start all
                (rw (x, q, choose) at h)
          | inr (f, q) ↦ elim (Bool-cases (is_better e m j w (later f.at ready) c.best)) [
            | inr b ↦
                choose_lem j ready free rs (record c { tool_exists = true }) r start all
                  (rw (x, q, b, choose) at h)
            | inl b ↦
                choose_lem j ready free rs
                  (record { best = some (w, later f.at ready); tool_exists = true }) r start
                  (λ v at g. subst (λ z. ready ≤ℤ z.1) (some_inj g) (max_ℤ_right f.at ready))
                  (rw (x, q, b, choose) at h)
          ]
        ]
      ]

  -- What one round writes.
  pub data Wrote (j : Job) (p : Plan) : Plan → Type 0 where
    nothing : Wrote j p p
    no_estimate : (x : EtaReason) → Wrote j p (mark j (with_reason x) p)
    an_estimate :
        (robot_id : Text) (start ms : ℤ) (b : Basis) (free : List FreeAt)
        → DepsEnd e p.results j.depends_on start
        → Wrote j p (record (mark j (estimate robot_id start ms b) p) { free = free })

  DepsEnd-later :
      (results : List JobEta) (deps : List Text) (t u : ℤ)
      → t ≤ℤ u
      → DepsEnd e results deps t
      → DepsEnd e results deps u
  DepsEnd-later results deps t u l v d k n f w =
      let (end, a, b) = v d k n f w in (end, a, le_ℤ_trans end t u b l)

  place-Wrote :
      (j : Job) (t : ℤ) (p : Plan)
      → DepsEnd e p.results j.depends_on t
      → Wrote j p (place e m j t p)
  unfolding place
  place-Wrote j t p v = elim (Option-cases (for_tool m j.required_tool)) [
    | inl q ↦ rw (q, place) (no_estimate no_duration)
    | inr ((ms, b), q) ↦
        let c = choose e m j t p.free e.robots (record { best = none; tool_exists = false }) in
        elim (Option-cases c.best) [
          | inl n ↦
              rw (q, n, place)
                (no_estimate (if c.tool_exists then no_robot_available else no_robot_with_tool))
          | inr ((r, start), n) ↦
              rw (q, n, place)
                (an_estimate r.id start ms b _ (
                  DepsEnd-later p.results j.depends_on t start
                    (choose_lem j t p.free e.robots (record { best = none; tool_exists = false }) r
                      start (λ w at g. absurd (cc)) n)
                    v))
        ]
  ]

  pub plan_job-Wrote :
      (j : Job) (p : Plan)
      → Wrote j p (plan_job e m j p) × (mem_text j.id p.planned ≡ true → plan_job e m j p ≡ p)
  unfolding plan_job settle
  plan_job-Wrote j p = elim (Bool-cases (mem_text j.id p.planned)) [
    | inl t ↦ rw t (nothing, λ n. refl)
    | inr t ↦ (
      rw t (settled (dep_ready e m p.results (pos 0) true j.depends_on) refl),
      λ n. absurd (clash n t),
    )
  ]
    where
      clash : {b : Bool} → b ≡ true → b ≡ false → ⊥
      clash x y = cc

      settled :
          (r : Ready)
          → dep_ready e m p.results (pos 0) true j.depends_on ≡ r
          → Wrote j p (settle e m j r p)
      settled dead h = no_estimate dependency
      settled not_known h = nothing
      settled (ready_at t) h =
          let (_, _, v) = dep_ready_lem p.results (pos 0) t true j.depends_on h in
          place-Wrote j t p v
