-- ===== src/Lifecycle/Sound.antt =====
-- What every queue keeps on its way: each dependency is there, no job waits for itself through
-- others, and no job is ahead of the jobs that it waits for.
use hydra_umc_job_dispatcher.Common.{
  ℕ, ◌≡◌, refl, sym, ◌∙◌, ap, subst, ◌⊎◌, inl, inr, Bool, true, false, ◌||◌, not, none, some, List,
  [], ◌∷◌, Text, Elem, Elem-cons, Option-cases, Bool-cases, some_inj, arith,
}
use hydra_umc_job_dispatcher.Common.Keyed.{find}
use hydra_umc_job_dispatcher.Model.{Job, JobStatus, job_key, is_done}
use hydra_umc_job_dispatcher.Graph.Reach.{Reach}
use hydra_umc_job_dispatcher.Status.{compute_from, compute_status, is_waiting, ends_badly}
use hydra_umc_job_dispatcher.Status.Settled.{Ranked}
use hydra_umc_job_dispatcher.Status.Rank.{Closed}
use hydra_umc_job_dispatcher.Status.Verdict.{compute_status-is_waiting}
use hydra_umc_job_dispatcher.Lifecycle.{
  Known, Move, given, taken_back, succeeded, failed, withdrawn, judged, lost, retried,
}

-- A job that may be given to a robot, or was.
abbrev pub is_ready : JobStatus → Bool
is_ready JobStatus.pending = true
is_ready JobStatus.assigned = true
is_ready JobStatus.unknown = true
is_ready JobStatus.done = true
is_ready _ = false

-- The dependencies of a job are done.
abbrev pub DepsDone : List Job → List Text → Type 0
DepsDone js deps =
    (d : Text) (k : Job) → Elem d deps → find job_key d js ≡ some k → is_done k.status ≡ true

pub record IsSound (js : List Job) : Type 0 where
  pub closed : Closed js
  pub ready :
      (x : Text) (j : Job)
      → find job_key x js ≡ some j
      → is_ready j.status ≡ true
      → DepsDone js j.depends_on
  pub rank : Text → ℕ
  pub ranked : Ranked rank js

compute_from_pending :
    (js : List Job) (b : Bool) (deps : List Text)
    → compute_from js b deps ≡ JobStatus.pending
    → DepsDone js deps × (b ≡ false)
unfolding compute_from
compute_from_pending js true [] h = absurd (cc)
compute_from_pending js false [] h = (λ d k m. elim m [ ], refl)
compute_from_pending js b (x ∷ deps) h = elim (Option-cases (find job_key x js)) [
  | inl q ↦
      let (all, n) = compute_from_pending js b deps (rw (q, compute_from) at h) in
      (λ d k m f. first d k m f (λ p. absurd (missing d k q f p)) all, n)
  | inr (j, q) ↦ elim (Bool-cases (ends_badly j.status)) [
    | inl bad ↦ absurd (clash (rw bad at (rw (q, compute_from) at h)))
    | inr fine ↦
        let (all, n) =
          compute_from_pending js (b || not (is_done j.status)) deps
            (rw fine at (rw (q, compute_from) at h)) in
        (λ d k m f. first d k m f (λ p. found d k j q f p (ground arith)) all, ground arith)
  ]
]
  where
    clash : JobStatus.unreachable ≡ JobStatus.pending → ⊥
    clash e = cc

    missing :
        (d : Text) (k : Job) → find job_key x js ≡ none → find job_key d js ≡ some k → d ≡ x → ⊥
    missing d k q f p = let e = sym q ∙ ap (λ z. find job_key z js) (sym p) ∙ f in cc

    found :
        (d : Text) (k j : Job)
        → find job_key x js ≡ some j
        → find job_key d js ≡ some k
        → d ≡ x
        → is_done j.status ≡ true
        → is_done k.status ≡ true
    found d k j q f p done =
        subst (λ z. is_done z.status ≡ true)
          (some_inj (sym q ∙ ap (λ z. find job_key z js) (sym p) ∙ f)) done

    first :
        (d : Text) (k : Job)
        → Elem d (x ∷ deps)
        → find job_key d js ≡ some k
        → (d ≡ x → is_done k.status ≡ true)
        → DepsDone js deps
        → is_done k.status ≡ true
    first d k m f own all = elim (Elem-cons m) [ inl e ↦ own e | inr n ↦ all d k n f ]

-- A fresh verdict that lets a job go means that its dependencies are done.
pub verdict_ready :
    (js : List Job) (k : Job) (s : JobStatus)
    → s ≡ compute_status js k
    → is_ready s ≡ true
    → DepsDone js k.depends_on
unfolding compute_status
verdict_ready js k s e r =
    let w = compute_status-is_waiting js k in
    (compute_from_pending js false k.depends_on
      (pending (subst (λ z. is_waiting z ≡ true) (sym e) w) r e)).0
  where
    pending :
        {s v : JobStatus} → is_waiting s ≡ true → is_ready s ≡ true → s ≡ v → v ≡ JobStatus.pending
    pending {s} w r e = ground arith

module _ (js : List Job) (v : IsSound js) (k l : Job) (found : find job_key k.id js ≡ some k)
    (m : Move js k l) where
  -- A done job stays as it is.
  pub moved_not_done : is_done k.status ≡ false
  moved_not_done = elim m [
    | given a b c ↦ ground arith
    | taken_back a b c ↦ ground arith
    | succeeded a b c ↦ ground arith
    | failed a b c ↦ ground arith
    | withdrawn a b c ↦ ground arith
    | judged a b c ↦ ground arith
    | lost a b c ↦ ground arith
    | retried a b c d ↦ ground arith
  ]

  same_ready : is_ready k.status ≡ true → l.depends_on ≡ k.depends_on → DepsDone js l.depends_on
  same_ready r c = subst (λ z. DepsDone js z) (sym c) (v.ready k.id k found r)

  pub moved_ready : is_ready l.status ≡ true → DepsDone js l.depends_on
  moved_ready r = elim m [
    | given a b c ↦ same_ready (ground arith) c
    | taken_back a b c ↦ same_ready (ground arith) c
    | succeeded a b c ↦ same_ready (ground arith) c
    | failed a b c ↦ absurd (ground arith)
    | withdrawn a b c ↦ absurd (ground arith)
    | judged a b c ↦ subst (λ z. DepsDone js z) (sym c) (verdict_ready js k l.status b r)
    | lost a b c ↦ same_ready (ground arith) c
    | retried a b c d ↦ verdict_ready js l l.status b r
  ]

  pub moved-Known : Known js l.depends_on
  moved-Known = elim m [
    | given a b c ↦ same_known c
    | taken_back a b c ↦ same_known c
    | succeeded a b c ↦ same_known c
    | failed a b c ↦ same_known c
    | withdrawn a b c ↦ same_known c
    | judged a b c ↦ same_known c
    | lost a b c ↦ same_known c
    | retried a b c d ↦ c
  ]
    where
      same_known : l.depends_on ≡ k.depends_on → Known js l.depends_on
      same_known c = subst (λ z. Known js z) (sym c) (λ d n. v.closed k.id d k found n)

  -- The dependencies that it has now are those it had, or they do not lead back to it.
  pub moved_deps :
      (l.depends_on ≡ k.depends_on) ⊎ ((d : Text) → Elem d l.depends_on → Reach js k.id d → ⊥)
  moved_deps = elim m [
    | given a b c ↦ inl c
    | taken_back a b c ↦ inl c
    | succeeded a b c ↦ inl c
    | failed a b c ↦ inl c
    | withdrawn a b c ↦ inl c
    | judged a b c ↦ inl c
    | lost a b c ↦ inl c
    | retried a b c d ↦ inr d
  ]
