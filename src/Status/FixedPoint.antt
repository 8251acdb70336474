-- ===== src/Status/FixedPoint.antt =====
-- The loop of refreshBlocked reaches its fixed point: each pass settles one rank more.
use hydra_umc_job_dispatcher.Common.{
  ℕ, zero, suc, ◌+◌, ◌≤◌, ◌<◌, ◌≡◌, refl, sym, ◌∙◌, ap, subst, ◌⊎◌, inl, inr, true, false, some,
  List, [], ◌∷◌, map, Text, text_dec, Elem, here, there, Bool-cases, some_inj, length, ite, if_pos,
  if_neg, arith,
}
use hydra_umc_job_dispatcher.Common.Keyed.{find, update, find-update}
use hydra_umc_job_dispatcher.Model.{Job, JobStatus, job_key}
use hydra_umc_job_dispatcher.Status.{compute_status, set_status}
use hydra_umc_job_dispatcher.Status.Verdict.{compute_from-congr}
use hydra_umc_job_dispatcher.Status.Settled.{
  SettledAt, Settled, Ranked, Reverdict, Reverdict-Ranked, Changes, visit-cases, find-changed,
  visit-Reverdict, pass-Reverdict,
}
use hydra_umc_job_dispatcher.Status.Passes.{Verdicts, visit, pass, loop, refresh_jobs}

-- The ids of a pass name every job of the queue.
abbrev Covers : List Text → List Job → Type 0
Covers ids jobs = (x : Text) (j : Job) → find job_key x jobs ≡ some j → Elem x ids

Reverdict-Covers :
    (ids : List Text) (js ks : List Job) → Reverdict js ks → Covers ids js → Covers ids ks
Reverdict-Covers ids js ks r covers x i f = elim (r x) [
  | inl e ↦ covers x i (sym e ∙ f)
  | inr (j, s, e, _, _, g) ↦ covers x j e
]

Elem-keys :
    (x : Text) (jobs : List Job) {j : Job}
    → find job_key x jobs ≡ some j
    → Elem x (map job_key jobs)
unfolding find
Elem-keys x [] f = cc
Elem-keys x (k ∷ jobs) {j} f = elim (text_dec k.id x) [
  | yes p ↦ subst (λ y. Elem y (k.id ∷ map job_key jobs)) p here
  | no p ↦ there (Elem-keys x jobs (rw (if_neg (text_dec k.id x) p _ _) at f))
]

pass-changed : (ids : List Text) (v : Verdicts) → v.changed ≡ true → (pass ids v).changed ≡ true
unfolding pass
pass-changed [] v h = h
pass-changed (id ∷ ids) v h = pass-changed ids (visit id v) (elim (visit-cases id v) [
  | inl (e, _) ↦ ap (λ w. w.changed) e ∙ h
  | inr c ↦ ap (λ w. w.changed) c.4
])

-- A pass that reports no change has found every job that it visited settled, and changed none.
pass_unchanged :
    (ids : List Text) (v : Verdicts)
    → (pass ids v).changed ≡ false
    → (pass ids v ≡ v) × ((x : Text) → Elem x ids → SettledAt v.jobs x)
unfolding pass
pass_unchanged [] v h = (refl, λ x m. elim m [ ])
pass_unchanged (id ∷ ids) v h = elim (visit-cases id v) [
  | inr c ↦ absurd (true-false (pass-changed ids (visit id v) (ap (λ w. w.changed) c.4)))
  | inl (e, settled) ↦
      let (same, rest) = pass_unchanged ids v (ap (λ w. (pass ids w).changed) (sym e) ∙ h) in
      (ap (pass ids) e ∙ same, λ x m. first_or_rest x settled rest m)
]
  where
    true-false : (pass ids (visit id v)).changed ≡ true → ⊥
    true-false t = cc

    first_or_rest :
        (x : Text)
        → SettledAt v.jobs id
        → ((y : Text) → Elem y ids → SettledAt v.jobs y)
        → Elem x (id ∷ ids)
        → SettledAt v.jobs x
    first_or_rest x s r here = s
    first_or_rest x s r (there m) = r x m

pass_unchanged-Settled :
    (ids : List Text) (v : Verdicts)
    → Covers ids v.jobs
    → (pass ids v).changed ≡ false
    → Settled (pass ids v).jobs
pass_unchanged-Settled ids v covers h x i f u =
    let (same, settled) = pass_unchanged ids v h in
    subst (λ w. SettledAt w.jobs x) (sym same) (λ k g. settled x (covers x k g) k g) i f u

move_visited :
    {x id : Text} {ids seen : List Text}
    → Elem x (id ∷ ids) ⊎ Elem x seen
    → Elem x ids ⊎ Elem x (id ∷ seen)
move_visited (inl here) = inr here
move_visited (inl (there h)) = inl h
move_visited (inr h) = inr (there h)

module _ (rank : Text → ℕ) where
  -- The verdict on `x` stands when only jobs of no lower rank are given another one.
  verdict_stays :
      (x y : Text) (s : JobStatus) (js : List Job) (k : Job)
      → Ranked rank js
      → find job_key x js ≡ some k
      → ¬ (rank y < rank x)
      → compute_status (update job_key y (set_status s) js) k ≡ compute_status js k
  unfolding compute_status
  verdict_stays x y s js k ranked f above =
      compute_from-congr (update job_key y (set_status s) js) js false k.depends_on (λ d m. ground (
        arith,
        find-update job_key d y (set_status s) js (λ j. refl),
        λ (e : y ≡ d). above (subst (λ z. rank z < rank x) (sym e) (ranked x d k f m)),
      ))

  -- What a pass has settled: the lower ranks, and those of rank `k` that it has visited.
  abbrev Reached : ℕ → List Text → Text → Type 0
  Reached k seen x = (rank x < k) ⊎ ((rank x ≡ k) × Elem x seen)

  abbrev Good : ℕ → List Text → List Job → Type 0
  Good k seen jobs = (x : Text) → Reached k seen x → SettledAt jobs x

  Reached-before :
      (k : ℕ) (id x : Text) (seen : List Text)
      → Reached k (id ∷ seen) x
      → (x ≡ id) ⊎ Reached k seen x
  Reached-before k id x seen (inl r) = inr (inl r)
  Reached-before k id x seen (inr (r, here)) = inl refl
  Reached-before k id x seen (inr (r, there m)) = inr (inr (r, m))

  changed-Good :
      (k : ℕ) (id : Text) (seen : List Text) (v : Verdicts)
      → Ranked rank v.jobs
      → Good k seen v.jobs
      → (x : Text) → Reached k (id ∷ seen) x
      → (c : Changes id v)
      → SettledAt (update job_key id (set_status (compute_status v.jobs c.0)) v.jobs) x
  unfolding compute_status
  changed-Good k id seen v ranked good x r (j, e, w, differs, q) i f u = elim (text_dec id x) [
    | yes p ↦
        let own = some_inj (sym f ∙ found ∙ if_pos (text_dec id x) p _ _) in
        subst (λ z. compute_status (update job_key id (set_status next) v.jobs) z ≡ z.status)
          (sym own) (verdict_stays id id next v.jobs j ranked e (λ h. omega arith))
    | no p ↦
        let other = sym (found ∙ if_neg (text_dec id x) p _ _) ∙ f in
        verdict_stays x id next v.jobs i ranked other (λ h. differs (good id (below h) j e w))
        ∙ good x (before p) i other u
  ]
    where
      next : JobStatus
      next = compute_status v.jobs j

      found :
          find job_key x (update job_key id (set_status next) v.jobs)
          ≡ ite (text_dec id x) (some (set_status next j)) (find job_key x v.jobs)
      found = find-changed id x j next v.jobs e

      before : ¬ (id ≡ x) → Reached k seen x
      before p = elim (Reached-before k id x seen r) [ inl h ↦ absurd (p (sym h)) | inr h ↦ h ]

      below : rank id < rank x → Reached k seen id
      below h = elim r [ inl l ↦ inl (omega arith) | inr l ↦ inl (omega (arith, l.0)) ]

  visit-Good :
      (k : ℕ) (id : Text) (seen : List Text) (v : Verdicts)
      → Ranked rank v.jobs
      → Good k seen v.jobs
      → Good k (id ∷ seen) (visit id v).jobs
  visit-Good k id seen v ranked good x r = elim (visit-cases id v) [
    | inl (e, here_settled) ↦
        subst (λ w. SettledAt w.jobs x) (sym e)
          (elim (Reached-before k id x seen r) [
            | inl p ↦ subst (SettledAt v.jobs) (sym p) here_settled
            | inr q ↦ good x q
          ])
    | inr c ↦ subst (λ w. SettledAt w.jobs x) (sym c.4) (changed-Good k id seen v ranked good x r c)
  ]

  -- A pass over ids, on top of those already seen.
  pass-Good :
      (k : ℕ) (ids seen : List Text) (v : Verdicts)
      → Ranked rank v.jobs
      → Good k seen v.jobs
      → (x : Text) → (Elem x ids ⊎ Elem x seen)
      → rank x ≤ k
      → SettledAt (pass ids v).jobs x
  unfolding pass
  pass-Good k [] seen v ranked good x (inl m) le = elim m [ ]
  pass-Good k [] seen v ranked good x (inr m) le = good x (ground arith)
  pass-Good k (id ∷ ids) seen v ranked good x m le =
      pass-Good k ids (id ∷ seen) (visit id v)
        (Reverdict-Ranked rank v.jobs (visit id v).jobs (visit-Reverdict id v) ranked)
        (visit-Good k id seen v ranked good) x (move_visited m) le

  next-Good :
      (k : ℕ) (ids : List Text) (v : Verdicts)
      → Ranked rank v.jobs
      → Covers ids v.jobs
      → Good k [] v.jobs
      → Good (suc k) [] (pass ids v).jobs
  next-Good k ids v ranked covers good x r i f u =
      pass-Good k ids [] v ranked good x
        (inl (Reverdict-Covers ids v.jobs (pass ids v).jobs (pass-Reverdict ids v) covers x i f))
        (elim r [ inl l ↦ omega arith | inr m ↦ elim m.1 [ ] ]) i f u

  -- With a round for each rank, the loop ends by its own test, all settled.
  loop-Settled :
      (fuel k : ℕ) (ids : List Text) (v : Verdicts)
      → Ranked rank v.jobs
      → Covers ids v.jobs
      → Good k [] v.jobs
      → ((x : Text) → Elem x ids → rank x < k + fuel)
      → (v.changed ≡ false → Settled v.jobs)
      → Settled (loop fuel ids v).jobs
  unfolding loop
  loop-Settled zero k ids v ranked covers good bound done =
      λ x i f u. good x (inl (omega (arith, bound x (covers x i f)))) i f u
  loop-Settled (suc fuel) k ids v ranked covers good bound done = elim (Bool-cases v.changed) [
    | inr e ↦ rw e (done e)
    | inl e ↦
        let w : Verdicts = record v { changed = false } in
        rw e (
          loop-Settled fuel (suc k) ids (pass ids w)
            (Reverdict-Ranked rank v.jobs (pass ids w).jobs (pass-Reverdict ids w) ranked)
            (Reverdict-Covers ids v.jobs (pass ids w).jobs (pass-Reverdict ids w) covers)
            (next-Good k ids w ranked covers good) (λ x m. omega (arith, bound x m))
            (pass_unchanged-Settled ids w covers))
  ]

-- On a queue with a rank below the number of its jobs, the loop reaches the fixed point.
pub refresh_jobs-Settled-Ranked :
    (rank : Text → ℕ) (jobs : List Job)
    → Ranked rank jobs
    → ((x : Text) → rank x ≤ length jobs)
    → Settled (refresh_jobs jobs)
unfolding refresh_jobs
refresh_jobs-Settled-Ranked rank jobs ranked bound =
    loop-Settled rank (suc (suc (length jobs))) 0 (map job_key jobs)
      (record { jobs = jobs; changed = true }) ranked (λ x j f. Elem-keys x jobs f)
      (λ x r. absurd (nothing_reached x r)) (λ x m. omega (arith, bound x)) (λ e. cc)
  where
    nothing_reached : (x : Text) → Reached rank 0 [] x → ⊥
    nothing_reached x (inl l) = omega arith
    nothing_reached x (inr (_, m)) = elim m [ ]
