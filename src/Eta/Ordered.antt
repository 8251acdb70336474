-- ===== src/Eta/Ordered.antt =====
-- In a plan no job starts before the jobs that it waits for have ended.
use mathlib.Core.Option
use hydra_umc_job_dispatcher.Common.{
  ℕ, zero, suc, ◌≡◌, refl, sym, ◌∙◌, ap, subst, ◌⊎◌, inl, inr, Bool, true, false, Option, none,
  some, List, [], ◌∷◌, Text, eqt, text_dec, Elem, here, there, Elem-cons, Bool-cases, Option-cases,
  some_inj, if_pos, if_neg, length, arith, if◌then◌else◌,
}
use hydra_umc_job_dispatcher.Common.Int.{ℤ, ◌≤ℤ◌}
use hydra_umc_job_dispatcher.Common.Keyed.{find, update, find-put, find-update, find-Elem, Distinct}
use hydra_umc_job_dispatcher.Common.Sorting.{sort_by-Distinct, select-Distinct}
use hydra_umc_job_dispatcher.Model.{Job, job_key, mem_text}
use hydra_umc_job_dispatcher.Engine.{Engine}
use hydra_umc_job_dispatcher.Held.Index.{eqt_refl}
use hydra_umc_job_dispatcher.Dispatch.{runs_before}
use hydra_umc_job_dispatcher.Eta.{DurationModel}
use hydra_umc_job_dispatcher.Eta.Plan.{
  JobEta, Plan, FreeAt, eta_key, blank_eta, with_reason, is_ended_well, when_estimated, estimate,
  mark, plan_job, plan_pass, plan_passes, add_result, add_results, waiting_of, begun, plan,
}
use hydra_umc_job_dispatcher.Eta.Rounds.{
  DepsEnd, Wrote, nothing, no_estimate, an_estimate, plan_job-Wrote,
}

mem-cons :
    (x y : Text) (seen : List Text)
    → mem_text y (x ∷ seen) ≡ false
    → (x ≡ y → ⊥) × (mem_text y seen ≡ false)
unfolding mem_text
mem-cons x y seen h =
    (λ q. let t = subst (λ z. eqt x z ≡ true) q (eqt_refl x) in absurd (ground arith), ground arith)

module _ {S : Type 0} (e : Engine S) (m : DurationModel) (ws : List Job)
    (distinct : Distinct job_key ws) where
  -- What holds of the jobs to lay out between two rounds.
  record Laid (p : Plan) : Type 0 where
    unplanned :
        (j : Job) (r : JobEta)
        → Elem j ws
        → mem_text j.id p.planned ≡ false
        → find eta_key j.id p.results ≡ some r
        → r.estimated ≡ false
    ordered :
        (j : Job) (r : JobEta)
        → Elem j ws
        → find eta_key j.id p.results ≡ some r
        → r.estimated ≡ true
        → DepsEnd e p.results j.depends_on r.start_ms

  -- A job without an estimate is not what others were planned behind.
  DepsEnd-write :
      (p : Plan) (j : Job) (f : JobEta → JobEta) (deps : List Text) (t : ℤ)
      → ((r : JobEta) → find eta_key j.id p.results ≡ some r → r.estimated ≡ false)
      → ((r : JobEta) → eta_key (f r) ≡ eta_key r)
      → DepsEnd e p.results deps t
      → DepsEnd e (update eta_key j.id f p.results) deps t
  DepsEnd-write p j f deps t none_yet same v d k n g w =
      let (end, a, b) = v d k n g w in
      elim (text_dec j.id d) [
        | no q ↦ (
          end,
          ap when_estimated
                (find-update eta_key d j.id f p.results same ∙ if_neg (text_dec j.id d) q _ _)
              ∙ a,
          b,
        )
        | yes q ↦ absurd (
            unestimated (find eta_key d p.results) end a
              (λ r h. none_yet r (ap (λ z. find eta_key z p.results) q ∙ h)))
      ]
    where
      unestimated :
          (o : Option JobEta) (end : ℤ)
          → when_estimated o ≡ some end
          → ((r : JobEta) → o ≡ some r → r.estimated ≡ false)
          → ⊥
      unestimated none end h all = cc
      unestimated (some r) end h all = let n = all r refl in ground arith

  -- The result of another job is as it was.
  other_result :
      (p : Plan) (i j : Job) (f : JobEta → JobEta) {r : JobEta}
      → ((r : JobEta) → eta_key (f r) ≡ eta_key r)
      → (j.id ≡ i.id → ⊥)
      → find eta_key i.id (update eta_key j.id f p.results) ≡ some r
      → find eta_key i.id p.results ≡ some r
  other_result p i j f same n h =
      sym (find-update eta_key i.id j.id f p.results same ∙ if_neg (text_dec j.id i.id) n _ _) ∙ h

  own_result :
      (p : Plan) (j : Job) (f : JobEta → JobEta) {r : JobEta}
      → ((r : JobEta) → eta_key (f r) ≡ eta_key r)
      → find eta_key j.id (update eta_key j.id f p.results) ≡ some r
      → (w : JobEta) × (find eta_key j.id p.results ≡ some w) × (f w ≡ r)
  own_result p j f {r} same h =
      let g =
        sym (find-update eta_key j.id j.id f p.results same ∙ if_pos (text_dec j.id j.id) refl _ _)
        ∙ h in
      elim (Option-cases (find eta_key j.id p.results)) [
        | inl q ↦ absurd (none-some r (sym (ap (Option.map f) q) ∙ g))
        | inr (w, q) ↦ (w, q, some_inj (sym (ap (Option.map f) q) ∙ g))
      ]
    where
      none-some : (r : JobEta) → none ≡ some r → ⊥
      none-some r q = cc

  same_job : (i j : Job) → Elem i ws → Elem j ws → j.id ≡ i.id → i ≡ j
  same_job i j a b q = some_inj (
      sym (find-Elem job_key ws distinct a)
      ∙ ap (λ z. find job_key z ws) (sym q)
      ∙ find-Elem job_key ws distinct b)

  write-Laid :
      (p : Plan) (j : Job) (f : JobEta → JobEta) (free : List FreeAt)
      → Elem j ws
      → mem_text j.id p.planned ≡ false
      → ((r : JobEta) → eta_key (f r) ≡ eta_key r)
      → ((r : JobEta)
          → r.estimated ≡ false
          → (f r).estimated ≡ true
          → DepsEnd e p.results j.depends_on (f r).start_ms)
      → Laid p
      → Laid (record (mark j f p) { free = free })
  write-Laid p j f free m new same good v =
      let none_yet = λ (r : JobEta). v.unplanned j r m new in
      record {
        unplanned = λ i r n u h.
            let (differ, rest) = mem-cons j.id i.id p.planned u in
            v.unplanned i r n rest (other_result p i j f same differ h);
        ordered = λ i r n h t. elim (text_dec j.id i.id) [
          | no q ↦
              DepsEnd-write p j f i.depends_on r.start_ms none_yet same
                (v.ordered i r n (other_result p i j f same q h) t)
          | yes q ↦
              let (w, g, made) =
                own_result p j f same
                  (ap (λ z. find eta_key z (update eta_key j.id f p.results)) q ∙ h) in
              DepsEnd-write p j f i.depends_on r.start_ms none_yet same (
                subst (λ z. DepsEnd e p.results z.depends_on r.start_ms) (sym (same_job i j n m q))
                  (subst (λ z. DepsEnd e p.results j.depends_on z.start_ms) made
                    (good w (none_yet w g) (ap (λ z. z.estimated) made ∙ t))))
        ];
      }

  Wrote-Laid :
      (p : Plan) (j : Job) (q : Plan)
      → Elem j ws
      → mem_text j.id p.planned ≡ false
      → Wrote e m j p q
      → Laid p
      → Laid q
  Wrote-Laid p j q n new nothing v = v
  Wrote-Laid p j q n new (no_estimate x) v =
      write-Laid p j (with_reason x) p.free n new (λ r. refl) (λ r a b. absurd (clash b a)) v
    where
      clash : {b : Bool} → b ≡ true → b ≡ false → ⊥
      clash x y = cc
  Wrote-Laid p j q n new (an_estimate robot start ms b free deps) v =
      write-Laid p j (estimate robot start ms b) free n new (λ r. refl) (λ r a t. deps) v

  plan_pass-Laid :
      (js : List Job) (p : Plan)
      → ((j : Job) → Elem j js → Elem j ws)
      → Laid p
      → Laid (plan_pass e m js p)
  unfolding plan_pass
  plan_pass-Laid [] p all v = v
  plan_pass-Laid (j ∷ js) p all v =
      let (w, same) = plan_job-Wrote e m j p in
      plan_pass-Laid js (plan_job e m j p) (λ i n. all i (there n))
        (elim (Bool-cases (mem_text j.id p.planned)) [
          | inl t ↦ subst Laid (sym (same t)) v
          | inr t ↦ Wrote-Laid p j (plan_job e m j p) (all j here) t w v
        ])

  plan_passes-Laid : (fuel : ℕ) (p : Plan) → Laid p → Laid (plan_passes e m fuel ws p)
  unfolding plan_passes
  plan_passes-Laid zero p v = v
  plan_passes-Laid (suc fuel) p v =
      let again : Laid (record p { progress = false }) = record {
        unplanned = v.unplanned;
        ordered = v.ordered;
      } in
      elim (Bool-cases p.progress) [
        | inl t ↦ rw t (
            plan_passes-Laid fuel (plan_pass e m ws (record p { progress = false }))
              (plan_pass-Laid ws (record p { progress = false }) (λ j n. n) again))
        | inr t ↦
            subst Laid
              (ap
                (λ b.
                  if b
                  then plan_passes e m fuel ws (plan_pass e m ws (record p { progress = false }))
                  else p)
                (sym t))
              v
      ]

-- The result under an id, if there is one, is no estimate.
abbrev IsBlankAt : Text → Plan → Type 0
IsBlankAt x p = (r : JobEta) → find eta_key x p.results ≡ some r → r.estimated ≡ false

add_result-IsBlankAt :
    (x : Text) (w : JobEta) (p : Plan)
    → w.estimated ≡ false
    → (w.job_id ≡ x) ⊎ IsBlankAt x p
    → IsBlankAt x (add_result w p)
unfolding add_result
add_result-IsBlankAt x w p off c r h =
    let g = sym (find-put eta_key x w p.results) ∙ h in
    elim (text_dec w.job_id x) [
      | yes q ↦
          subst (λ z. z.estimated ≡ false) (some_inj (sym (if_pos (text_dec w.job_id x) q _ _) ∙ g))
            off
      | no q ↦ elim c [
        | inl y ↦ absurd (q y)
        | inr b ↦ b r (sym (if_neg (text_dec w.job_id x) q _ _) ∙ g)
      ]
    ]

add_results-IsBlankAt :
    {S : Type 0} (e : Engine S) (m : DurationModel) (x : Text) (js : List Job) (p : Plan)
    → IsBlankAt x p ⊎ ((j : Job) × Elem j js × (j.id ≡ x))
    → IsBlankAt x (add_results e m js none p)
unfolding add_results
add_results-IsBlankAt e m x [] p (inl b) = b
add_results-IsBlankAt e m x [] p (inr (j, n, q)) = elim n [ ]
add_results-IsBlankAt e m x (k ∷ js) p (inl b) =
    add_results-IsBlankAt e m x js (add_result (blank_eta k) p)
      (inl (add_result-IsBlankAt x (blank_eta k) p refl (inr b)))
add_results-IsBlankAt e m x (k ∷ js) p (inr (j, n, q)) = elim (Elem-cons n) [
  | inl same ↦
      add_results-IsBlankAt e m x js (add_result (blank_eta k) p)
        (inl (add_result-IsBlankAt x (blank_eta k) p refl (inl (ap (λ z. z.id) (sym same) ∙ q))))
  | inr l ↦ add_results-IsBlankAt e m x js (add_result (blank_eta k) p) (inr (j, l, q))
]

module _ {S : Type 0} (e : Engine S) (m : DurationModel) where
  waiting-Distinct : Distinct job_key e.jobs → Distinct job_key (waiting_of e m e.jobs)
  unfolding waiting_of
  waiting-Distinct d = sort_by-Distinct runs_before job_key _ (select-Distinct job_key _ e.jobs d)

  begun-Laid :
      (d : Distinct job_key e.jobs)
      → Laid e m (waiting_of e m e.jobs) (waiting-Distinct d) (begun e m)
  unfolding begun
  begun-Laid d =
      let blank = λ (j : Job) (n : Elem j (waiting_of e m e.jobs)).
        add_results-IsBlankAt e m j.id (waiting_of e m e.jobs) _ (inr (j, n, refl)) in
      record {
        unplanned = λ j r n u h. blank j n r h;
        ordered = λ j r n h t. absurd (clash t (blank j n r h));
      }
    where
      clash : {b : Bool} → b ≡ true → b ≡ false → ⊥
      clash x y = cc

  -- In the plan of a queue that holds each id once, a job that waits and has an estimate starts no
  -- earlier than the estimated end of any job of the queue that it depends on and that is not done,
  -- and each of these has an estimate.
  pub plan_ordered :
      (j k : Job) (r : JobEta) (x : Text)
      → Distinct job_key e.jobs
      → Elem j (waiting_of e m e.jobs)
      → find eta_key j.id (plan e m).results ≡ some r
      → r.estimated ≡ true
      → Elem x j.depends_on
      → find job_key x e.jobs ≡ some k
      → is_ended_well k.status ≡ false
      → (end : ℤ) × (when_estimated (find eta_key x (plan e m).results) ≡ some end)
        × (end ≤ℤ r.start_ms)
  unfolding plan
  plan_ordered j k r x d n h t m' f w =
      (plan_passes-Laid e m (waiting_of e m e.jobs) (waiting-Distinct d)
          (suc (length (waiting_of e m e.jobs))) (begun e m) (begun-Laid d)).ordered
        j r n h t x k m' f w
