-- ===== src/Eta/Ends.antt =====
-- The passes of the plan end by themselves: the fuel is more than there are jobs to lay out.
use hydra_umc_job_dispatcher.Common.{
  ℕ, zero, suc, ◌<◌, ◌≤◌, ◌≡◌, refl, sym, ◌∙◌, ap, subst, inl, inr, Bool, true, false, List, [],
  ◌∷◌, Text, eqt, Elem, here, there, Elem-cons, Bool-cases, length, arith, if◌then◌else◌,
}
use hydra_umc_job_dispatcher.Model.{Job, mem_text}
use hydra_umc_job_dispatcher.Engine.{Engine}
use hydra_umc_job_dispatcher.Held.Index.{eqt_refl}
use hydra_umc_job_dispatcher.Eta.{DurationModel}
use hydra_umc_job_dispatcher.Eta.Plan.{
  JobEta, Plan, FreeAt, mark, plan_job, plan_pass, plan_passes, waiting_of, begun, plan,
}
use hydra_umc_job_dispatcher.Eta.Rounds.{Wrote, nothing, no_estimate, an_estimate, plan_job-Wrote}

-- The jobs that are not planned yet.
count_open : List Job → List Text → ℕ
count_open [] planned = 0
count_open (j ∷ js) planned =
    let rest = count_open js planned in if mem_text j.id planned then rest else suc rest

count_open-le : (js : List Job) (planned : List Text) → count_open js planned ≤ length js
unfolding count_open
count_open-le [] planned = omega arith
count_open-le (j ∷ js) planned = ground (arith, count_open-le js planned)

count_open_less :
    (js : List Job) (x : Text) (planned : List Text)
    → count_open js (x ∷ planned) ≤ count_open js planned
unfolding count_open mem_text
count_open_less [] x planned = omega arith
count_open_less (j ∷ js) x planned = ground (arith, count_open_less js x planned)

count_open-lt :
    (js : List Job) (j : Job) (planned : List Text)
    → Elem j js
    → mem_text j.id planned ≡ false
    → count_open js (j.id ∷ planned) < count_open js planned
unfolding count_open mem_text
count_open-lt [] j planned m h = elim m [ ]
count_open-lt (k ∷ js) j planned m h = elim (Elem-cons m) [
  | inl q ↦
      let name = ap (λ z. z.id) q in
      let t = subst (λ z. eqt j.id z ≡ true) name (eqt_refl j.id) in
      let f = subst (λ z. mem_text z planned ≡ false) name h in
      ground (arith, count_open_less js j.id planned)
  | inr n ↦ ground (arith, count_open-lt js j planned n h, count_open_less js j.id planned)
]

module _ {S : Type 0} (e : Engine S) (m : DurationModel) (ws : List Job) where
  -- No job becomes open again, and progress means that fewer are.
  record Nearer (p q : Plan) : Type 0 where
    not_more : count_open ws q.planned ≤ count_open ws p.planned
    fewer :
        p.progress ≡ false → q.progress ≡ true → count_open ws q.planned < count_open ws p.planned

  Nearer-refl : (p : Plan) → Nearer p p
  Nearer-refl p = record { not_more = omega arith; fewer = λ a b. absurd (clash b a) }
    where
      clash : {b : Bool} → b ≡ true → b ≡ false → ⊥
      clash x y = cc

  Nearer-trans : {p q r : Plan} → Nearer p q → Nearer q r → Nearer p r
  Nearer-trans {p} {q} {r} a b = record {
    not_more = omega (arith, a.not_more, b.not_more);
    fewer = λ x y. elim (Bool-cases q.progress) [
      | inl t ↦ omega (arith, a.fewer x t, b.not_more)
      | inr t ↦ omega (arith, a.not_more, b.fewer t y)
    ];
  }

  mark-Nearer :
      (p : Plan) (j : Job) (f : JobEta → JobEta) (free : List FreeAt)
      → Elem j ws
      → mem_text j.id p.planned ≡ false
      → Nearer p (record (mark j f p) { free = free })
  mark-Nearer p j f free n new =
      let less = count_open-lt ws j p.planned n new in
      record { not_more = omega (arith, less); fewer = λ a b. less }

  Wrote-Nearer :
      (p : Plan) (j : Job) (q : Plan)
      → Elem j ws
      → mem_text j.id p.planned ≡ false
      → Wrote e m j p q
      → Nearer p q
  Wrote-Nearer p j q n new nothing = Nearer-refl p
  Wrote-Nearer p j q n new (no_estimate x) = mark-Nearer p j _ p.free n new
  Wrote-Nearer p j q n new (an_estimate robot start ms b free deps) = mark-Nearer p j _ free n new

  plan_pass-Nearer :
      (js : List Job) (p : Plan)
      → ((j : Job) → Elem j js → Elem j ws)
      → Nearer p (plan_pass e m js p)
  unfolding plan_pass
  plan_pass-Nearer [] p all = Nearer-refl p
  plan_pass-Nearer (j ∷ js) p all =
      let (w, same) = plan_job-Wrote e m j p in
      Nearer-trans
        (elim (Bool-cases (mem_text j.id p.planned)) [
          | inl t ↦ subst (λ z. Nearer p z) (sym (same t)) (Nearer-refl p)
          | inr t ↦ Wrote-Nearer p j (plan_job e m j p) (all j here) t w
        ])
        (plan_pass-Nearer js (plan_job e m j p) (λ i n. all i (there n)))

  plan_passes_still : (fuel : ℕ) (p : Plan) → p.progress ≡ false → plan_passes e m fuel ws p ≡ p
  unfolding plan_passes
  plan_passes_still zero p h = refl
  plan_passes_still (suc fuel) p h =
      ap
        (λ b.
          if b
          then plan_passes e m fuel ws (plan_pass e m ws (record p { progress = false }))
          else p)
        h

  plan_passes_end :
      (fuel : ℕ) (p : Plan)
      → count_open ws p.planned < fuel
      → (plan_passes e m fuel ws p).progress ≡ false
  unfolding plan_passes
  plan_passes_end zero p h = absurd (omega arith)
  plan_passes_end (suc fuel) p h =
      let before : Plan = record p { progress = false } in
      let q = plan_pass e m ws before in
      let near = plan_pass-Nearer ws before (λ j n. n) in
      let rest : (plan_passes e m fuel ws q).progress ≡ false = elim (Bool-cases q.progress) [
        | inr t ↦ ap (λ z. z.progress) (plan_passes_still fuel q t) ∙ t
        | inl t ↦ plan_passes_end fuel q (omega (arith, near.fewer refl t, h))
      ] in
      elim (Bool-cases p.progress) [
        | inl t ↦
            subst (λ b. (if b then plan_passes e m fuel ws q else p).progress ≡ false) (sym t) rest
        | inr t ↦ ap (λ z. z.progress) (plan_passes_still (suc fuel) p t) ∙ t
      ]

module _ {S : Type 0} (e : Engine S) (m : DurationModel) where
  -- The loop of planLocked ends with a pass that plans no further job.
  pub plan_ends : (plan e m).progress ≡ false
  unfolding plan
  plan_ends =
      plan_passes_end e m (waiting_of e m e.jobs) (suc (length (waiting_of e m e.jobs))) (begun e m)
        (let short = count_open-le (waiting_of e m e.jobs) (begun e m).planned in
          omega (arith, short))
