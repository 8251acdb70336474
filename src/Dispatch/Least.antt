-- ===== src/Dispatch/Least.antt =====
-- The choice of the scheduler is the best one: no eligible robot comes before the one picked.
use hydra_umc_job_dispatcher.Common.{
  ℕ, ◌≡◌, refl, sym, ◌∙◌, ap, subst, ◌⊎◌, inl, inr, Bool, true, false, ◌&&◌, not, Option, none,
  some, List, [], ◌∷◌, ltt_trans, ltt_irrefl, is_empty, Elem, select, Elem-cons, Elem-select,
  select-Elem, Bool-cases, Option-cases, some_inj, arith,
}
use hydra_umc_job_dispatcher.Model.{Job, Robot, LocationConfig}
use hydra_umc_job_dispatcher.Engine.{Engine}
use hydra_umc_job_dispatcher.Dispatch.Best.{best_of-Elem}
use hydra_umc_job_dispatcher.Dispatch.{
  best_by, best_robot_for, robot_eligible, prefer, lighter, closer, in_location, location_cost,
}

-- An order by which the first of two candidates is kept.
record IsStrict (better : Robot → Robot → Bool) : Type 0 where
  irrefl : (a : Robot) → better a a ≡ false
  trans : (a b c : Robot) → better a b ≡ true → better b c ≡ true → better a c ≡ true

lighter-IsStrict : IsStrict lighter
unfolding lighter
lighter-IsStrict = record {
  irrefl = λ a. ground (arith, ltt_irrefl a.id);
  trans = λ a b c p q. ground (arith, ltt_trans a.id b.id c.id);
}

closer_irrefl : (x : Option ℕ) (a : Robot) → closer x x a a ≡ false
unfolding closer
closer_irrefl none a = lighter-IsStrict.irrefl a
closer_irrefl (some c) a = ground (arith, lighter-IsStrict.irrefl a)

closer_trans :
    (x y z : Option ℕ) (a b c : Robot)
    → closer x y a b ≡ true
    → closer y z b c ≡ true
    → closer x z a c ≡ true
unfolding closer
closer_trans none none none a b c p q = lighter-IsStrict.trans a b c p q
closer_trans none none (some u) a b c p q = absurd (ground arith)
closer_trans none (some u) z a b c p q = absurd (ground arith)
closer_trans (some s) y none a b c p q = refl
closer_trans (some s) none (some u) a b c p q = absurd (ground arith)
closer_trans (some s) (some t) (some u) a b c p q = ground (arith, lighter-IsStrict.trans a b c)

prefer-IsStrict : (c : LocationConfig) (j : Job) → IsStrict (prefer c j)
unfolding prefer
prefer-IsStrict c j = record {
  irrefl = λ a. elim (Bool-cases (c.enabled && not (is_empty j.location))) [
    | inl t ↦ rw t (closer_irrefl (location_cost c j.location a.location) a)
    | inr t ↦ rw t (lighter-IsStrict.irrefl a)
  ];
  trans = λ x y z p q. elim (Bool-cases (c.enabled && not (is_empty j.location))) [
    | inl t ↦ rw t (
        closer_trans (location_cost c j.location x.location) (location_cost c j.location y.location)
          (location_cost c j.location z.location) x y z (rw t at p) (rw t at q))
    | inr t ↦ rw t (lighter-IsStrict.trans x y z (rw t at p) (rw t at q))
  ];
}

module _ (better : Robot → Robot → Bool) (strict : IsStrict better) where
  -- The robot kept at the end is the one kept so far or comes before it.
  Improves : Robot → Robot → Type 0
  Improves b r = (b ≡ r) ⊎ (better r b ≡ true)

  improved_after :
      {b r : Robot} (x : Robot) → Improves b r → better x b ≡ false → better x r ≡ false
  unfolding Improves
  improved_after {b} {r} x i h = elim i [
    | inl e ↦ subst (λ z. better x z ≡ false) e h
    | inr t ↦ elim (Bool-cases (better x r)) [
      | inr f ↦ f
      | inl u ↦ let c = strict.trans x r b u t in absurd (cc)
    ]
  ]

  best_by-Improves :
      (b : Robot) (rs : List Robot) {r : Robot}
      → best_by better (some b) rs ≡ some r
      → Improves b r × ((w : Robot) → Elem w rs → better w r ≡ false)
  unfolding best_by Improves
  best_by-Improves b [] h = (inl (some_inj h), λ w m. elim m [ ])
  best_by-Improves b (x ∷ rs) {r} h = elim (Bool-cases (better x b)) [
    | inl t ↦
        let (i, least) = best_by-Improves x rs (rw t at h) in
        (
          elim i [
            | inl e ↦ inr (subst (λ z. better z b ≡ true) e t)
            | inr u ↦ inr (strict.trans r x b u t)
          ],
          λ w m. elim (Elem-cons m) [
            | inl e ↦ subst (λ z. better z r ≡ false) (sym e) (improved_after x i (strict.irrefl x))
            | inr k ↦ least w k
          ],
        )
    | inr t ↦
        let (i, least) = best_by-Improves b rs (rw t at h) in
        (
          i,
          λ w m. elim (Elem-cons m) [
            | inl e ↦ subst (λ z. better z r ≡ false) (sym e) (improved_after x i t)
            | inr k ↦ least w k
          ],
        )
  ]

  best_by-least :
      (rs : List Robot) {r : Robot}
      → best_by better none rs ≡ some r
      → (w : Robot) → Elem w rs
      → better w r ≡ false
  unfolding best_by Improves
  best_by-least [] h w m = elim m [ ]
  best_by-least (x ∷ rs) {r} h w m =
      let (i, least) = best_by-Improves x rs h in
      elim (Elem-cons m) [
        | inl e ↦ subst (λ z. better z r ≡ false) (sym e) (improved_after x i (strict.irrefl x))
        | inr k ↦ least w k
      ]

-- Some robot is picked from every list that has one.
best_by-some :
    (better : Robot → Robot → Bool) (b : Robot) (rs : List Robot)
    → best_by better (some b) rs ≡ none
    → ⊥
unfolding best_by
best_by-some better b [] h = cc
best_by-some better b (x ∷ rs) h = elim (Bool-cases (better x b)) [
  | inl t ↦ best_by-some better x rs (rw t at h)
  | inr t ↦ best_by-some better b rs (rw t at h)
]

best_by-none :
    (better : Robot → Robot → Bool) (rs : List Robot) {w : Robot}
    → best_by better none rs ≡ none
    → Elem w rs
    → ⊥
unfolding best_by
best_by-none better [] h m = elim m [ ]
best_by-none better (x ∷ rs) h m = best_by-some better x rs h

module _ {S : Type 0} (e : Engine S) (j : Job) where
  -- If no robot is picked, no registered robot may be offered the job.
  pub best_robot_for-none :
      best_robot_for e j ≡ none → (w : Robot) → Elem w e.robots → robot_eligible e j w ≡ false
  unfolding best_robot_for
  best_robot_for-none h w m = elim (Bool-cases (robot_eligible e j w)) [
    | inr f ↦ f
    | inl t ↦
        let k = select-Elem (robot_eligible e j) t m in
        elim (Bool-cases (e.location.enabled && not (is_empty j.location))) [
          | inl u ↦ absurd (best_by-none (prefer e.location j) _ (rw u at h) k)
          | inr u ↦
              elim (Option-cases (
                best_by lighter none
                  (select (in_location j) (select (robot_eligible e j) e.robots)))) [
                    | inr (b, q) ↦ absurd (ground (arith, rw (u, q) at h))
                    | inl q ↦ absurd (best_by-none lighter _ (rw (u, q) at h) k)
                  ]
        ]
  ]

  -- With the table of location costs on and a location named, no eligible robot is preferred to
  -- the one picked: none has a lower known cost, nor an equal one with a lower load, nor an equal
  -- cost and load with a smaller id.
  pub best_robot_for-nearest :
      {r : Robot}
      → e.location.enabled && not (is_empty j.location) ≡ true
      → best_robot_for e j ≡ some r
      → (w : Robot) → Elem w e.robots
      → robot_eligible e j w ≡ true
      → prefer e.location j w r ≡ false
  unfolding best_robot_for
  best_robot_for-nearest on h w m t =
      best_by-least (prefer e.location j) (prefer-IsStrict e.location j)
        (select (robot_eligible e j) e.robots) (rw on at h) w (select-Elem (robot_eligible e j) t m)

  -- With the table off, or no location named, the robot picked stands in the location of the job
  -- if any eligible robot does, and no eligible robot that stands there as it does, or anywhere if
  -- it does not, has a lower load, or an equal one and a smaller id.
  pub best_robot_for-lightest :
      {r : Robot}
      → e.location.enabled && not (is_empty j.location) ≡ false
      → best_robot_for e j ≡ some r
      → (w : Robot) → Elem w e.robots
      → robot_eligible e j w ≡ true
      → (in_location j w ≡ true → in_location j r ≡ true)
        × (in_location j w ≡ in_location j r → lighter w r ≡ false)
  unfolding best_robot_for
  best_robot_for-lightest {r} off h w m t =
      let k = select-Elem (robot_eligible e j) t m in
      elim (Option-cases (best_by lighter none here_first)) [
        | inr (b, q) ↦
            let same = some_inj (rw (off, q) at h) in
            let inside =
              Elem-select (in_location j) b (select (robot_eligible e j) e.robots)
                (best_of-Elem lighter here_first q) in
            let there_too = subst (λ z. in_location j z ≡ true) same inside.1 in
            (
              λ i. there_too,
              λ i.
                  best_by-least lighter lighter-IsStrict here_first (q ∙ ap (λ z. some z) same) w
                    (select-Elem (in_location j) (i ∙ there_too) k),
            )
        | inl q ↦ (
          λ i. absurd (best_by-none lighter here_first q (select-Elem (in_location j) i k)),
          λ i.
              best_by-least lighter lighter-IsStrict (select (robot_eligible e j) e.robots)
                (rw (off, q) at h) w k,
        )
      ]
    where
      here_first : List Robot
      here_first = select (in_location j) (select (robot_eligible e j) e.robots)
