-- ===== src/Graph/Complete.antt =====
-- The fuel of the search for a cycle is enough: what can be reached is found.
use mathlib.Core.List.{reverse, reverse_aux}
use hydra_umc_job_dispatcher.Common.{
  ℕ, zero, suc, ◌+◌, ◌≤◌, ◌<◌, length, ◌≡◌, refl, sym, ◌∙◌, ap, subst, ◌⊎◌, inl, inr, true, false,
  some, List, [], ◌∷◌, ◌++◌, Text, eqt, text_dec, Elem, here, there, Elem-cons, Bool-cases,
  Option-cases, arith, some_inj, if_pos, if_neg, if◌then◌else◌,
}
use hydra_umc_job_dispatcher.Common.Keyed.{find}
use hydra_umc_job_dispatcher.Model.{Job, job_key, mem_text}
use hydra_umc_job_dispatcher.Held.Index.{eqt-eq, eqt_refl}
use hydra_umc_job_dispatcher.Graph.{count_deps, deps_of, search_from, depends_transitively}
use hydra_umc_job_dispatcher.Graph.Reach.{Reach, stop, via}

-- The dependencies listed by the jobs that were not seen.
cost : List Job → List Text → ℕ
cost [] seen = 0
cost (j ∷ js) seen =
    let rest = cost js seen in if mem_text j.id seen then rest else length j.depends_on + rest

cost_nil : (js : List Job) → cost js [] ≡ count_deps js
unfolding cost count_deps mem_text
cost_nil [] = refl
cost_nil (j ∷ js) = ap (λ n. length j.depends_on + n) (cost_nil js)

cost_less : (js : List Job) (x : Text) (seen : List Text) → cost js (x ∷ seen) ≤ cost js seen
unfolding cost mem_text
cost_less [] x seen = omega arith
cost_less (j ∷ js) x seen = ground (arith, cost_less js x seen)

cost_pays :
    (js : List Job) (x : Text) (seen : List Text) {j : Job}
    → find job_key x js ≡ some j
    → mem_text x seen ≡ false
    → length j.depends_on + cost js (x ∷ seen) ≤ cost js seen
unfolding cost mem_text find
cost_pays [] x seen h n = absurd (cc)
cost_pays (k ∷ js) x seen {j} h n = elim (text_dec k.id x) [
  | yes p ↦
      let same = ap (λ z. mem_text z seen) p in
      let less = cost_less js x seen in
      let here_it = sym (if_pos (text_dec k.id x) p (some k) (find job_key x js)) ∙ h in
      let size = ap (λ z. length z.depends_on) (some_inj here_it) in ground arith
  | no p ↦
      let rest =
        cost_pays js x seen (sym (if_neg (text_dec k.id x) p (some k) (find job_key x js)) ∙ h) n in
      ground arith
]

deps_paid :
    (js : List Job) (x : Text) (seen : List Text)
    → mem_text x seen ≡ false
    → length (deps_of js x) + cost js (x ∷ seen) ≤ cost js seen
unfolding deps_of
deps_paid js x seen n = elim (Option-cases (find job_key x js)) [
  | inl q ↦ rw (q, deps_of) (omega (arith, cost_less js x seen))
  | inr (j, q) ↦ rw (q, deps_of) (cost_pays js x seen q n)
]

Elem-append_left : {a : Text} {xs : List Text} (ys : List Text) → Elem a xs → Elem a (xs ++ ys)
Elem-append_left ys here = here
Elem-append_left ys (there m) = there (Elem-append_left ys m)

Elem-append_right : {a : Text} (xs : List Text) {ys : List Text} → Elem a ys → Elem a (xs ++ ys)
Elem-append_right [] m = m
Elem-append_right (x ∷ xs) m = there (Elem-append_right xs m)

reverse_aux-Elem :
    {a : Text} (xs ys : List Text) → Elem a xs ⊎ Elem a ys → Elem a (reverse_aux xs ys)
reverse_aux-Elem [] ys (inl m) = elim m [ ]
reverse_aux-Elem [] ys (inr m) = m
reverse_aux-Elem (x ∷ xs) ys (inr m) = reverse_aux-Elem xs (x ∷ ys) (inr (there m))
reverse_aux-Elem (x ∷ xs) ys (inl m) = elim (Elem-cons m) [
  | inl e ↦ reverse_aux-Elem xs (x ∷ ys) (inr (subst (λ z. Elem z (x ∷ ys)) (sym e) here))
  | inr k ↦ reverse_aux-Elem xs (x ∷ ys) (inl k)
]

length-reverse_aux : (xs ys : List Text) → length (reverse_aux xs ys) ≡ length xs + length ys
length-reverse_aux [] ys = omega arith
length-reverse_aux (x ∷ xs) ys = omega (arith, length-reverse_aux xs (x ∷ ys))

length-append : (xs ys : List Text) → length (xs ++ ys) ≡ length xs + length ys
length-append [] ys = omega arith
length-append (x ∷ xs) ys = omega (arith, length-append xs ys)

module _ (jobs : List Job) (target : Text) where
  -- What was seen is not the target, and its dependencies were seen or wait on the stack.
  abbrev Explored : List Text → List Text → Type 0
  Explored seen stack =
      (id : Text)
      → mem_text id seen ≡ true
      → (eqt id target ≡ false)
        × ((d : Text) → Elem d (deps_of jobs id) → (mem_text d seen ≡ true) ⊎ Elem d stack)

  -- A set with everything on the stack, closed under dependencies, without the target.
  abbrev Avoids : List Text → List Text → Type 0
  Avoids seen stack =
      (t : List Text) × ((id : Text) → mem_text id seen ≡ true → mem_text id t ≡ true)
      × ((id : Text) → Elem id stack → mem_text id t ≡ true)
      × Explored t []

  mem_cons : (x y : Text) (seen : List Text) → mem_text y seen ≡ true → mem_text y (x ∷ seen) ≡ true
  unfolding mem_text
  mem_cons x y seen h = ground arith

  mem_head : (x : Text) (seen : List Text) → mem_text x (x ∷ seen) ≡ true
  unfolding mem_text
  mem_head x seen = ground (arith, eqt_refl x)

  mem_cons_cases :
      (x y : Text) (seen : List Text)
      → mem_text y (x ∷ seen) ≡ true
      → (x ≡ y) ⊎ (mem_text y seen ≡ true)
  unfolding mem_text
  mem_cons_cases x y seen h = elim (Bool-cases (eqt x y)) [
    | inl t ↦ inl (eqt-eq x y t)
    | inr f ↦ inr (rw f at h)
  ]

  search_false :
      (fuel : ℕ) (seen stack : List Text)
      → length stack + cost jobs seen < fuel
      → Explored seen stack
      → search_from fuel jobs target seen stack ≡ false
      → Avoids seen stack
  unfolding search_from
  search_false zero seen stack f v h = absurd (omega arith)
  search_false (suc fuel) seen [] f v h = (seen, λ id m. m, λ id m. elim m [ ], v)
  search_false (suc fuel) seen (x ∷ stack) f v h = elim (Bool-cases (eqt x target)) [
    | inl hit ↦ absurd (true-false (rw hit at h))
    | inr miss ↦ elim (Bool-cases (mem_text x seen)) [
      | inl old ↦
          let (t, a, b, c) =
            search_false fuel seen stack (omega arith) (popped old) (rw (miss, old) at h) in
          (
            t,
            a,
            λ id m. elim (Elem-cons m) [
              | inl e ↦ a id (subst (λ z. mem_text z seen ≡ true) (sym e) old)
              | inr k ↦ b id k
            ],
            c,
          )
      | inr new ↦
          let (t, a, b, c) =
            search_false fuel (x ∷ seen) (reverse (deps_of jobs x) ++ stack)
              (omega (
                arith,
                deps_paid jobs x seen new,
                length-append (reverse (deps_of jobs x)) stack,
                length-reverse_aux (deps_of jobs x) [],
              ))
              (pushed miss) (rw (miss, new) at h) in
          (
            t,
            λ id m. a id (mem_cons x id seen m),
            λ id m. elim (Elem-cons m) [
              | inl e ↦ a id (subst (λ z. mem_text z (x ∷ seen) ≡ true) (sym e) (mem_head x seen))
              | inr k ↦ b id (Elem-append_right (reverse (deps_of jobs x)) k)
            ],
            c,
          )
    ]
  ]
    where
      true-false : true ≡ false → ⊥
      true-false e = cc

      popped : mem_text x seen ≡ true → Explored seen stack
      popped old id m =
          let (p, q) = v id m in
          (
            p,
            λ d k. elim (q d k) [
              | inl s ↦ inl s
              | inr w ↦ elim (Elem-cons w) [
                | inl e ↦ inl (subst (λ z. mem_text z seen ≡ true) (sym e) old)
                | inr r ↦ inr r
              ]
            ],
          )

      waits_for :
          (d : Text)
          → Elem d (x ∷ stack)
          → (mem_text d (x ∷ seen) ≡ true) ⊎ Elem d (reverse (deps_of jobs x) ++ stack)
      waits_for d w = elim (Elem-cons w) [
        | inl e ↦ inl (subst (λ z. mem_text z (x ∷ seen) ≡ true) (sym e) (mem_head x seen))
        | inr r ↦ inr (Elem-append_right (reverse (deps_of jobs x)) r)
      ]

      pushed : eqt x target ≡ false → Explored (x ∷ seen) (reverse (deps_of jobs x) ++ stack)
      pushed miss id m = elim (mem_cons_cases x id seen m) [
        | inl e ↦
            subst
              (λ z.
                (eqt z target ≡ false)
                × ((d : Text)
                    → Elem d (deps_of jobs z)
                    → (mem_text d (x ∷ seen) ≡ true) ⊎ Elem d (reverse (deps_of jobs x) ++ stack)))
              e
              (
                miss,
                λ d k. inr (Elem-append_left stack (reverse_aux-Elem (deps_of jobs x) [] (inl k))),
              )
        | inr o ↦
            let (p, q) = v id o in
            (p, λ d k. elim (q d k) [ inl s ↦ inl (mem_cons x d seen s) | inr w ↦ waits_for d w ])
      ]

  Avoids-Reach :
      (t : List Text)
      → Explored t []
      → {id : Text} → Reach jobs target id
      → mem_text id t ≡ true
      → ⊥
  Avoids-Reach t v stop m = let n = (v target m).0 in let r = eqt_refl target in cc
  Avoids-Reach t v (via {id} {d} k r) m = elim ((v id m).1 d k) [
    | inl n ↦ Avoids-Reach t v r n
    | inr n ↦ elim n [ ]
  ]

  -- If the target is one of the roots, or a dependency of one, directly or through other jobs, the
  -- search answers yes.
  pub depends_transitively_of_Reach :
      (roots : List Text) (id : Text)
      → Elem id roots
      → Reach jobs target id
      → depends_transitively jobs roots target ≡ true
  unfolding depends_transitively mem_text
  depends_transitively_of_Reach roots id m r =
      elim (Bool-cases (depends_transitively jobs roots target)) [
        | inl t ↦ t
        | inr f ↦
            let (t, a, b, c) =
              search_false (suc (length roots + count_deps jobs)) [] (reverse roots)
                (omega (arith, cost_nil jobs, length-reverse_aux roots [])) (λ x e. absurd (cc))
                f in
            absurd (Avoids-Reach t c r (b id (reverse_aux-Elem roots [] (inl m))))
      ]
