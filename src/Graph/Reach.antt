-- ===== src/Graph/Reach.antt =====
-- What the search for a cycle finds: dependencies of dependencies.
use mathlib.Core.List.{reverse, reverse_aux}
use hydra_umc_job_dispatcher.Common.{
  ℕ, zero, suc, ◌+◌, length, ◌≡◌, sym, subst, ◌⊎◌, inl, inr, true, List, [], ◌∷◌, ◌++◌, Text, eqt,
  Elem, here, there, Elem-cons, Bool-cases,
}
use hydra_umc_job_dispatcher.Model.{Job, mem_text}
use hydra_umc_job_dispatcher.Held.Index.{eqt-eq}
use hydra_umc_job_dispatcher.Graph.{count_deps, deps_of, search_from, depends_transitively}

-- `target` is the job itself, or a dependency of it in one step or more.
pub data Reach (jobs : List Job) (target : Text) : Text → Type 0 where
  stop : Reach jobs target target
  via : {id d : Text} → Elem d (deps_of jobs id) → Reach jobs target d → Reach jobs target id

Elem-append : {a : Text} (xs ys : List Text) → Elem a (xs ++ ys) → Elem a xs ⊎ Elem a ys
Elem-append [] ys m = inr m
Elem-append (x ∷ xs) ys m = elim (Elem-cons m) [
  | inl e ↦ inl (subst (λ z. Elem z (x ∷ xs)) (sym e) here)
  | inr k ↦ elim (Elem-append xs ys k) [ inl l ↦ inl (there l) | inr r ↦ inr r ]
]

Elem-reverse_aux :
    {a : Text} (xs ys : List Text) → Elem a (reverse_aux xs ys) → Elem a xs ⊎ Elem a ys
Elem-reverse_aux [] ys m = inr m
Elem-reverse_aux (x ∷ xs) ys m = elim (Elem-reverse_aux xs (x ∷ ys) m) [
  | inl l ↦ inl (there l)
  | inr r ↦ elim (Elem-cons r) [
    | inl e ↦ inl (subst (λ z. Elem z (x ∷ xs)) (sym e) here)
    | inr k ↦ inr k
  ]
]

Elem-reverse : {a : Text} (xs : List Text) → Elem a (reverse xs) → Elem a xs
Elem-reverse xs m = elim (Elem-reverse_aux xs [] m) [ inl l ↦ l | inr r ↦ elim r [ ] ]

module _ (jobs : List Job) (target : Text) where
  search_from-Reach :
      (fuel : ℕ) (seen stack : List Text)
      → search_from fuel jobs target seen stack ≡ true
      → (id : Text) × Elem id stack × Reach jobs target id
  unfolding search_from
  search_from-Reach zero seen stack h = absurd (cc)
  search_from-Reach (suc fuel) seen [] h = absurd (cc)
  search_from-Reach (suc fuel) seen (x ∷ stack) h = elim (Bool-cases (eqt x target)) [
    | inl hit ↦ (x, here, subst (λ z. Reach jobs target z) (sym (eqt-eq x target hit)) stop)
    | inr miss ↦ elim (Bool-cases (mem_text x seen)) [
      | inl old ↦
          let (id, m, r) = search_from-Reach fuel seen stack (rw (miss, old) at h) in
          (id, there m, r)
      | inr new ↦
          let (id, m, r) = search_from-Reach fuel (x ∷ seen) _ (rw (miss, new) at h) in
          elim (Elem-append (reverse (deps_of jobs x)) stack m) [
            | inl l ↦ (x, here, via (Elem-reverse (deps_of jobs x) l) r)
            | inr k ↦ (id, there k, r)
          ]
    ]
  ]

  -- If the search answers yes, the target is one of the roots, or a dependency of one, directly or
  -- through other jobs.
  pub depends_transitively-Reach :
      (roots : List Text)
      → depends_transitively jobs roots target ≡ true
      → (id : Text) × Elem id roots × Reach jobs target id
  unfolding depends_transitively
  depends_transitively-Reach roots h =
      let (id, m, r) =
        search_from-Reach (suc (length roots + count_deps jobs)) [] (reverse roots) h in
      (id, Elem-reverse roots m, r)
