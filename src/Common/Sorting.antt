-- ===== src/Common/Sorting.antt =====
-- Sorting, selection and collection keep the elements of a list, and a key that stands once.
use mathlib.Core.Path.{◌≡◌, refl, sym, ◌∙◌, subst}
use mathlib.Core.Logic.{◌⊎◌, inl, inr, if_pos, if_neg}
use mathlib.Core.Bool.{Bool}
use mathlib.Core.Option.{none, some}
use mathlib.Core.List.{List, [], ◌∷◌, map}
use native.Mathlib.Omega.{arith}
use package.hydra_umc_job_dispatcher.Common.Tests.{Bool-cases}
use package.hydra_umc_job_dispatcher.Common.Strings.{Text, text_dec}
use package.hydra_umc_job_dispatcher.Common.Lists.{
  Elem, here, there, Elem-cons, select, insert_by, sort_by,
}
use package.hydra_umc_job_dispatcher.Common.Keyed.{find, Distinct}

module _ {V : Type 0} (less : V → V → Bool) where
  Elem-insert_by :
      (a : V) (vs : List V) {v : V} → Elem v (insert_by less a vs) → (v ≡ a) ⊎ Elem v vs
  unfolding insert_by
  Elem-insert_by a [] m = elim (Elem-cons m) [ inl e ↦ inl e | inr k ↦ inr k ]
  Elem-insert_by a (w ∷ vs) m = elim (Bool-cases (less w a)) [
    | inl t ↦ elim (Elem-cons (rw t at m)) [
      | inl e ↦ inr (subst (λ z. Elem z (w ∷ vs)) (sym e) here)
      | inr k ↦ elim (Elem-insert_by a vs k) [ inl e ↦ inl e | inr n ↦ inr (there n) ]
    ]
    | inr f ↦ elim (Elem-cons (rw f at m)) [ inl e ↦ inl e | inr k ↦ inr k ]
  ]

  pub Elem-sort_by : (vs : List V) {v : V} → Elem v (sort_by less vs) → Elem v vs
  unfolding sort_by
  Elem-sort_by [] m = elim m [ ]
  Elem-sort_by (w ∷ vs) m = elim (Elem-insert_by w (sort_by less vs) m) [
    | inl e ↦ subst (λ z. Elem z (w ∷ vs)) (sym e) here
    | inr k ↦ there (Elem-sort_by vs k)
  ]

  insert_by-Elem :
      (a : V) (vs : List V) {v : V} → (v ≡ a) ⊎ Elem v vs → Elem v (insert_by less a vs)
  unfolding insert_by
  insert_by-Elem a [] (inl e) = subst (λ z. Elem z (a ∷ [])) (sym e) here
  insert_by-Elem a [] (inr m) = elim m [ ]
  insert_by-Elem a (w ∷ vs) {v} c = elim (Bool-cases (less w a)) [
    | inl t ↦ elim c [
      | inl e ↦ rw t (there (insert_by-Elem a vs (inl e)))
      | inr m ↦ elim (Elem-cons m) [
        | inl e ↦ rw t (subst (λ z. Elem z (w ∷ insert_by less a vs)) (sym e) here)
        | inr k ↦ rw t (there (insert_by-Elem a vs (inr k)))
      ]
    ]
    | inr f ↦ elim c [
      | inl e ↦ rw f (subst (λ z. Elem z (a ∷ w ∷ vs)) (sym e) here)
      | inr m ↦ rw f (there m)
    ]
  ]

  pub sort_by-Elem : (vs : List V) {v : V} → Elem v vs → Elem v (sort_by less vs)
  unfolding sort_by
  sort_by-Elem [] m = elim m [ ]
  sort_by-Elem (w ∷ vs) m = elim (Elem-cons m) [
    | inl e ↦ insert_by-Elem w (sort_by less vs) (inl e)
    | inr k ↦ insert_by-Elem w (sort_by less vs) (inr (sort_by-Elem vs k))
  ]

  module _ (key : V → Text) where
    insert_by-none :
        (k : Text) (a : V) (vs : List V)
        → (key a ≡ k → ⊥)
        → find key k vs ≡ none
        → find key k (insert_by less a vs) ≡ none
    unfolding insert_by find
    insert_by-none k a [] n h = ground arith
    insert_by-none k a (w ∷ vs) n h =
        ground (arith, λ (e : find key k vs ≡ none). insert_by-none k a vs n e)

    sort_by-none :
        (k : Text) (vs : List V) → find key k vs ≡ none → find key k (sort_by less vs) ≡ none
    unfolding sort_by find
    sort_by-none k [] h = refl
    sort_by-none k (w ∷ vs) h = elim (text_dec (key w) k) [
      | yes p ↦ absurd (some_none (sym (if_pos (text_dec (key w) k) p _ _) ∙ h))
      | no p ↦
          insert_by-none k w (sort_by less vs) p
            (sort_by-none k vs (sym (if_neg (text_dec (key w) k) p _ _) ∙ h))
    ]
      where
        some_none : some w ≡ none → ⊥
        some_none e = cc

    insert_by-Distinct :
        (a : V) (vs : List V)
        → find key (key a) vs ≡ none
        → Distinct key vs
        → Distinct key (insert_by less a vs)
    unfolding insert_by find
    insert_by-Distinct a [] n d = (refl, tt)
    insert_by-Distinct a (w ∷ vs) n (f, d) = elim (text_dec (key w) (key a)) [
      | yes p ↦ absurd (some_none (sym (if_pos (text_dec (key w) (key a)) p _ _) ∙ n))
      | no p ↦
          let n' = sym (if_neg (text_dec (key w) (key a)) p _ _) ∙ n in
          elim (Bool-cases (less w a)) [
            | inl t ↦
                rw t (insert_by-none (key w) a vs (λ e. p (sym e)) f, insert_by-Distinct a vs n' d)
            | inr t ↦ rw t (n, (f, d))
          ]
    ]
      where
        some_none : some w ≡ none → ⊥
        some_none e = cc

    pub sort_by-Distinct : (vs : List V) → Distinct key vs → Distinct key (sort_by less vs)
    unfolding sort_by
    sort_by-Distinct [] d = tt
    sort_by-Distinct (w ∷ vs) (f, d) =
        insert_by-Distinct w (sort_by less vs) (sort_by-none (key w) vs f) (sort_by-Distinct vs d)

module _ {V : Type 0} (key : V → Text) (p : V → Bool) where
  select-none : (k : Text) (vs : List V) → find key k vs ≡ none → find key k (select p vs) ≡ none
  unfolding select find
  select-none k [] h = refl
  select-none k (w ∷ vs) h = ground (arith, select-none k vs)

  pub select-Distinct : (vs : List V) → Distinct key vs → Distinct key (select p vs)
  unfolding select
  select-Distinct [] d = tt
  select-Distinct (w ∷ vs) (f, d) = elim (Bool-cases (p w)) [
    | inl t ↦ rw t (select-none (key w) vs f, select-Distinct vs d)
    | inr t ↦ rw t (select-Distinct vs d)
  ]

pub Elem-map :
    {A B : Type 0} (f : A → B) (xs : List A) {b : B}
    → Elem b (map f xs)
    → (a : A) × Elem a xs × (f a ≡ b)
Elem-map f [] m = elim m [ ]
Elem-map f (x ∷ xs) m = elim (Elem-cons m) [
  | inl e ↦ (x, here, sym e)
  | inr k ↦ let (a, n, q) = Elem-map f xs k in (a, there n, q)
]
