-- ===== src/Common/Lists.antt =====
-- Lists: a predicate on every element, membership by recursion, sorting and selection.
use Prim.Native.Nat.{ℕ, suc}
use mathlib.Core.Path.{◌≡◌, refl}
use mathlib.Core.Logic.{◌⊎◌, inl, inr}
use mathlib.Core.Bool.{Bool, true}
use mathlib.Core.Option.{Option, none, some}
use mathlib.Core.List.{List, [], ◌∷◌}
use package.hydra_umc_job_dispatcher.Common.Tests.{if◌then◌else◌, Bool-cases}

module _ {ℓ} {A : Type ℓ} where
  abbrev pub length : List A → ℕ
  length [] = 0
  length (x ∷ xs) = suc (length xs)

  abbrev pub All {κ} : (A → Type κ) → List A → Type κ
  All P [] = Unit
  All P (x ∷ xs) = P x × All P xs

  -- Membership with its position, which can be matched.
  pub data Elem (a : A) : List A → Type ℓ where
    here : {xs : List A} → Elem a (a ∷ xs)
    there : {x : A} {xs : List A} → Elem a xs → Elem a (x ∷ xs)

  pub All-Elem {κ} : (P : A → Type κ) {a : A} {xs : List A} → Elem a xs → All P xs → P a
  All-Elem P here h = h.0
  All-Elem P (there m) h = All-Elem P m h.1

  pub All-of_Elem {κ} : (P : A → Type κ) (xs : List A) → ((a : A) → Elem a xs → P a) → All P xs
  All-of_Elem P [] h = tt
  All-of_Elem P (x ∷ xs) h = (h x here, All-of_Elem P xs (λ a m. h a (there m)))

  -- the elements that pass a test
  unfoldable pub select : (A → Bool) → List A → List A
  select p [] = []
  select p (x ∷ xs) = if p x then x ∷ select p xs else select p xs

  pub Elem-cons : {a x : A} {xs : List A} → Elem a (x ∷ xs) → (a ≡ x) ⊎ Elem a xs
  Elem-cons here = inl refl
  Elem-cons (there m) = inr m

  pub Elem-select :
      (p : A → Bool) (a : A) (xs : List A) → Elem a (select p xs) → Elem a xs × (p a ≡ true)
  unfolding select
  Elem-select p a [] m = elim m [ ]
  Elem-select p a (x ∷ xs) m = elim (Bool-cases (p x)) [
    | inl e ↦ elim (Elem-cons (rw e at m)) [
      | inl q ↦ (rw q here, rw q e)
      | inr k ↦ let rest = Elem-select p a xs k in (there rest.0, rest.1)
    ]
    | inr e ↦ let rest = Elem-select p a xs (rw e at m) in (there rest.0, rest.1)
  ]

  pub select-Elem :
      (p : A → Bool) {a : A} {xs : List A} → p a ≡ true → Elem a xs → Elem a (select p xs)
  unfolding select
  select-Elem p e here = rw e here
  select-Elem p {xs = x ∷ xs} e (there m) = elim (Bool-cases (p x)) [
    | inl q ↦ rw q (there (select-Elem p e m))
    | inr q ↦ rw q (select-Elem p e m)
  ]

module _ {ℓ} {A : Type ℓ} where
  -- `sort.Slice(xs, less)`: where `less` is a strict total order its result is the only sorted one
  unfoldable pub insert_by : (A → A → Bool) → A → List A → List A
  insert_by less a [] = a ∷ []
  insert_by less a (x ∷ xs) = if less x a then x ∷ insert_by less a xs else a ∷ x ∷ xs

  unfoldable pub sort_by : (A → A → Bool) → List A → List A
  unfolding insert_by
  sort_by less [] = []
  sort_by less (x ∷ xs) = insert_by less x (sort_by less xs)

  abbrev pub filter_some {κ} : {B : Type κ} → (B → Option A) → List B → List A
  filter_some f [] = []
  filter_some f (b ∷ bs) = elim (f b) [ none ↦ filter_some f bs | some a ↦ a ∷ filter_some f bs ]

pub List-cases {ℓ} :
    {A : Type ℓ} (xs : List A) → (xs ≡ []) ⊎ ((y : A) × (ys : List A) × (xs ≡ y ∷ ys))
List-cases [] = inl refl
List-cases (x ∷ xs) = inr (x, xs, refl)
