-- ===== src/Common/Keyed.antt =====
-- A Go map whose values carry their key, as a list of values: look up, store, change and delete.
-- The order of the list stands for the order in which `range` visits the map.
use mathlib.Core.Path.{◌≡◌, refl, sym, ◌∙◌, ap}
use mathlib.Core.Logic.{ite, if_pos, if_neg}
use mathlib.Core.Option.{Option, none, some}
use mathlib.Core.Option
use mathlib.Core.List.{List, [], ◌∷◌}
use native.Mathlib.Omega.{arith}
use package.hydra_umc_job_dispatcher.Common.Strings.{Text, text_dec}
use package.hydra_umc_job_dispatcher.Common.Lists.{Elem, here, there}

module _ {V : Type 0} (key : V → Text) where
  -- m[k]
  unfoldable pub find : Text → List V → Option V
  find k [] = none
  find k (v ∷ vs) = ite (text_dec (key v) k) (some v) (find k vs)

  -- m[key v] = v
  unfoldable pub put : V → List V → List V
  put v [] = v ∷ []
  put v (w ∷ vs) = ite (text_dec (key w) (key v)) (v ∷ vs) (w ∷ put v vs)

  -- a change through the pointer m[k]
  unfoldable pub update : Text → (V → V) → List V → List V
  update k f [] = []
  update k f (v ∷ vs) = ite (text_dec (key v) k) (f v ∷ vs) (v ∷ update k f vs)

  -- delete(m, k)
  unfoldable pub delete : Text → List V → List V
  delete k [] = []
  delete k (v ∷ vs) = ite (text_dec (key v) k) (delete k vs) (v ∷ delete k vs)

  pub find-key : (k : Text) (vs : List V) {v : V} → find k vs ≡ some v → key v ≡ k
  unfolding find
  find-key k [] h = cc
  find-key k (w ∷ vs) {v} h = ground (arith, find-key k vs {v = v})

  pub find-put :
      (k : Text) (v : V) (vs : List V)
      → find k (put v vs) ≡ ite (text_dec (key v) k) (some v) (find k vs)
  unfolding find put
  find-put k v [] = refl
  find-put k v (w ∷ vs) = ground (arith, find-put k v vs)

  pub find-update :
      (k j : Text) (f : V → V) (vs : List V)
      → ((v : V) → key (f v) ≡ key v)
      → find k (update j f vs) ≡ ite (text_dec j k) (Option.map f (find k vs)) (find k vs)
  unfolding find update
  find-update k j f [] h = ground arith
  find-update k j f (w ∷ vs) h = ground (arith, find-update k j f vs h, h w)

  -- a change through a pointer that is not there
  pub update-none : (k : Text) (f : V → V) (vs : List V) → find k vs ≡ none → update k f vs ≡ vs
  unfolding find update
  update-none k f [] h = refl
  update-none k f (w ∷ vs) h = elim (text_dec (key w) k) [
    | yes p ↦ absurd (some_none (sym (if_pos (text_dec (key w) k) p _ _) ∙ h))
    | no p ↦
        if_neg (text_dec (key w) k) p _ _
        ∙ ap (λ z. w ∷ z) (update-none k f vs (sym (if_neg (text_dec (key w) k) p _ _) ∙ h))
  ]
    where
      some_none : some w ≡ none → ⊥
      some_none e = cc

  pub find-delete :
      (k j : Text) (vs : List V) → find k (delete j vs) ≡ ite (text_dec j k) none (find k vs)
  unfolding find delete
  find-delete k j [] = ground arith
  find-delete k j (w ∷ vs) = ground (arith, find-delete k j vs)

  pub Elem-find : (k : Text) (vs : List V) {v : V} → find k vs ≡ some v → Elem v vs
  unfolding find
  Elem-find k [] h = cc
  Elem-find k (w ∷ vs) {v} h = elim (text_dec (key w) k) [
    | yes p ↦ rw (← (w_eq p)) here
    | no p ↦ there (Elem-find k vs (rw (if_neg _ p) at h))
  ]
    where
      w_eq : key w ≡ k → w ≡ v
      w_eq p = ground arith

  -- every key once
  abbrev pub Distinct : List V → Type 0
  Distinct [] = Unit
  Distinct (v ∷ vs) = (find (key v) vs ≡ none) × Distinct vs

  pub find-Elem : (vs : List V) {v : V} → Distinct vs → Elem v vs → find (key v) vs ≡ some v
  unfolding find
  find-Elem [] d m = elim m [ ]
  find-Elem (w ∷ vs) d here = ground arith
  find-Elem (w ∷ vs) d (there m) = ground (arith, find-Elem vs d.1 m)

  pub put-Distinct : (v : V) (vs : List V) → Distinct vs → Distinct (put v vs)
  unfolding find put
  put-Distinct v [] d = (refl, tt)
  put-Distinct v (w ∷ vs) d = ground (arith, put-Distinct v vs d.1, find-put (key w) v vs)

  pub update-Distinct :
      (k : Text) (f : V → V) (vs : List V)
      → ((v : V) → key (f v) ≡ key v)
      → Distinct vs
      → Distinct (update k f vs)
  unfolding find update
  update-Distinct k f [] h d = tt
  update-Distinct k f (w ∷ vs) h d =
      ground (arith, update-Distinct k f vs h d.1, find-update (key w) k f vs h, h w)

  pub delete-Distinct : (k : Text) (vs : List V) → Distinct vs → Distinct (delete k vs)
  unfolding find delete
  delete-Distinct k [] d = tt
  delete-Distinct k (w ∷ vs) d = ground (arith, delete-Distinct k vs d.1, find-delete (key w) k vs)
