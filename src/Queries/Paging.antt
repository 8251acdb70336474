-- ===== src/Queries/Paging.antt =====
-- Reading a queue in pieces gives the queue.
use hydra_umc_job_dispatcher.Common.{
  ℕ, zero, suc, ◌+◌, ◌<◌, ◌≤◌, ◌≡◌, refl, sym, ◌∙◌, ap, inl, inr, List, [], ◌∷◌, ◌++◌, ltb, lt→ltb,
  ltb-false→le, length, Bool-cases, arith, if◌then◌else◌,
}
use hydra_umc_job_dispatcher.Common.Int.{pos}
use hydra_umc_job_dispatcher.Events.{drop}
use hydra_umc_job_dispatcher.Model.{Job}
use hydra_umc_job_dispatcher.Queries.{take, piece}

take-drop : (n : ℕ) (xs : List Job) → take n xs ++ drop n xs ≡ xs
take-drop zero xs = refl
take-drop (suc n) [] = refl
take-drop (suc n) (x ∷ xs) = ap (λ ys. x ∷ ys) (take-drop n xs)

drop_by : (m n k : ℕ) (xs : List Job) → k ≡ m + n → drop n (drop m xs) ≡ drop k xs
drop_by zero n k xs e = ap (λ z. drop z xs) (omega (arith, e))
drop_by (suc m) n zero xs e = absurd (omega (arith, e))
drop_by (suc m) zero (suc k) [] e = refl
drop_by (suc m) (suc n) (suc k) [] e = refl
drop_by (suc m) n (suc k) (x ∷ xs) e = drop_by m n k xs (omega (arith, e))

drop_plus : (m n : ℕ) (xs : List Job) → drop n (drop m xs) ≡ drop (m + n) xs
drop_plus m n xs = drop_by m n (m + n) xs refl

drop_all : (n : ℕ) (xs : List Job) → length xs ≤ n → drop n xs ≡ []
drop_all zero [] h = refl
drop_all zero (x ∷ xs) h = absurd (omega arith)
drop_all (suc n) [] h = refl
drop_all (suc n) (x ∷ xs) h = drop_all n xs (omega arith)

-- The clamped offset drops the same jobs.
piece_rest : (offset : ℕ) (xs : List Job) → piece (pos offset) (pos 0) xs ≡ drop offset xs
unfolding piece
piece_rest offset xs = elim (Bool-cases (ltb (length xs) offset)) [
  | inl t ↦ rw t (drop_all (length xs) xs (omega arith) ∙ sym (drop_all offset xs (ground arith)))
  | inr f ↦ rw f refl
]

take_all : (n : ℕ) (xs : List Job) → length xs ≤ n → take n xs ≡ xs
take_all zero [] h = refl
take_all zero (x ∷ xs) h = absurd (omega arith)
take_all (suc n) [] h = refl
take_all (suc n) (x ∷ xs) h = ap (λ ys. x ∷ ys) (take_all n xs (omega arith))

-- The rest as `piece` computes it.
rest_of : ℕ → List Job → List Job
rest_of offset xs = drop (if ltb (length xs) offset then length xs else offset) xs

piece-take :
    (offset limit : ℕ) (xs : List Job)
    → 0 < limit
    → piece (pos offset) (pos limit) xs ≡ take limit (rest_of offset xs)
unfolding piece rest_of
piece-take offset limit xs h = elim (Bool-cases (ltb limit (length (rest_of offset xs)))) [
  | inl t ↦ rw (t, lt→ltb 0 limit h) refl
  | inr f ↦
      rw (f, lt→ltb 0 limit h)
        (sym
          (take_all limit (rest_of offset xs) (ltb-false→le limit (length (rest_of offset xs)) f)))
]

rest_of-drop : (offset : ℕ) (xs : List Job) → rest_of offset xs ≡ drop offset xs
unfolding rest_of piece
rest_of-drop offset xs = piece_rest offset xs

-- A page with a positive limit, followed by the page without a limit that starts behind it, is the
-- page without a limit from the same offset.
pub piece-join :
    (offset limit : ℕ) (xs : List Job)
    → 0 < limit
    → piece (pos offset) (pos limit) xs ++ piece (pos (offset + limit)) (pos 0) xs
      ≡ piece (pos offset) (pos 0) xs
piece-join offset limit xs h =
    rw
      (
        piece-take offset limit xs h,
        rest_of-drop offset xs,
        piece_rest offset xs,
        piece_rest (offset + limit) xs,
        sym (drop_plus offset limit xs),
      )
      (take-drop limit (drop offset xs))
