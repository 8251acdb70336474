-- ===== src/Archive/Closed.antt =====
-- What leaves the queue is closed: no job that stays depends on it.
use hydra_umc_job_dispatcher.Common.{
  ℕ, zero, suc, ◌≤◌, ◌<◌, ◌≡◌, refl, sym, ◌∙◌, ap, subst, inl, inr, Bool, true, false, not, List,
  [], ◌∷◌, Text, ◌==◌, Elem, here, there, Elem-cons, map, length, select, Bool-cases, arith,
}
use hydra_umc_job_dispatcher.Common.Int.{ℤ}
use hydra_umc_job_dispatcher.Model.{Job, job_key, mem_text}
use hydra_umc_job_dispatcher.Held.Index.{mem_text-select}
use hydra_umc_job_dispatcher.Archive.{
  is_candidate, keep_deps, keep_round, keep_rounds, archived_ids,
}

length-select : (p : Text → Bool) (xs : List Text) → length (select p xs) ≤ length xs
unfolding select
length-select p [] = omega arith
length-select p (x ∷ xs) = ground (arith, length-select p xs)

-- A selection as long as the list has dropped nothing.
select_all :
    (p : Text → Bool) (xs : List Text)
    → length (select p xs) ≡ length xs
    → (select p xs ≡ xs) × ((x : Text) → Elem x xs → p x ≡ true)
unfolding select
select_all p [] h = (refl, λ x m. elim m [ ])
select_all p (x ∷ xs) h = elim (Bool-cases (p x)) [
  | inl t ↦
      let (same, all) = select_all p xs (suc_inj (rw t at h)) in
      (
        rw t (ap (λ ys. x ∷ ys) same),
        λ y m. elim (Elem-cons m) [ inl e ↦ subst (λ z. p z ≡ true) (sym e) t | inr k ↦ all y k ],
      )
  | inr f ↦ let short = length-select p xs in absurd (omega (arith, rw f at h, short))
]
  where
    suc_inj : {m n : ℕ} → suc m ≡ suc n → m ≡ n
    suc_inj e = omega (arith, e)

length-keep_deps : (j : Job) (c : List Text) → length (keep_deps j c) ≤ length c
unfolding keep_deps
length-keep_deps j c = ground (arith, length-select (λ id. not (mem_text id j.depends_on)) c)

length-keep_round : (js : List Job) (c : List Text) → length (keep_round js c) ≤ length c
unfolding keep_round
length-keep_round [] c = omega arith
length-keep_round (j ∷ js) c =
    omega (arith, length-keep_round js (keep_deps j c), length-keep_deps j c)

-- No job outside the set depends on a job of it.
unfoldable pub IsClosed : List Job → List Text → Type 0
IsClosed js c =
    (j : Job)
    → Elem j js
    → mem_text j.id c ≡ false
    → (d : Text) → Elem d c
    → mem_text d j.depends_on ≡ false

keep_deps_same :
    (j : Job) (c : List Text)
    → length (keep_deps j c) ≡ length c
    → (keep_deps j c ≡ c)
      × (mem_text j.id c ≡ false → (d : Text) → Elem d c → mem_text d j.depends_on ≡ false)
unfolding keep_deps
keep_deps_same j c h = elim (Bool-cases (mem_text j.id c)) [
  | inl t ↦ (rw t refl, λ f. absurd (ground arith))
  | inr f ↦
      let (same, all) = select_all (λ id. not (mem_text id j.depends_on)) c (rw f at h) in
      (rw f same, λ g d m. let n = all d m in ground arith)
]

keep_round-IsClosed :
    (js : List Job) (c : List Text) → length (keep_round js c) ≡ length c → IsClosed js c
unfolding keep_round IsClosed
keep_round-IsClosed [] c h j m = elim m [ ]
keep_round-IsClosed (i ∷ js) c h j m =
    let long = length-keep_round js (keep_deps i c) in
    let short = length-keep_deps i c in
    let (same, own) = keep_deps_same i c (omega (arith, long, short, h)) in
    elim (Elem-cons m) [
      | inl e ↦
          subst
            (λ z. mem_text z.id c ≡ false → (d : Text) → Elem d c → mem_text d z.depends_on ≡ false)
            (sym e) own
      | inr k ↦
          keep_round-IsClosed js c (subst (λ z. length (keep_round js z) ≡ length c) same h) j k
    ]

keep_rounds-IsClosed :
    (fuel : ℕ) (js : List Job) (c : List Text)
    → length c < fuel
    → IsClosed js (keep_rounds fuel js c)
unfolding keep_rounds
keep_rounds-IsClosed zero js c h = absurd (omega arith)
keep_rounds-IsClosed (suc fuel) js c h =
    let short = length-keep_round js c in
    elim (Bool-cases (length (keep_round js c) == length c)) [
      | inl t ↦ rw t (keep_round-IsClosed js c (ground arith))
      | inr f ↦ rw f (keep_rounds-IsClosed fuel js (keep_round js c) (ground arith))
    ]

-- No job that stays in the queue depends on a job that is archived.
pub archived_ids-IsClosed :
    (now : ℤ) (after : ℕ) (jobs : List Job) → IsClosed jobs (archived_ids now after jobs)
unfolding archived_ids
archived_ids-IsClosed now after jobs = keep_rounds-IsClosed _ jobs _ (omega arith)

-- Each id of the first list stands in the second.
abbrev pub Within : List Text → List Text → Type 0
Within s c = (d : Text) → mem_text d s ≡ true → mem_text d c ≡ true

keep_deps-Within :
    (j : Job) (s c : List Text)
    → (mem_text j.id s ≡ false → (d : Text) → mem_text d s ≡ true → mem_text d j.depends_on ≡ false)
    → Within s c
    → Within s (keep_deps j c)
unfolding keep_deps
keep_deps-Within j s c closed within d m = elim (Bool-cases (mem_text j.id c)) [
  | inl t ↦ rw t (within d m)
  | inr f ↦
      let out : mem_text d j.depends_on ≡ false = elim (Bool-cases (mem_text j.id s)) [
        | inl u ↦ absurd (differ (within j.id u) f)
        | inr u ↦ closed u d m
      ] in
      rw f (mem_text-select (λ id. not (mem_text id j.depends_on)) d c (ground arith) ∙ within d m)
]
  where
    differ : {b : Bool} → b ≡ true → b ≡ false → ⊥
    differ p q = cc

keep_round-Within :
    (js : List Job) (s c : List Text)
    → ((j : Job)
        → Elem j js
        → mem_text j.id s ≡ false
        → (d : Text) → mem_text d s ≡ true
        → mem_text d j.depends_on ≡ false)
    → Within s c
    → Within s (keep_round js c)
unfolding keep_round
keep_round-Within [] s c closed within = within
keep_round-Within (j ∷ js) s c closed within =
    keep_round-Within js s (keep_deps j c) (λ i m. closed i (there m))
      (keep_deps-Within j s c (closed j here) within)

keep_rounds-Within :
    (fuel : ℕ) (js : List Job) (s c : List Text)
    → ((j : Job)
        → Elem j js
        → mem_text j.id s ≡ false
        → (d : Text) → mem_text d s ≡ true
        → mem_text d j.depends_on ≡ false)
    → Within s c
    → Within s (keep_rounds fuel js c)
unfolding keep_rounds
keep_rounds-Within zero js s c closed within = within
keep_rounds-Within (suc fuel) js s c closed within =
    elim (Bool-cases (length (keep_round js c) == length c)) [
      | inl t ↦ rw t within
      | inr f ↦ rw f (
          keep_rounds-Within fuel js s (keep_round js c) closed
            (keep_round-Within js s c closed within))
    ]

-- Every set of candidates (jobs that ended long enough ago) on which no job outside the set depends
-- is archived whole.
pub archived_ids-greatest :
    (now : ℤ) (after : ℕ) (jobs : List Job) (s : List Text)
    → Within s (map job_key (select (is_candidate now after) jobs))
    → ((j : Job)
        → Elem j jobs
        → mem_text j.id s ≡ false
        → (d : Text) → mem_text d s ≡ true
        → mem_text d j.depends_on ≡ false)
    → Within s (archived_ids now after jobs)
unfolding archived_ids
archived_ids-greatest now after jobs s within closed = keep_rounds-Within _ jobs s _ closed within
