-- ===== src/Lifecycle/Kept.antt =====
-- Each step of a queue keeps it sound.
use hydra_umc_job_dispatcher.Common.{
  ℕ, suc, ◌+◌, ◌<◌, ◌≡◌, sym, ◌∙◌, ap, subst, ◌⊎◌, inl, inr, Bool, true, false, none, some, List,
  [], ◌∷◌, Text, text_dec, Elem, here, there, Elem-cons, Bool-cases, some_inj, ite, if_pos, if_neg,
  if◌then◌else◌, arith,
}
use hydra_umc_job_dispatcher.Common.Keyed.{find}
use hydra_umc_job_dispatcher.Model.{Job, job_key}
use hydra_umc_job_dispatcher.Graph.{deps_of, depends_transitively}
use hydra_umc_job_dispatcher.Graph.Reach.{Reach, stop, via, depends_transitively-Reach}
use hydra_umc_job_dispatcher.Graph.Complete.{depends_transitively_of_Reach}
use hydra_umc_job_dispatcher.Status.{compute_status}
use hydra_umc_job_dispatcher.Status.Settled.{Ranked}
use hydra_umc_job_dispatcher.Status.Rank.{Closed}
use hydra_umc_job_dispatcher.Lifecycle.{
  Known, Move, Spares, enter, change, leave, Steps, rest, next,
}
use hydra_umc_job_dispatcher.Lifecycle.Sound.{
  IsSound, DepsDone, is_ready, moved_not_done, moved_ready, moved-Known, moved_deps, verdict_ready,
}

none-some : {A : Type 0} {a : A} → none ≡ some a → ⊥
none-some e = cc

true-false : {b : Bool} → b ≡ true → b ≡ false → ⊥
true-false e f = cc

-- More than the rank of each dependency.
above : (Text → ℕ) → List Text → ℕ
above rank [] = 0
above rank (d ∷ deps) = suc (rank d) + above rank deps

above-lt : (rank : Text → ℕ) (deps : List Text) {d : Text} → Elem d deps → rank d < above rank deps
unfolding above
above-lt rank [] m = elim m [ ]
above-lt rank (d ∷ deps) here = omega arith
above-lt rank (x ∷ deps) (there m) = omega (arith, above-lt rank deps m)

Elem-deps_of :
    (js : List Job) (x : Text) (j : Job) {d : Text}
    → find job_key x js ≡ some j
    → Elem d j.depends_on
    → Elem d (deps_of js x)
unfolding deps_of
Elem-deps_of js x j g n = rw (g, deps_of) n

-- A queue in which one id stands for another job than before.
module _ (js ks : List Job) (k : Text) (l : Job)
    (at : (x : Text) → find job_key x ks ≡ ite (text_dec k x) (some l) (find job_key x js)) where
  replaced_cases :
      (x : Text) (j : Job)
      → find job_key x ks ≡ some j
      → ((k ≡ x) × (l ≡ j)) ⊎ ((k ≡ x → ⊥) × (find job_key x js ≡ some j))
  replaced_cases x j f = elim (text_dec k x) [
    | yes p ↦ inl (p, some_inj (sym (at x ∙ if_pos (text_dec k x) p _ _) ∙ f))
    | no p ↦ inr (p, sym (at x ∙ if_neg (text_dec k x) p _ _) ∙ f)
  ]

  replaced-Known : {deps : List Text} → Known js deps → Known ks deps
  replaced-Known known d n = elim (text_dec k d) [
    | yes p ↦ (l, at d ∙ if_pos (text_dec k d) p _ _)
    | no p ↦ let (i, g) = known d n in (i, at d ∙ if_neg (text_dec k d) p _ _ ∙ g)
  ]

  replaced-Closed : Closed js → Known js l.depends_on → Closed ks
  replaced-Closed closed known x d j f n = elim (replaced_cases x j f) [
    | inl (_, e) ↦ replaced-Known known d (subst (λ z. Elem d z.depends_on) (sym e) n)
    | inr (_, g) ↦ replaced-Known (λ i m. closed x i j g m) d n
  ]

module _ (js ks : List Job) (k l : Job) (v : IsSound js) (found : find job_key k.id js ≡ some k)
    (m : Move js k l)
    (at : (x : Text) → find job_key x ks ≡ ite (text_dec k.id x) (some l) (find job_key x js)) where
  changed_ready :
      (x : Text) (j : Job)
      → find job_key x ks ≡ some j
      → is_ready j.status ≡ true
      → DepsDone ks j.depends_on
  changed_ready x j f r d i n g =
      let before : DepsDone js j.depends_on = elim (replaced_cases js ks k.id l at x j f) [
        | inl (_, e) ↦
            subst (λ z. DepsDone js z.depends_on) e
              (moved_ready js v k l found m (subst (λ z. is_ready z.status ≡ true) (sym e) r))
        | inr (_, h) ↦ v.ready x j h r
      ] in
      elim (replaced_cases js ks k.id l at d i g) [
        | inl (p, _) ↦ absurd (
            true-false (before d k n (subst (λ z. find job_key z js ≡ some k) p found))
              (moved_not_done js v k l found m))
        | inr (_, h) ↦ before d i n h
      ]

  -- The rank of the jobs that wait for the changed one rises above its new dependencies.
  lifted : Text → ℕ
  lifted x =
      if depends_transitively js (x ∷ []) k.id
      then v.rank x + above v.rank l.depends_on
      else v.rank x

  reaches : (x : Text) → depends_transitively js (x ∷ []) k.id ≡ true → Reach js k.id x
  reaches x h =
      let (y, n, r) = depends_transitively-Reach js k.id (x ∷ []) h in
      elim (Elem-cons n) [ inl e ↦ subst (λ z. Reach js k.id z) e r | inr o ↦ elim o [ ] ]

  reached : (x : Text) → Reach js k.id x → depends_transitively js (x ∷ []) k.id ≡ true
  reached x r = depends_transitively_of_Reach js k.id (x ∷ []) x here r

  lifted-Ranked : ((d : Text) → Elem d l.depends_on → Reach js k.id d → ⊥) → Ranked lifted ks
  unfolding lifted
  lifted-Ranked apart x d j f n = elim (replaced_cases js ks k.id l at x j f) [
    | inl (p, e) ↦
        let n' = subst (λ z. Elem d z.depends_on) (sym e) n in
        let up = reached x (subst (λ z. Reach js k.id z) p stop) in
        elim (Bool-cases (depends_transitively js (d ∷ []) k.id)) [
          | inl t ↦ absurd (apart d n' (reaches d t))
          | inr t ↦ rw (up, t) (omega (arith, above-lt v.rank l.depends_on n'))
        ]
    | inr (_, g) ↦
        let less = v.ranked x d j g n in
        elim (Bool-cases (depends_transitively js (d ∷ []) k.id)) [
          | inl t ↦
              let up = reached x (via (Elem-deps_of js x j g n) (reaches d t)) in
              rw (up, t) (omega arith)
          | inr t ↦ elim (Bool-cases (depends_transitively js (x ∷ []) k.id)) [
            | inl u ↦ rw (u, t) (omega arith)
            | inr u ↦ rw (u, t) less
          ]
        ]
  ]

  changed-Ranked : l.depends_on ≡ k.depends_on → Ranked v.rank ks
  changed-Ranked same x d j f n = elim (replaced_cases js ks k.id l at x j f) [
    | inl (p, e) ↦
        v.ranked x d k (subst (λ z. find job_key z js ≡ some k) p found)
          (subst (λ z. Elem d z) same (subst (λ z. Elem d z.depends_on) (sym e) n))
    | inr (_, g) ↦ v.ranked x d j g n
  ]

  changed-IsSound : IsSound ks
  changed-IsSound =
      let closed = replaced-Closed js ks k.id l at v.closed (moved-Known js v k l found m) in
      elim (moved_deps js v k l found m) [
        | inl same ↦ record {
          closed = closed;
          ready = changed_ready;
          rank = v.rank;
          ranked = changed-Ranked same;
        }
        | inr apart ↦ record {
          closed = closed;
          ready = changed_ready;
          rank = lifted;
          ranked = lifted-Ranked apart;
        }
      ]

module _ (js ks : List Job) (k : Job) (v : IsSound js) (new : find job_key k.id js ≡ none)
    (known : Known js k.depends_on) (status : k.status ≡ compute_status js k)
    (at : (x : Text) → find job_key x ks ≡ ite (text_dec k.id x) (some k) (find job_key x js)) where
  -- Nothing waits for the new job, the job itself included.
  not_awaited : {deps : List Text} {d : Text} → Known js deps → Elem d deps → k.id ≡ d → ⊥
  not_awaited known n p =
      let (i, g) = known _ n in none-some (sym new ∙ ap (λ z. find job_key z js) p ∙ g)

  entered_ready :
      (x : Text) (j : Job)
      → find job_key x ks ≡ some j
      → is_ready j.status ≡ true
      → DepsDone ks j.depends_on
  entered_ready x j f r d i n g = elim (replaced_cases js ks k.id k at x j f) [
    | inl (_, e) ↦
        let n' = subst (λ z. Elem d z.depends_on) (sym e) n in
        elim (replaced_cases js ks k.id k at d i g) [
          | inl (q, _) ↦ absurd (not_awaited known n' q)
          | inr (_, h) ↦
              verdict_ready js k k.status status (subst (λ z. is_ready z.status ≡ true) (sym e) r) d
                i n' h
        ]
    | inr (_, o) ↦ elim (replaced_cases js ks k.id k at d i g) [
      | inl (q, _) ↦ absurd (not_awaited (λ y. v.closed x y j o) n q)
      | inr (_, h) ↦ v.ready x j o r d i n h
    ]
  ]

  entered_rank : Text → ℕ
  entered_rank x = ite (text_dec k.id x) (above v.rank k.depends_on) (v.rank x)

  entered-Ranked : Ranked entered_rank ks
  unfolding entered_rank
  entered-Ranked x d j f n = elim (replaced_cases js ks k.id k at x j f) [
    | inl (p, e) ↦
        let n' = subst (λ z. Elem d z.depends_on) (sym e) n in
        rw
          (
            if_pos (text_dec k.id x) p (above v.rank k.depends_on) (v.rank x),
            if_neg (text_dec k.id d) (not_awaited known n') (above v.rank k.depends_on) (v.rank d),
          )
          (above-lt v.rank k.depends_on n')
    | inr (p, g) ↦
        rw
          (
            if_neg (text_dec k.id x) p (above v.rank k.depends_on) (v.rank x),
            if_neg (text_dec k.id d) (not_awaited (λ y. v.closed x y j g) n)
                (above v.rank k.depends_on) (v.rank d),
          )
          (v.ranked x d j g n)
  ]

  entered-IsSound : IsSound ks
  entered-IsSound = record {
    closed = replaced-Closed js ks k.id k at v.closed known;
    ready = entered_ready;
    rank = entered_rank;
    ranked = entered-Ranked;
  }

module _ (js ks : List Job) (gone : Text → Bool) (v : IsSound js) (spares : Spares gone js)
    (at : (x : Text) → find job_key x ks ≡ (if gone x then none else find job_key x js)) where
  left_before :
      (x : Text) (j : Job)
      → find job_key x ks ≡ some j
      → (gone x ≡ false) × (find job_key x js ≡ some j)
  left_before x j f = elim (Bool-cases (gone x)) [
    | inl t ↦ absurd (none-some (sym (rw t at (at x)) ∙ f))
    | inr t ↦ (t, sym (rw t at (at x)) ∙ f)
  ]

  left-IsSound : IsSound ks
  left-IsSound = record {
    closed = λ x d j f n.
        let (t, g) = left_before x j f in
        let (i, h) = v.closed x d j g n in (i, rw (spares x d j g t n) at (at d) ∙ h);
    ready = λ x j f r d i n h. v.ready x j (left_before x j f).1 r d i n (left_before d i h).1;
    rank = v.rank;
    ranked = λ x d j f n. v.ranked x d j (left_before x j f).1 n;
  }

pub Steps-IsSound : {js ks : List Job} → Steps js ks → IsSound js → IsSound ks
Steps-IsSound rest v = v
Steps-IsSound (next {ks} {ls} p (enter k new known s at keep)) v =
    entered-IsSound ks ls k (Steps-IsSound p v) new known s at
Steps-IsSound (next {ks} {ls} p (change k l found m at keep)) v =
    changed-IsSound ks ls k l (Steps-IsSound p v) found m at
Steps-IsSound (next {ks} {ls} p (leave gone spares at keep)) v =
    left-IsSound ks ls gone (Steps-IsSound p v) spares at
