-- ===== src/Lifecycle/Swept.antt =====
-- What the sweep for silent robots collects: assigned jobs, each once, parted in two by its decisions.
use hydra_umc_job_dispatcher.Common.{
  ◌≡◌, refl, sym, ◌∙◌, subst, inl, inr, true, ◌||◌, none, some, List, [], ◌∷◌, map, Text, text_dec,
  ltb, Elem, here, there, Elem-cons, Bool-cases, Option-cases, some_inj, if_pos, if_neg, arith,
  sort_by,
}
use hydra_umc_job_dispatcher.Common.Keyed.{find, find-Elem, Distinct}
use hydra_umc_job_dispatcher.Common.Sorting.{Elem-sort_by, Elem-map}
use hydra_umc_job_dispatcher.Time.{Duration}
use hydra_umc_job_dispatcher.Model.{Job, JobStatus, job_key, robot_key, is_in_flight, is_assigned}
use hydra_umc_job_dispatcher.Engine.{Engine}
use hydra_umc_job_dispatcher.Status.{is_waiting}
use hydra_umc_job_dispatcher.Stale.{
  StopDecision, StaleResult, requeue, requested, waiting, give_up, is_silent, collect_stale,
  decide_stale, stop_decision,
}
use hydra_umc_job_dispatcher.Lifecycle.Returning.{IsOpen}

-- The job under an id, if there is one, is in flight.
abbrev pub IsFlying : List Job → Text → Type 0
IsFlying ks x = (j : Job) → find job_key x ks ≡ some j → is_in_flight j.status ≡ true

pub flying-IsOpen : (ks : List Job) (x : Text) → IsFlying ks x → IsOpen ks x
flying-IsOpen ks x h j f = open_of j.status (h j f)
  where
    open_of : (s : JobStatus) → is_in_flight s ≡ true → is_in_flight s || is_waiting s ≡ true
    open_of s e = rw e refl

-- Both lists hold ids of `ks`, and no id is in both.
pub record Apart (ks back lost_ids : List Text) : Type 0 where
  pub back_of : (x : Text) → Elem x back → Elem x ks
  pub lost_of : (x : Text) → Elem x lost_ids → Elem x ks
  pub apart : (x : Text) → Elem x back → Elem x lost_ids → ⊥

module _ {ks back lost_ids : List Text} (id : Text) (v : Apart ks back lost_ids) where
  further : Apart (id ∷ ks) back lost_ids
  further = record {
    back_of = λ x m. there (v.back_of x m);
    lost_of = λ x m. there (v.lost_of x m);
    apart = v.apart;
  }

  further_back : (Elem id ks → ⊥) → Apart (id ∷ ks) (id ∷ back) lost_ids
  further_back n = record {
    back_of = λ x m. elim (Elem-cons m) [
      | inl e ↦ subst (λ z. Elem z (id ∷ ks)) (sym e) here
      | inr k ↦ there (v.back_of x k)
    ];
    lost_of = λ x m. there (v.lost_of x m);
    apart = λ x m k. elim (Elem-cons m) [
      | inl e ↦ n (subst (λ z. Elem z ks) e (v.lost_of x k))
      | inr l ↦ v.apart x l k
    ];
  }

  further_lost : (Elem id ks → ⊥) → Apart (id ∷ ks) back (id ∷ lost_ids)
  further_lost n = record {
    back_of = λ x m. there (v.back_of x m);
    lost_of = λ x m. elim (Elem-cons m) [
      | inl e ↦ subst (λ z. Elem z (id ∷ ks)) (sym e) here
      | inr k ↦ there (v.lost_of x k)
    ];
    apart = λ x m k. elim (Elem-cons k) [
      | inl e ↦ n (subst (λ z. Elem z ks) e (v.back_of x m))
      | inr l ↦ v.apart x m l
    ];
  }

Elem-key : (k : Text) (vs : List Job) → find job_key k vs ≡ none → Elem k (map job_key vs) → ⊥
unfolding find
Elem-key k [] f m = elim m [ ]
Elem-key k (w ∷ vs) f m = elim (text_dec (job_key w) k) [
  | yes p ↦ absurd (some_none (sym (if_pos (text_dec (job_key w) k) p _ _) ∙ f))
  | no p ↦ elim (Elem-cons m) [
    | inl e ↦ p (sym e)
    | inr n ↦ Elem-key k vs (sym (if_neg (text_dec (job_key w) k) p _ _) ∙ f) n
  ]
]
  where
    some_none : some w ≡ none → ⊥
    some_none e = cc

module _ {S : Type 0} where
  collect_stale-Elem :
      (t : Duration) (js : List Job) (e : Engine S) (j : Job)
      → Elem j (collect_stale t js e).1
      → Elem j js × (is_assigned j.status ≡ true)
  unfolding collect_stale
  collect_stale-Elem t [] e j m = elim m [ ]
  collect_stale-Elem t (w ∷ js) e j m =
      let later : Elem j (collect_stale t js e).1
          → Elem j (w ∷ js) × (is_assigned j.status ≡ true) =
        λ k. let (n, a) = collect_stale-Elem t js e j k in (there n, a) in
      elim (Bool-cases (is_assigned w.status)) [
        | inr f ↦ later (rw (f, collect_stale) at m)
        | inl a ↦ elim (Option-cases (find robot_key w.assigned_robot e.robots)) [
          | inl q ↦ later (rw (a, q, collect_stale) at m)
          | inr (r, q) ↦ elim (Bool-cases (is_silent t e.now r)) [
            | inr f ↦ later (rw (a, q, f, collect_stale) at m)
            | inl s ↦ elim (Elem-cons (rw (a, q, s, collect_stale) at m)) [
              | inl same ↦ (subst (λ z. Elem z (w ∷ js)) (sym same) here, rw same a)
              | inr k ↦ later k
            ]
          ]
        ]
      ]

  collect_stale-none :
      (t : Duration) (k : Text) (js : List Job) (e : Engine S)
      → find job_key k js ≡ none
      → find job_key k (collect_stale t js e).1 ≡ none
  unfolding collect_stale find
  collect_stale-none t k [] e h = refl
  collect_stale-none t k (w ∷ js) e h =
      ground (arith, λ (p : find job_key k js ≡ none). collect_stale-none t k js e p)

  pub collect_stale-Distinct :
      (t : Duration) (js : List Job) (e : Engine S)
      → Distinct job_key js
      → Distinct job_key (collect_stale t js e).1
  unfolding collect_stale
  collect_stale-Distinct t [] e d = tt
  collect_stale-Distinct t (w ∷ js) e (f, d) =
      ground (arith, collect_stale-Distinct t js e d, collect_stale-none t (job_key w) js e f)

  pub decide_stale-Apart :
      (js : List Job) (e : Engine S)
      → Distinct job_key js
      → Apart (map job_key js) (decide_stale js e).1 (decide_stale js e).2.unknown
  unfolding decide_stale
  decide_stale-Apart [] e d = record {
    back_of = λ x m. m;
    lost_of = λ x m. m;
    apart = λ x m. elim m [ ];
  }
  decide_stale-Apart (j ∷ js) e (f, d) =
      decided (stop_decision j e).1 (decide_stale js (stop_decision j e).0)
        (decide_stale-Apart js (stop_decision j e).0 d)
    where
      decided :
          (c : StopDecision) (r : Engine S × List Text × StaleResult)
          → Apart (map job_key js) r.1 r.2.unknown
          → let t : Engine S × List Text × StaleResult = elim c [
            | requeue ↦ (r.0, j.id ∷ r.1, r.2)
            | requested ↦ (r.0, r.1, record r.2 { stop_requested = j.id ∷ r.2.stop_requested })
            | waiting ↦ (r.0, r.1, r.2)
            | give_up ↦ (r.0, r.1, record r.2 { unknown = j.id ∷ r.2.unknown })
          ] in
            Apart (map job_key (j ∷ js)) t.1 t.2.unknown
      decided requeue r v = further_back j.id v (Elem-key j.id js f)
      decided requested r v = further j.id v
      decided waiting r v = further j.id v
      decided give_up r v = further_lost j.id v (Elem-key j.id js f)

  -- Every job that the sweep collects is assigned.
  pub collected-IsFlying :
      (t : Duration) (e : Engine S)
      → Distinct job_key e.jobs
      → (x : Text)
      → Elem x (map job_key (sort_by (λ a b. ltb a.seq b.seq) (collect_stale t e.jobs e).1))
      → IsFlying e.jobs x
  collected-IsFlying t e d x m k f =
      let (j, n, name) = Elem-map job_key _ m in
      let (at, a) = collect_stale-Elem t e.jobs e j (Elem-sort_by _ _ n) in
      let here_j =
        subst (λ z. find job_key z e.jobs ≡ some j) name (find-Elem job_key e.jobs d at) in
      flying k.status (subst (λ z. is_assigned z.status ≡ true) (some_inj (sym here_j ∙ f)) a)
    where
      flying : (s : JobStatus) → is_assigned s ≡ true → is_in_flight s ≡ true
      flying s a = ground arith
