-- ===== src/Dispatch/Tighter.antt =====
-- Engines in which no robot has become available, under the same rules: what is not eligible stays so.
use hydra_umc_job_dispatcher.Common.{
  ◌≡◌, refl, sym, ◌∙◌, ap, subst, ◌⊎◌, inl, inr, Bool, true, false, Option, none, List, [], ◌∷◌,
  Text, text_dec, Elem, here, there, Elem-cons, Bool-cases, Option-cases, if_pos, if_neg, arith,
}
use hydra_umc_job_dispatcher.Common.Keyed.{update}
use hydra_umc_job_dispatcher.Events.{EventType}
use hydra_umc_job_dispatcher.Model.{Job, Robot, Error, robot_key}
use hydra_umc_job_dispatcher.Engine.{
  Engine, StoreOps, persist_job, persist_robot, record_persist_outcome, emit,
}
use hydra_umc_job_dispatcher.Engine.Frame.{
  SameQueue, persist_job-SameQueue, persist_robot-SameQueue, record_persist_outcome-SameQueue,
  emit-SameQueue,
}
use hydra_umc_job_dispatcher.Dispatch.{set_available, robot_eligible, not_heard_from}
use hydra_umc_job_dispatcher.Dispatch.Best.{eligible_available}

-- A store that takes every write of a job or of a robot.
pub record IsReliable {S : Type 0} (ops : StoreOps S) : Type 0 where
  pub jobs_taken : (s : S) (j : Job) → (ops.save_job s j).1 ≡ none
  pub robots_taken : (s : S) (r : Robot) → (ops.save_robot s r).1 ≡ none

-- No robot may be given the job.
abbrev pub IsExhausted : {S : Type 0} → Engine S → Job → Type 0
IsExhausted e j = (r : Robot) → Elem r e.robots → robot_eligible e j r ≡ false

-- The rules for eligibility are the same, and no robot became available.
pub record Tighter {S : Type 0} (a b : Engine S) : Type 0 where
  pub tool_check : a.tool_check ≡ b.tool_check
  pub robot_freshness : a.robot_freshness ≡ b.robot_freshness
  pub now : a.now ≡ b.now
  pub fewer : (r : Robot) → Elem r a.robots → r.available ≡ true → Elem r b.robots

Elem-update :
    (id : Text) (f : Robot → Robot) (rs : List Robot) (r : Robot)
    → Elem r (update robot_key id f rs)
    → Elem r rs ⊎ ((w : Robot) × (r ≡ f w))
unfolding update
Elem-update id f [] r m = elim m [ ]
Elem-update id f (w ∷ rs) r m = elim (text_dec (robot_key w) id) [
  | yes p ↦ elim (Elem-cons (subst (λ z. Elem r z) (if_pos (text_dec (robot_key w) id) p _ _) m)) [
    | inl e ↦ inr (w, e)
    | inr k ↦ inl (there k)
  ]
  | no p ↦ elim (Elem-cons (subst (λ z. Elem r z) (if_neg (text_dec (robot_key w) id) p _ _) m)) [
    | inl e ↦ inl (subst (λ z. Elem z (w ∷ rs)) (sym e) here)
    | inr k ↦ elim (Elem-update id f rs r k) [ inl n ↦ inl (there n) | inr n ↦ inr n ]
  ]
]

module _ {S : Type 0} where
  pub Tighter-refl : (e : Engine S) → Tighter e e
  Tighter-refl e = record {
    tool_check = refl;
    robot_freshness = refl;
    now = refl;
    fewer = λ r m a. m;
  }

  pub Tighter-trans : {a b c : Engine S} → Tighter a b → Tighter b c → Tighter a c
  Tighter-trans p q = record {
    tool_check = p.tool_check ∙ q.tool_check;
    robot_freshness = p.robot_freshness ∙ q.robot_freshness;
    now = p.now ∙ q.now;
    fewer = λ r m a. q.fewer r (p.fewer r m a) a;
  }

  SameQueue-Tighter :
      {a b : Engine S}
      → SameQueue a b
      → a.tool_check ≡ b.tool_check
      → a.robot_freshness ≡ b.robot_freshness
      → Tighter a b
  SameQueue-Tighter q t f = record {
    tool_check = t;
    robot_freshness = f;
    now = q.now;
    fewer = λ r m a. subst (λ z. Elem r z) q.robots m;
  }

  pub emit-Tighter : (kind : EventType) (j : Job) (e : Engine S) → Tighter (emit kind j e) e
  unfolding emit
  emit-Tighter kind j e = SameQueue-Tighter (emit-SameQueue kind j e) refl refl

  pub outcome-Tighter :
      (errs : List (Option Error)) (e : Engine S) → Tighter (record_persist_outcome errs e) e
  unfolding record_persist_outcome
  outcome-Tighter errs e = SameQueue-Tighter (record_persist_outcome-SameQueue errs e) refl refl

  pub taken-Tighter :
      (r : Text) (e : Engine S)
      → Tighter (record e { robots = update robot_key r (set_available false) e.robots }) e
  taken-Tighter r e = record {
    tool_check = refl;
    robot_freshness = refl;
    now = refl;
    fewer = λ w m a. elim (Elem-update r (set_available false) e.robots w m) [
      | inl k ↦ k
      | inr (v, q) ↦ absurd (unavailable v w q a)
    ];
  }
    where
      unavailable : (v w : Robot) → w ≡ set_available false v → w.available ≡ true → ⊥
      unavailable v w q a = clash (sym (ap (λ z. z.available) q) ∙ a)
        where
          clash : false ≡ true → ⊥
          clash p = cc

  eligible-same :
      (a b : Engine S) (j : Job) (r : Robot)
      → a.tool_check ≡ b.tool_check
      → a.robot_freshness ≡ b.robot_freshness
      → a.now ≡ b.now
      → robot_eligible a j r ≡ robot_eligible b j r
  unfolding robot_eligible not_heard_from
  eligible-same a b j r p q n = rw (p, q, n) refl

  -- A job that no robot could be given stays so.
  pub Tighter-IsExhausted :
      {a b : Engine S} (j : Job) → Tighter a b → IsExhausted b j → IsExhausted a j
  Tighter-IsExhausted {a} {b} j t x r m = elim (Bool-cases (robot_eligible a j r)) [
    | inr f ↦ f
    | inl e ↦
        let same = eligible-same a b j r t.tool_check t.robot_freshness t.now in
        absurd (clash (sym same ∙ e) (x r (t.fewer r m (eligible_available a j r e))))
  ]
    where
      clash : {c : Bool} → c ≡ true → c ≡ false → ⊥
      clash p q = cc

module _ {S : Type 0} (ops : StoreOps S) where
  pub persist_job-Tighter : (j : Job) (e : Engine S) → Tighter (persist_job ops j e).0 e
  unfolding persist_job
  persist_job-Tighter j e =
      SameQueue-Tighter (persist_job-SameQueue ops j e) (ground arith) (ground arith)

  pub persist_robot-Tighter : (r : Robot) (e : Engine S) → Tighter (persist_robot ops r e).0 e
  unfolding persist_robot
  persist_robot-Tighter r e =
      SameQueue-Tighter (persist_robot-SameQueue ops r e) (ground arith) (ground arith)

  pub persist_job-taken : (j : Job) (e : Engine S) → IsReliable ops → (persist_job ops j e).1 ≡ none
  unfolding persist_job
  persist_job-taken j e v = elim (Option-cases e.store) [
    | inl q ↦ rw (q, persist_job) refl
    | inr (s, q) ↦ elim (Option-cases e.pending) [
      | inl p ↦ rw (q, p, persist_job) (v.jobs_taken s j)
      | inr (b, p) ↦ rw (q, p, persist_job) refl
    ]
  ]

  pub persist_robot-taken :
      (r : Robot) (e : Engine S) → IsReliable ops → (persist_robot ops r e).1 ≡ none
  unfolding persist_robot
  persist_robot-taken r e v = elim (Option-cases e.store) [
    | inl q ↦ rw (q, persist_robot) refl
    | inr (s, q) ↦ elim (Option-cases e.pending) [
      | inl p ↦ rw (q, p, persist_robot) (v.robots_taken s r)
      | inr (b, p) ↦ rw (q, p, persist_robot) refl
    ]
  ]
