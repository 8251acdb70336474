-- ===== src/Held/Index.antt =====
-- What the index of held jobs answers after it was written and after it was pruned.
use hydra_umc_job_dispatcher.Common.{
  ◌≡◌, refl, sym, ◌∙◌, ap, subst, inl, inr, Bool, true, false, ◌||◌, Option, some, List, [], ◌∷◌,
  ◌++◌, Text, text_dec, eqt, is_empty, Elem, here, there, select, Option-cases, filter_some,
  List-cases, select-Elem, Elem-select, Elem-cons, ite, arith,
}
use hydra_umc_job_dispatcher.Common.Keyed.{find, put, delete, find-put, find-delete}
use hydra_umc_job_dispatcher.Model.{
  Job, Holding, job_key, holding_key, mem_text, add_text, is_assigned,
}
use hydra_umc_job_dispatcher.Engine.{Engine}
use hydra_umc_job_dispatcher.Held.{
  held_ids, note_held, still_held, prune_held, any_assigned, jobs_held_by,
  robot_has_active_assignment,
}

pub eqt_refl : (a : Text) → eqt a a ≡ true
eqt_refl a = ground arith

pub eqt-eq : (a b : Text) → eqt a b ≡ true → a ≡ b
eqt-eq a b h = ground arith

mem_text-append :
    (a b : Text) (bs : List Text) → mem_text a (bs ++ b ∷ []) ≡ (mem_text a bs || eqt b a)
unfolding mem_text
mem_text-append a b [] = ground arith
mem_text-append a b (c ∷ bs) = ground (arith, mem_text-append a b bs)

pub mem_text-add_text :
    (a b : Text) (bs : List Text) → mem_text a (add_text b bs) ≡ (mem_text a bs || eqt b a)
unfolding add_text
mem_text-add_text a b bs = elim (text_dec b a) [
  | yes p ↦ ground (arith, mem_text-append a b bs, ap (λ c. mem_text c bs) p)
  | no p ↦ ground (arith, mem_text-append a b bs)
]

pub mem_text-select :
    (p : Text → Bool) (a : Text) (bs : List Text)
    → p a ≡ true
    → mem_text a (select p bs) ≡ mem_text a bs
unfolding mem_text select
mem_text-select p a [] h = refl
mem_text-select p a (b ∷ bs) h = elim (text_dec b a) [
  | yes e ↦ ground (arith, mem_text-select p a bs h, ap p e)
  | no e ↦ ground (arith, mem_text-select p a bs h)
]

-- Every job that names a robot is in that robot's entry.
abbrev pub Indexed : List Job → List Holding → Type 0
Indexed jobs held =
    (x : Text) (j : Job)
    → find job_key x jobs ≡ some j
    → is_empty j.assigned_robot ≡ false
    → mem_text x (held_ids j.assigned_robot held) ≡ true

held_ids-put :
    (r : Text) (h : Holding) (held : List Holding)
    → held_ids r (put holding_key h held) ≡ ite (text_dec h.robot_id r) h.job_ids (held_ids r held)
unfolding held_ids
held_ids-put r h held = ground (arith, find-put holding_key r h held)

held_ids-delete :
    (r q : Text) (held : List Holding)
    → held_ids r (delete holding_key q held) ≡ ite (text_dec q r) [] (held_ids r held)
unfolding held_ids
held_ids-delete r q held = ground (arith, find-delete holding_key r q held)

-- Noting a job loses no entry of the index,
pub note_held-mem :
    (x r : Text) (j : Job) (held : List Holding)
    → mem_text x (held_ids r held) ≡ true
    → mem_text x (held_ids r (note_held j held)) ≡ true
unfolding note_held
note_held-mem x r j held h = elim (text_dec j.assigned_robot r) [
  | yes p ↦ ground (
    arith,
    held_ids-put r (entry) held,
    ap (λ q. mem_text x (held_ids q held)) p,
    mem_text-add_text x j.id (held_ids j.assigned_robot held),
  )
  | no p ↦ ground (arith, held_ids-put r (entry) held)
]
  where
    entry : Holding
    entry = record {
      robot_id = j.assigned_robot;
      job_ids = add_text j.id (held_ids j.assigned_robot held);
    }

-- and adds the job to the entry of its robot.
pub note_held_self :
    (j : Job) (held : List Holding)
    → is_empty j.assigned_robot ≡ false
    → mem_text j.id (held_ids j.assigned_robot (note_held j held)) ≡ true
unfolding note_held
note_held_self j held h = ground (
  arith,
  held_ids-put j.assigned_robot (entry) held,
  mem_text-add_text j.id j.id (held_ids j.assigned_robot held),
)
  where
    entry : Holding
    entry = record {
      robot_id = j.assigned_robot;
      job_ids = add_text j.id (held_ids j.assigned_robot held);
    }

held_ids-prune_held :
    (jobs : List Job) (r q : Text) (held : List Holding)
    → held_ids r (prune_held jobs q held)
      ≡ ite (text_dec q r) (select (still_held jobs q) (held_ids q held)) (held_ids r held)
unfolding prune_held
held_ids-prune_held jobs r q held =
    elim (List-cases (select (still_held jobs q) (held_ids q held))) [
      | inl e ↦ rw (e, prune_held) (held_ids-delete r q held)
      | inr (id, ids, e) ↦
          rw (e, prune_held) (held_ids-put r (record { robot_id = q; job_ids = id ∷ ids }) held)
    ]

-- Pruning one robot's entry loses no job that still names it.
pub prune_held-mem :
    (jobs : List Job) (x r q : Text) (held : List Holding)
    → still_held jobs r x ≡ true
    → mem_text x (held_ids r held) ≡ true
    → mem_text x (held_ids r (prune_held jobs q held)) ≡ true
prune_held-mem jobs x r q held s h = elim (text_dec q r) [
  | yes p ↦ rw (held_ids-prune_held jobs r q held) (
      ground (
        arith,
        mem_text-select (still_held jobs q) x (held_ids q held)
            (ap (λ z. still_held jobs z x) p ∙ s),
        ap (λ z. mem_text x (held_ids z held)) p,
      ))
  | no p ↦ rw (held_ids-prune_held jobs r q held) (ground arith)
]

-- A job that names a robot is what `still_held` looks for.
pub still_held_of :
    (jobs : List Job) (x : Text) {j : Job}
    → find job_key x jobs ≡ some j
    → still_held jobs j.assigned_robot x ≡ true
unfolding still_held
still_held_of jobs x {j} f = ground (arith, eqt_refl j.assigned_robot)

-- The index never loses a job, whatever robot's entry is read.
pub prune_held-Indexed :
    (jobs : List Job) (q : Text) (held : List Holding)
    → Indexed jobs held
    → Indexed jobs (prune_held jobs q held)
prune_held-Indexed jobs q held indexed x j f named =
    prune_held-mem jobs x j.assigned_robot q held (still_held_of jobs x f) (indexed x j f named)

pub Elem-mem_text : (x : Text) (ids : List Text) → mem_text x ids ≡ true → Elem x ids
unfolding mem_text
Elem-mem_text x [] h = cc
Elem-mem_text x (y ∷ ids) h = elim (text_dec y x) [
  | yes p ↦ subst (λ z. Elem z (y ∷ ids)) p here
  | no p ↦ there (Elem-mem_text x ids (ground arith))
]

Elem-filter_some :
    {A : Type 0} (f : Text → Option A) (ids : List Text) {x : Text} {a : A}
    → Elem x ids
    → f x ≡ some a
    → Elem a (filter_some f ids)
Elem-filter_some f [] m e = elim m [ ]
Elem-filter_some f (x ∷ ids) here e = rw (e, filter_some) here
Elem-filter_some f (y ∷ ids) (there m) e = elim (Option-cases (f y)) [
  | inl n ↦ rw (n, filter_some) (Elem-filter_some f ids m e)
  | inr (b, n) ↦ rw (n, filter_some) (there (Elem-filter_some f ids m e))
]

filter_some-Elem :
    {A : Type 0} (f : Text → Option A) (ids : List Text) {a : A}
    → Elem a (filter_some f ids)
    → (x : Text) × Elem x ids × (f x ≡ some a)
filter_some-Elem f [] m = elim m [ ]
filter_some-Elem f (y ∷ ids) {a} m = elim (Option-cases (f y)) [
  | inl n ↦ let (x, k, e) = filter_some-Elem f ids (rw (n, filter_some) at m) in (x, there k, e)
  | inr (b, n) ↦ elim (Elem-cons (rw (n, filter_some) at m)) [
    | inl q ↦ (y, here, n ∙ ap some (sym q))
    | inr k ↦ let (x, l, e) = filter_some-Elem f ids k in (x, there l, e)
  ]
]

module _ {S : Type 0} (e : Engine S) (r : Text) where
  -- If the index misses no job, the lookup by a robot with a name returns every job of the queue
  -- that names it.
  pub jobs_held_by_complete :
      (x : Text) (j : Job)
      → Indexed e.jobs e.held_by
      → is_empty r ≡ false
      → find job_key x e.jobs ≡ some j
      → j.assigned_robot ≡ r
      → Elem j (jobs_held_by r e).0
  unfolding jobs_held_by
  jobs_held_by_complete x j indexed named f q =
      Elem-filter_some (λ id. find job_key id e.jobs)
        (select (still_held e.jobs r) (held_ids r e.held_by))
        (select-Elem (still_held e.jobs r)
          (subst (λ z. still_held e.jobs z x ≡ true) q (still_held_of e.jobs x f))
          (Elem-mem_text x (held_ids r e.held_by) (
            subst (λ z. mem_text x (held_ids z e.held_by) ≡ true) q
              (indexed x j f (subst (λ z. is_empty z ≡ false) (sym q) named)))))
        f

  -- Every job that the lookup returns is a job of the queue that names the robot.
  pub jobs_held_by_sound :
      (j : Job)
      → Elem j (jobs_held_by r e).0
      → (x : Text) × (find job_key x e.jobs ≡ some j) × (j.assigned_robot ≡ r)
  unfolding jobs_held_by still_held
  jobs_held_by_sound j m =
      let (x, k, f) =
        filter_some-Elem (λ id. find job_key id e.jobs)
          (select (still_held e.jobs r) (held_ids r e.held_by)) m in
      let (_, s) = Elem-select (still_held e.jobs r) x (held_ids r e.held_by) k in
      (x, f, eqt-eq j.assigned_robot r (rw (f, still_held) at s))

any_assigned-Elem :
    (js : List Job) {j : Job} → Elem j js → is_assigned j.status ≡ true → any_assigned js ≡ true
unfolding any_assigned
any_assigned-Elem [] m h = elim m [ ]
any_assigned-Elem (j ∷ js) here h = ground arith
any_assigned-Elem (k ∷ js) (there m) h = ground (arith, any_assigned-Elem js m h)

-- A robot that the index answers to be free has no assigned job.
pub no_active_assignment :
    {S : Type 0} (e : Engine S) (r : Text)
    → Indexed e.jobs e.held_by
    → is_empty r ≡ false
    → (robot_has_active_assignment r e).0 ≡ false
    → (x : Text) (j : Job) → find job_key x e.jobs ≡ some j
    → is_assigned j.status ≡ true
    → j.assigned_robot ≡ r
    → ⊥
unfolding robot_has_active_assignment
no_active_assignment e r indexed named h x j f a q =
    let t =
      any_assigned-Elem (jobs_held_by r e).0 (jobs_held_by_complete e r x j indexed named f q) a in
    cc
