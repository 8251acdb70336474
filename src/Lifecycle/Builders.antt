-- ===== src/Lifecycle/Builders.antt =====
-- Putting steps together, and the step that a change through a pointer is.
use mathlib.Core.Option
use hydra_umc_job_dispatcher.Common.{
  ◌≡◌, sym, ◌∙◌, ap, subst, ite, if_pos, if_neg, Option, some, List, Text, text_dec,
}
use hydra_umc_job_dispatcher.Common.Keyed.{
  find, update, find-update, find-key, Distinct, update-Distinct,
}
use hydra_umc_job_dispatcher.Model.{Job, job_key}
use hydra_umc_job_dispatcher.Engine.{Engine}
use hydra_umc_job_dispatcher.Engine.Frame.{SameQueue}
use hydra_umc_job_dispatcher.Lifecycle.{Move, change, enter, leave, Steps, rest, next}

pub Steps-trans : {js ks ls : List Job} → Steps js ks → Steps ks ls → Steps js ls
Steps-trans p rest = p
Steps-trans p (next q s) = next (Steps-trans p q) s

pub then_same : {js ks ls : List Job} → Steps js ks → ls ≡ ks → Steps js ls
then_same {js} p e = subst (λ z. Steps js z) (sym e) p

pub Steps-Distinct : {js ks : List Job} → Steps js ks → Distinct job_key js → Distinct job_key ks
Steps-Distinct rest d = d
Steps-Distinct (next p (enter k f n s e keep)) d = keep (Steps-Distinct p d)
Steps-Distinct (next p (change k l f m e keep)) d = keep (Steps-Distinct p d)
Steps-Distinct (next p (leave g s e keep)) d = keep (Steps-Distinct p d)

-- A change of the job under an id.
pub update-Steps :
    (id : Text) (f : Job → Job) (k : Job) (js : List Job)
    → find job_key id js ≡ some k
    → ((j : Job) → job_key (f j) ≡ job_key j)
    → Move js k (f k)
    → Steps js (update job_key id f js)
update-Steps id f k js found same m =
    let name = find-key job_key id js {v = k} found in
    next rest (
      change k (f k) (subst (λ z. find job_key z js ≡ some k) (sym name) found) m
        (λ x. changed x (sym name)) (update-Distinct job_key id f js same))
  where
    changed :
        (x : Text)
        → id ≡ k.id
        → find job_key x (update job_key id f js)
          ≡ ite (text_dec k.id x) (some (f k)) (find job_key x js)
    changed x e =
        let q = find-update job_key x id f js same in
        elim (text_dec id x) [
          | yes p ↦
              q
              ∙ if_pos (text_dec id x) p _ _
              ∙ ap (Option.map f) (ap (λ z. find job_key z js) (sym p) ∙ found)
              ∙ sym (if_pos (text_dec k.id x) (sym e ∙ p) _ _)
          | no p ↦
              q ∙ if_neg (text_dec id x) p _ _ ∙ sym (if_neg (text_dec k.id x) (λ r. p (e ∙ r)) _ _)
        ]

-- The same on the jobs of an engine, at the end of the steps so far.
pub change-Steps :
    {js : List Job} (id : Text) (f : Job → Job) (k : Job) (ks : List Job)
    → find job_key id ks ≡ some k
    → ((j : Job) → job_key (f j) ≡ job_key j)
    → Move ks k (f k)
    → Steps js ks
    → Steps js (update job_key id f ks)
change-Steps id f k ks found same m v = Steps-trans v (update-Steps id f k ks found same m)

pub SameQueue-Steps :
    {S : Type 0} {js : List Job} {a b : Engine S}
    → SameQueue a b
    → Steps js b.jobs
    → Steps js a.jobs
SameQueue-Steps s v = then_same v s.jobs

-- A lookup in an engine with the same queue.
pub SameQueue-find :
    {S : Type 0} {a b : Engine S} (x : Text) {o : Option Job}
    → SameQueue a b
    → find job_key x b.jobs ≡ o
    → find job_key x a.jobs ≡ o
SameQueue-find x s f = ap (λ z. find job_key x z) s.jobs ∙ f
