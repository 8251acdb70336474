-- ===== src/Restart/Order.antt =====
-- The order of submission goes on behind the jobs that were loaded.
use hydra_umc_job_dispatcher.Common.{
  ℕ, ◌<◌, ◌≤◌, ◌≡◌, sym, ◌∙◌, ap, subst, some, List, [], ◌∷◌, Text, text_dec, if_pos, if_neg,
  some_inj, arith,
}
use hydra_umc_job_dispatcher.Common.Keyed.{find, find-put}
use hydra_umc_job_dispatcher.Model.{Job, Robot, job_key}
use hydra_umc_job_dispatcher.Engine.{Engine, new_engine}
use hydra_umc_job_dispatcher.Held.{note_assigned}
use hydra_umc_job_dispatcher.Submit.{stored_job}
use hydra_umc_job_dispatcher.Restart.{
  JobRecord, job_of_record, raise_seq, load_job, load_jobs, loaded, fresh,
}
use hydra_umc_job_dispatcher.Restart.Loaded.{load_robots-jobs, load_robots-next_seq}

-- The number of each job is below the next one.
abbrev SeqBelow : List Job → ℕ → Type 0
SeqBelow js n = (x : Text) (j : Job) → find job_key x js ≡ some j → j.seq < n

raise_seq-le : (seq next : ℕ) → next ≤ raise_seq seq next × (seq < raise_seq seq next)
unfolding raise_seq
raise_seq-le seq next = ground arith

module _ {S : Type 0} where
  load_job-SeqBelow :
      (r : JobRecord) (e : Engine S)
      → SeqBelow e.jobs e.next_seq
      → SeqBelow (load_job r e).jobs (load_job r e).next_seq
  unfolding load_job note_assigned
  load_job-SeqBelow r e v x j f =
      let k = job_of_record r in
      let (more, own) = raise_seq-le k.seq e.next_seq in
      let g = sym (find-put job_key x k e.jobs) ∙ f in
      elim (text_dec (job_key k) x) [
        | yes p ↦
            subst (λ z. z.seq < raise_seq k.seq e.next_seq)
              (some_inj (sym (if_pos (text_dec (job_key k) x) p _ _) ∙ g)) own
        | no p ↦ let less = v x j (sym (if_neg (text_dec (job_key k) x) p _ _) ∙ g) in omega arith
      ]

  load_jobs-SeqBelow :
      (rs : List JobRecord) (e : Engine S)
      → SeqBelow e.jobs e.next_seq
      → SeqBelow (load_jobs rs e).jobs (load_jobs rs e).next_seq
  unfolding load_jobs
  load_jobs-SeqBelow [] e v = v
  load_jobs-SeqBelow (r ∷ rs) e v = load_jobs-SeqBelow rs (load_job r e) (load_job-SeqBelow r e v)

  -- Whatever records were loaded, a job that is added next has a higher number than each of them.
  pub loaded_seq :
      (js : List JobRecord) (rs : List Robot) (s : S) (x : Text) (j k : Job)
      → find job_key x (loaded js rs s).jobs ≡ some j
      → j.seq < (stored_job k (loaded js rs s)).seq
  unfolding loaded new_engine find stored_job
  loaded_seq js rs s x j k f =
      let e = load_jobs js (fresh s) in
      let below =
        load_jobs-SeqBelow js (fresh s) (λ y i g. absurd (cc)) x j
          (ap (λ z. find job_key x z) (sym (load_robots-jobs rs e)) ∙ f) in
      omega (arith, below, load_robots-next_seq rs e)
