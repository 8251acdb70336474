-- ===== src/Lifecycle.antt =====
-- The life of a job, as an abstract machine: the moves of one job that the program makes, and the
-- steps of a queue, read through its lookups. The methods of src/dispatcher refine it.
pub mod Builders
pub mod Sound
pub mod Kept
pub mod Ending
pub mod Returning
pub mod Swept
pub mod Silence
pub mod Entering
pub mod Assigning
pub mod Fleet
pub mod Leaving
use hydra_umc_job_dispatcher.Common.{
  ◌≡◌, ite, Bool, true, false, ◌||◌, Option, none, some, List, Text, text_dec, Elem, if◌then◌else◌,
}
use hydra_umc_job_dispatcher.Common.Keyed.{find, Distinct}
use hydra_umc_job_dispatcher.Model.{Job, JobStatus, job_key, is_in_flight}
use hydra_umc_job_dispatcher.Graph.Reach.{Reach}
use hydra_umc_job_dispatcher.Status.{compute_status, is_waiting}
use hydra_umc_job_dispatcher.Submit.{may_retry}

-- Every dependency is a job of the queue.
abbrev pub Known : List Job → List Text → Type 0
Known js deps = (d : Text) → Elem d deps → (k : Job) × (find job_key d js ≡ some k)

-- What may become of one job of the queue `js`.
pub data Move (js : List Job) (k l : Job) : Type 0 where
  given :
      k.status ≡ JobStatus.pending
      → l.status ≡ JobStatus.assigned
      → l.depends_on ≡ k.depends_on
      → Move js k l
  taken_back :
      k.status ≡ JobStatus.assigned
      → l.status ≡ JobStatus.pending
      → l.depends_on ≡ k.depends_on
      → Move js k l
  succeeded :
      is_in_flight k.status ≡ true
      → l.status ≡ JobStatus.done
      → l.depends_on ≡ k.depends_on
      → Move js k l
  failed :
      is_in_flight k.status ≡ true
      → l.status ≡ JobStatus.failed
      → l.depends_on ≡ k.depends_on
      → Move js k l
  withdrawn :
      is_waiting k.status ≡ true
      → l.status ≡ JobStatus.cancelled
      → l.depends_on ≡ k.depends_on
      → Move js k l
  judged :
      is_in_flight k.status || is_waiting k.status ≡ true
      → l.status ≡ compute_status js k
      → l.depends_on ≡ k.depends_on
      → Move js k l
  lost :
      is_in_flight k.status ≡ true
      → l.status ≡ JobStatus.unknown
      → l.depends_on ≡ k.depends_on
      → Move js k l
  retried :
      may_retry k.status ≡ true
      → l.status ≡ compute_status js l
      → Known js l.depends_on
      → ((d : Text) → Elem d l.depends_on → Reach js k.id d → ⊥)
      → Move js k l

-- No job that stays depends on one that goes.
abbrev pub Spares : (Text → Bool) → List Job → Type 0
Spares gone js =
    (x d : Text) (j : Job)
    → find job_key x js ≡ some j
    → gone x ≡ false
    → Elem d j.depends_on
    → gone d ≡ false

-- A queue that holds each id once keeps doing so.
abbrev pub KeepsDistinct : List Job → List Job → Type 0
KeepsDistinct js ks = Distinct job_key js → Distinct job_key ks

pub data JobStep (js ks : List Job) : Type 0 where
  enter :
      (k : Job)
      → find job_key k.id js ≡ none
      → Known js k.depends_on
      → k.status ≡ compute_status js k
      → ((x : Text) → find job_key x ks ≡ ite (text_dec k.id x) (some k) (find job_key x js))
      → KeepsDistinct js ks
      → JobStep js ks
  change :
      (k l : Job)
      → find job_key k.id js ≡ some k
      → Move js k l
      → ((x : Text) → find job_key x ks ≡ ite (text_dec k.id x) (some l) (find job_key x js))
      → KeepsDistinct js ks
      → JobStep js ks
  leave :
      (gone : Text → Bool)
      → Spares gone js
      → ((x : Text) → find job_key x ks ≡ (if gone x then none else find job_key x js))
      → KeepsDistinct js ks
      → JobStep js ks

pub data Steps (js : List Job) : List Job → Type 0 where
  rest : Steps js js
  next : {ks ls : List Job} → Steps js ks → JobStep ks ls → Steps js ls
