-- ===== src/Restart.antt =====
-- The start of the process over a store that holds records (src/dispatcher/dispatcher.go:
-- NewEngineWithStore). What LoadAll answers is an argument.
pub mod Loaded
pub mod Resumed
pub mod Order
use hydra_umc_job_dispatcher.Common.{
  ℕ, suc, ◌*◌, false, Option, some, List, [], ◌∷◌, Text, is_empty, leb, if◌then◌else◌,
}
use hydra_umc_job_dispatcher.Common.Keyed.{put}
use hydra_umc_job_dispatcher.Time.{Duration, second}
use hydra_umc_job_dispatcher.Model.{
  Job, Robot, Result, ok, err, DedupEntry, job_key, robot_key, dedup_entry_key,
}
use hydra_umc_job_dispatcher.Engine.{Engine, new_engine}
use hydra_umc_job_dispatcher.Held.{note_assigned}

-- JobRecord: the fields of a job that a store sees, and its place in the order of submission.
pub record JobRecord : Type 0 where
  pub job : Job
  pub seq : ℕ

-- `JobRecord{Job: *j, Seq: j.seq}`
abbrev pub record_of : Job → JobRecord
record_of j = record { job = j; seq = j.seq }

-- What a Store in another package gives back for a record (scanJobs of src/sqlitestore): the exported
-- fields of the job and Seq. The field seq inside the job is not exported and stays at 0.
abbrev pub scanned : JobRecord → JobRecord
scanned r = record { job = record r.job { seq = 0 }; seq = r.seq }

-- What a Store gives back for a robot (loadRobots of src/sqlitestore): the fields that the program
-- keeps in memory only are not set.
abbrev pub scanned_robot : Robot → Robot
scanned_robot r = record r { stop_capable = false; self_reported_unavailable = false }

abbrev pub default_archive_after : Duration
default_archive_after = 30 * 24 * 3600 * second

-- `j := r.Job; j.seq = r.Seq`
abbrev pub job_of_record : JobRecord → Job
job_of_record r = record r.job { seq = r.seq }

-- `if j.DedupKey != "" { e.dedupIndex[j.DedupKey] = j.ID }`
unfoldable pub load_key : Job → List DedupEntry → List DedupEntry
load_key j index =
    if is_empty j.dedup_key
    then index
    else put dedup_entry_key (record { dedup_key = j.dedup_key; job_id = j.id }) index

-- `if j.seq >= e.nextSeq { e.nextSeq = j.seq + 1 }`
unfoldable pub raise_seq : ℕ → ℕ → ℕ
raise_seq seq next = if leb next seq then suc seq else next

module _ {S : Type 0} where
  -- the engine before the loops
  abbrev pub fresh : S → Engine S
  fresh s = record new_engine { store = some s; archive_after = default_archive_after }

  unfoldable pub load_job : JobRecord → Engine S → Engine S
  load_job r e =
      let j = job_of_record r in
      let e' = note_assigned j (record e { jobs = put job_key j e.jobs }) in
      record e' { dedup_index = load_key j e'.dedup_index; next_seq = raise_seq j.seq e'.next_seq }

  unfoldable pub load_jobs : List JobRecord → Engine S → Engine S
  load_jobs [] e = e
  load_jobs (r ∷ rs) e = load_jobs rs (load_job r e)

  unfoldable pub load_robots : List Robot → Engine S → Engine S
  load_robots [] e = e
  load_robots (r ∷ rs) e = load_robots rs (record e { robots = put robot_key r e.robots })

  unfoldable pub loaded : List JobRecord → List Robot → S → Engine S
  loaded records robots s = load_robots robots (load_jobs records (fresh s))

  -- NewEngineWithStore, on the answer of LoadAll
  unfoldable pub new_engine_with_store :
      Result (List JobRecord × List Robot) → S → Result (Engine S)
  new_engine_with_store answer s = elim answer [
    | err x ↦ err x
    | ok (records, robots) ↦ ok (loaded records robots s)
  ]
