-- ===== src/Archive.antt =====
-- The archive (src/dispatcher/archive.go: ArchiveFinished): the jobs that ended long enough ago
-- leave the queue, unless a job that stays depends on them.
pub mod Closed
pub mod Reserved
use hydra_umc_job_dispatcher.Common.{
  ℕ, zero, suc, ◌+◌, ◌/◌, Bool, true, false, ◌&&◌, not, Option, none, some, List, [], ◌∷◌, map,
  Text, eqt, is_empty, ltb, leb, ◌==◌, length, select, if◌then◌else◌,
}
use hydra_umc_job_dispatcher.Common.Int.{ℤ, pos, pos_part, neg_part, ltb_ℤ}
use hydra_umc_job_dispatcher.Common.Keyed.{find, delete}
use hydra_umc_job_dispatcher.Time.{Duration, unix_milli}
use hydra_umc_job_dispatcher.Model.{
  Job, JobStatus, Error, Result, ok, err, DedupEntry, job_key, dedup_entry_key, stop_request_key,
  mem_text,
}
use hydra_umc_job_dispatcher.Engine.{Engine, StoreOps}

abbrev pub archivable : JobStatus → Bool
archivable JobStatus.done = true
archivable JobStatus.failed = true
archivable JobStatus.cancelled = true
archivable _ = false

-- `completed <= now - after`, with `after` in milliseconds
abbrev pub long_ago : ℤ → ℤ → ℕ → Bool
long_ago completed now after =
    leb (pos_part completed + after + neg_part now) (pos_part now + neg_part completed)

unfoldable pub is_candidate : ℤ → ℕ → Job → Bool
is_candidate now after j =
    archivable j.status && ltb_ℤ (pos 0) j.completed_at_ms && long_ago j.completed_at_ms now after

-- A job that stays takes its dependencies out of the candidates.
unfoldable pub keep_deps : Job → List Text → List Text
keep_deps j candidates =
    if mem_text j.id candidates
    then candidates
    else select (λ id. not (mem_text id j.depends_on)) candidates

-- One round of the loop, and the rounds until one changes nothing.
unfoldable pub keep_round : List Job → List Text → List Text
keep_round [] candidates = candidates
keep_round (j ∷ js) candidates = keep_round js (keep_deps j candidates)

unfoldable pub keep_rounds : ℕ → List Job → List Text → List Text
keep_rounds zero jobs candidates = candidates
keep_rounds (suc fuel) jobs candidates =
    let next = keep_round jobs candidates in
    let rest = keep_rounds fuel jobs next in
    if length next == length candidates then candidates else rest

-- Each round but the last takes out a candidate at least.
unfoldable pub archived_ids : ℤ → ℕ → List Job → List Text
archived_ids now after jobs =
    let candidates = map job_key (select (is_candidate now after) jobs) in
    keep_rounds (suc (length candidates)) jobs candidates

-- `if j.DedupKey != "" && e.dedupIndex[j.DedupKey] == id`
unfoldable pub forget_key : Text → Text → List DedupEntry → List DedupEntry
forget_key key id index = if is_empty key then index else elim (find dedup_entry_key key index) [
  | none ↦ index
  | some d ↦ if eqt d.job_id id then delete dedup_entry_key key index else index
]

module _ {S : Type 0} where
  unfoldable pub forget_job : Text → Engine S → Engine S
  forget_job id e = elim (find job_key id e.jobs) [
    | none ↦ e
    | some j ↦ record e {
      dedup_index = forget_key j.dedup_key id e.dedup_index;
      stop_req = delete stop_request_key id e.stop_req;
      jobs = delete job_key id e.jobs;
    }
  ]

  unfoldable pub forget_jobs : List Text → Engine S → Engine S
  forget_jobs [] e = e
  forget_jobs (id ∷ ids) e = forget_jobs ids (forget_job id e)

  -- The store is written first.
  unfoldable pub archive_ids :
      (S → List Text → ℤ → S × Option Error)
      → S
      → List Text
      → Engine S
      → Engine S × Result (List Text)
  archive_ids archive s [] e = (e, ok [])
  archive_ids archive s (id ∷ ids) e =
      let w = archive s (id ∷ ids) (unix_milli e.now) in
      elim w.1 [
        | some x ↦ (record e { store = some w.0; last_persist_err = some x }, err x)
        | none ↦ (forget_jobs (id ∷ ids) (record e { store = some w.0 }), ok (id ∷ ids))
      ]

module _ {S : Type 0} (ops : StoreOps S) where
  -- ArchiveFinished
  unfoldable pub archive_finished : Engine S → Engine S × Result (List Text)
  archive_finished e = elim e.store [
    | none ↦ (e, ok [])
    | some s ↦ elim ops.archive_jobs [
      | none ↦ (e, ok [])
      | some archive ↦
          if e.archive_after == 0
          then (e, ok [])
          else archive_ids archive s
              (archived_ids (unix_milli e.now) (e.archive_after / 1000000) e.jobs) e
    ]
  ]
