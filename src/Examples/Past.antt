-- ===== src/Examples/Past.antt =====
-- The archive and the pages at one finished job.
use hydra_umc_job_dispatcher.Common.{
  ◌≡◌, refl, ◌+◌, false, true, List, [], ◌∷◌, ◌++◌, Text, Elem, All-Elem, map, select, arith,
}
use hydra_umc_job_dispatcher.Common.Int.{pos}
use hydra_umc_job_dispatcher.Model.{Job, JobStatus, job_key, mem_text}
use hydra_umc_job_dispatcher.Archive.{is_candidate, archived_ids}
use hydra_umc_job_dispatcher.Archive.Closed.{
  IsClosed, Within, archived_ids-IsClosed, archived_ids-greatest,
}
use hydra_umc_job_dispatcher.Queries.{piece}
use hydra_umc_job_dispatcher.Queries.Paging.{piece-join}
use hydra_umc_job_dispatcher.Examples.{weld, paint, job_of}

abbrev done_weld : Job
done_weld = record (job_of weld []) { status = JobStatus.done; completed_at_ms = pos 1 }

abbrev past : List Job
past = done_weld ∷ []

archived_ids-IsClosed_example :
    IsClosed
      (job_of paint (weld ∷ []) ∷ past)
      (archived_ids (pos 10) 5 (job_of paint (weld ∷ []) ∷ past))
archived_ids-IsClosed_example = archived_ids-IsClosed (pos 10) 5 (job_of paint (weld ∷ []) ∷ past)

weld_finished : Within (weld ∷ []) (map job_key (select (is_candidate (pos 10) 5) past))
unfolding select is_candidate
weld_finished d m = m

weld_free :
    (j : Job)
    → Elem j past
    → mem_text j.id (weld ∷ []) ≡ false
    → (d : Text) → mem_text d (weld ∷ []) ≡ true
    → mem_text d j.depends_on ≡ false
unfolding mem_text
weld_free j m f d n = All-Elem (λ k. mem_text d k.depends_on ≡ false) m (refl, tt)

archived_ids-greatest_example : Within (weld ∷ []) (archived_ids (pos 10) 5 past)
archived_ids-greatest_example =
    archived_ids-greatest (pos 10) 5 past (weld ∷ []) weld_finished weld_free

piece-join_example :
    piece (pos 1) (pos 1) (done_weld ∷ past) ++ piece (pos (1 + 1)) (pos 0) (done_weld ∷ past)
    ≡ piece (pos 1) (pos 0) (done_weld ∷ past)
piece-join_example = piece-join 1 1 (done_weld ∷ past) (omega arith)
