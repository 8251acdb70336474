-- ===== src/Reservation/Silence.antt =====
-- The sweep for silent robots and the acknowledgement of a stop keep the reservations.
use hydra_umc_job_dispatcher.Common.{
  ◌≡◌, refl, sym, subst, inl, inr, ◌&&◌, not, Option, none, List, [], ◌∷◌, Text, eqt, is_empty,
  Bool-cases, Option-cases, arith,
}
use hydra_umc_job_dispatcher.Common.Keyed.{find}
use hydra_umc_job_dispatcher.Time.{Duration}
use hydra_umc_job_dispatcher.Model.{Job, JobStatus, Error, job_key, stop_request_key}
use hydra_umc_job_dispatcher.Engine.{Engine, StoreOps, emit}
use hydra_umc_job_dispatcher.Engine.Frame.{
  begin_batch-SameQueue, commit_batch-SameQueue, record_persist_outcome-SameQueue,
  persist_job_at-SameQueue,
}
use hydra_umc_job_dispatcher.Status.{set_status}
use hydra_umc_job_dispatcher.Stale.{
  collect_stale, decide_stale, stop_decision, ask_to_stop, pursue, open_request, mark_each,
  mark_unknown, emit_unknown, requeue_back, detect_stale, ack_stop, ack_open,
}
use hydra_umc_job_dispatcher.Reservation.{IsReserved, EngineIsReserved, SameQueue-IsReserved}
use hydra_umc_job_dispatcher.Reservation.Sheds.{IsRelease, update-IsReserved}
use hydra_umc_job_dispatcher.Reservation.Returning.{requeue_all-IsReserved}

unknown-IsRelease : IsRelease (set_status JobStatus.unknown)
unknown-IsRelease j = (refl, λ a. cc, λ n. refl, λ a. refl)

-- The jobs, the robots and the index are as they were.
pub record SameParts {S : Type 0} (a b : Engine S) : Type 0 where
  pub jobs : a.jobs ≡ b.jobs
  pub robots : a.robots ≡ b.robots
  pub held_by : a.held_by ≡ b.held_by

module _ {S : Type 0} where
  SameParts-IsReserved : {a b : Engine S} → SameParts a b → EngineIsReserved b → EngineIsReserved a
  SameParts-IsReserved {a} {b} s v =
      subst (λ js. IsReserved js a.robots a.held_by) (sym s.jobs)
        (subst (λ rs. IsReserved b.jobs rs a.held_by) (sym s.robots)
          (subst (λ hs. IsReserved b.jobs b.robots hs) (sym s.held_by) v))

  pub collect_stale-SameParts :
      (timeout : Duration) (js : List Job) (e : Engine S)
      → SameParts (collect_stale timeout js e).0 e
  unfolding collect_stale
  collect_stale-SameParts timeout [] e = ground arith
  collect_stale-SameParts timeout (j ∷ js) e = ground (arith, collect_stale-SameParts timeout js e)

  stop_decision-SameParts : (j : Job) (e : Engine S) → SameParts (stop_decision j e).0 e
  unfolding stop_decision ask_to_stop pursue open_request
  stop_decision-SameParts j e = ground arith

  pub decide_stale-SameParts : (js : List Job) (e : Engine S) → SameParts (decide_stale js e).0 e
  unfolding decide_stale
  decide_stale-SameParts [] e = ground arith
  decide_stale-SameParts (j ∷ js) e =
      ground (arith, stop_decision-SameParts j e, decide_stale-SameParts js (stop_decision j e).0)

  pub emit_unknown-SameParts : (id : Text) (e : Engine S) → SameParts (emit_unknown id e) e
  unfolding emit_unknown emit
  emit_unknown-SameParts id e = ground arith

module _ {S : Type 0} (ops : StoreOps S) where
  mark_each-IsReserved :
      (ids : List Text) (e : Engine S) (x : Option Error)
      → EngineIsReserved e
      → EngineIsReserved (mark_each ops ids e x).0
  unfolding mark_each
  mark_each-IsReserved [] e x v = v
  mark_each-IsReserved (id ∷ ids) e x v =
      let marked = update-IsReserved id (set_status JobStatus.unknown) unknown-IsRelease v in
      let told = SameParts-IsReserved (emit_unknown-SameParts id _) marked in
      mark_each-IsReserved ids _ _ (SameQueue-IsReserved (persist_job_at-SameQueue ops id _) told)

  mark_unknown-IsReserved :
      (ids : List Text) (e : Engine S)
      → EngineIsReserved e
      → EngineIsReserved (mark_unknown ops ids e)
  unfolding mark_unknown
  mark_unknown-IsReserved [] e v = v
  mark_unknown-IsReserved (id ∷ ids) e v =
      let begun = SameQueue-IsReserved (begin_batch-SameQueue e) v in
      let marked = mark_each-IsReserved (id ∷ ids) _ none begun in
      let commit = SameQueue-IsReserved (commit_batch-SameQueue ops _) marked in
      SameQueue-IsReserved (record_persist_outcome-SameQueue _ _) commit

  requeue_back-IsReserved :
      (ids : List Text) (e : Engine S)
      → EngineIsReserved e
      → EngineIsReserved (requeue_back ops ids e).0
  unfolding requeue_back
  requeue_back-IsReserved [] e v = v
  requeue_back-IsReserved (id ∷ ids) e v = requeue_all-IsReserved ops (id ∷ ids) [] e v

  pub detect_stale-IsReserved :
      (timeout : Duration) (e : Engine S)
      → EngineIsReserved e
      → EngineIsReserved (detect_stale ops timeout e).0
  unfolding detect_stale
  detect_stale-IsReserved timeout e v =
      let collected = SameParts-IsReserved (collect_stale-SameParts timeout e.jobs e) v in
      let decided = SameParts-IsReserved (decide_stale-SameParts _ _) collected in
      elim (Bool-cases (e.replan.enabled && e.replan.on_stale)) [
        | inl on ↦ rw on (mark_unknown-IsReserved _ _ (requeue_back-IsReserved _ _ decided))
        | inr off ↦ rw off (mark_unknown-IsReserved _ _ collected)
      ]

  pub ack_stop-IsReserved :
      (robot_id job_id : Text) (e : Engine S)
      → EngineIsReserved e
      → EngineIsReserved (ack_stop ops robot_id job_id e).0
  unfolding ack_stop
  ack_stop-IsReserved robot_id job_id e v =
      let back = requeue_all-IsReserved ops (job_id ∷ []) [] e v in
      elim (Bool-cases e.replan.enabled) [
        | inr off ↦ rw off v
        | inl on ↦ elim (Option-cases (find job_key job_id e.jobs)) [
          | inl q ↦ rw (on, q, ack_stop) v
          | inr (j, q) ↦
              elim (Bool-cases
                (not (is_empty j.assigned_robot) && not (eqt j.assigned_robot robot_id))) [
                  | inl other ↦ rw (on, q, ack_stop) (rw other v)
                  | inr own ↦
                      elim (Bool-cases
                        (ack_open j robot_id (find stop_request_key job_id e.stop_req))) [
                          | inl asked ↦ rw (on, q, ack_stop) (rw (own, asked) back)
                          | inr closed ↦ rw (on, q, ack_stop) (rw (own, closed) v)
                        ]
                ]
        ]
      ]
