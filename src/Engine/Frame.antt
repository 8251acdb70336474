-- ===== src/Engine/Frame.antt =====
-- What the writes to the store leave alone: the queue, the registry and their indexes.
use hydra_umc_job_dispatcher.Common.{◌≡◌, refl, Option, List, Text, arith}
use hydra_umc_job_dispatcher.Events.{EventType}
use hydra_umc_job_dispatcher.Model.{Job, Robot, Error}
use hydra_umc_job_dispatcher.Engine.{
  Engine, StoreOps, persist_job, persist_robot, persist_job_at, persist_robot_at, begin_batch,
  commit_batch, record_persist_outcome, emit,
}

pub record SameQueue {S : Type 0} (a b : Engine S) : Type 0 where
  pub jobs : a.jobs ≡ b.jobs
  pub robots : a.robots ≡ b.robots
  pub held_by : a.held_by ≡ b.held_by
  pub dedup_index : a.dedup_index ≡ b.dedup_index
  pub next_seq : a.next_seq ≡ b.next_seq
  pub stop_req : a.stop_req ≡ b.stop_req
  pub replan : a.replan ≡ b.replan
  pub now : a.now ≡ b.now

module _ {S : Type 0} where
  pub SameQueue-refl : (e : Engine S) → SameQueue e e
  SameQueue-refl e = record {
    jobs = refl;
    robots = refl;
    held_by = refl;
    dedup_index = refl;
    next_seq = refl;
    stop_req = refl;
    replan = refl;
    now = refl;
  }

  pub SameQueue-trans : {a b c : Engine S} → SameQueue a b → SameQueue b c → SameQueue a c
  SameQueue-trans p q = ground arith

  pub begin_batch-SameQueue : (e : Engine S) → SameQueue (begin_batch e) e
  unfolding begin_batch
  begin_batch-SameQueue e = ground arith

  pub record_persist_outcome-SameQueue :
      (errs : List (Option Error)) (e : Engine S) → SameQueue (record_persist_outcome errs e) e
  unfolding record_persist_outcome
  record_persist_outcome-SameQueue errs e = ground arith

  pub emit-SameQueue : (kind : EventType) (j : Job) (e : Engine S) → SameQueue (emit kind j e) e
  unfolding emit
  emit-SameQueue kind j e = ground arith

module _ {S : Type 0} (ops : StoreOps S) where
  pub persist_job-SameQueue : (j : Job) (e : Engine S) → SameQueue (persist_job ops j e).0 e
  unfolding persist_job
  persist_job-SameQueue j e = ground arith

  pub persist_robot-SameQueue : (r : Robot) (e : Engine S) → SameQueue (persist_robot ops r e).0 e
  unfolding persist_robot
  persist_robot-SameQueue r e = ground arith

  pub persist_job_at-SameQueue :
      (id : Text) (e : Engine S) → SameQueue (persist_job_at ops id e).0 e
  unfolding persist_job_at persist_job
  persist_job_at-SameQueue id e = ground arith

  pub persist_robot_at-SameQueue :
      (id : Text) (e : Engine S) → SameQueue (persist_robot_at ops id e).0 e
  unfolding persist_robot_at persist_robot
  persist_robot_at-SameQueue id e = ground arith

  pub commit_batch-SameQueue : (e : Engine S) → SameQueue (commit_batch ops e).0 e
  unfolding commit_batch
  commit_batch-SameQueue e = ground arith
