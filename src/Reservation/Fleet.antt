-- ===== src/Reservation/Fleet.antt =====
-- Heartbeats, registrations and removals keep the reservations: the scheduler's own reservation
-- wins over whatever a robot declares of itself.
use hydra_umc_job_dispatcher.Common.{
  ◌≡◌, ◌≢◌, refl, sym, subst, inl, inr, Bool, true, false, ◌&&◌, Option, none, some, List, [], ◌∷◌,
  Text, is_empty, Elem, here, there, Bool-cases, Option-cases, arith,
}
use hydra_umc_job_dispatcher.Common.Keyed.{find, update}
use hydra_umc_job_dispatcher.Model.{Job, Robot, robot_key, is_assigned}
use hydra_umc_job_dispatcher.Engine.{Engine, StoreOps}
use hydra_umc_job_dispatcher.Engine.Frame.{
  persist_robot_at-SameQueue, record_persist_outcome-SameQueue,
}
use hydra_umc_job_dispatcher.Held.{robot_has_active_assignment, jobs_held_by}
use hydra_umc_job_dispatcher.Held.Index.{jobs_held_by_complete}
use hydra_umc_job_dispatcher.Registry.{
  RobotUpdate, heartbeat, declare, note_fault, known_part, fault, availability, save_current,
  upsert_robot_locked, upsert_robot, update_robot, any_in_flight, delete_stored, remove_robot,
}
use hydra_umc_job_dispatcher.Reservation.{
  EngineIsReserved, IsIdle, SameQueue-IsReserved, hold-IsReserved, free-IsReserved,
  prune-IsReserved,
}
use hydra_umc_job_dispatcher.Reservation.Changes.{register-IsReserved, forget-IsReserved}
use hydra_umc_job_dispatcher.Reservation.Ending.{active-IsReserved, active-IsIdle, named_robot}
use hydra_umc_job_dispatcher.Reservation.Returning.{
  jobs_of_robot-IsReserved, requeue_all-IsReserved,
}

module _ {S : Type 0} (ops : StoreOps S) where
  fault-IsReserved :
      (r : Text) (e : Engine S) → EngineIsReserved e → EngineIsReserved (fault ops r e)
  unfolding fault
  fault-IsReserved r e v =
      let noted = hold-IsReserved r note_fault (λ w. refl) (λ w u. u) v in
      let listed =
        jobs_of_robot-IsReserved r false
          (record e { robots = update robot_key r note_fault e.robots }) noted in
      elim (Bool-cases (e.replan.enabled && e.replan.on_fault)) [
        | inl on ↦ rw on (requeue_all-IsReserved ops _ [] _ listed)
        | inr off ↦ rw off noted
      ]

  availability-IsReserved :
      (r : Robot) (given : Bool) (e : Engine S)
      → is_empty r.id ≡ false
      → EngineIsReserved e
      → EngineIsReserved (availability ops r given e)
  unfolding availability
  availability-IsReserved r given e n v =
      let pruned = active-IsReserved r.id e v in
      elim (Bool-cases given) [
        | inr unstated ↦ rw unstated v
        | inl stated ↦ elim (Bool-cases (robot_has_active_assignment r.id e).0) [
          | inr idle ↦
              rw (stated, idle)
                (free-IsReserved r.id (declare r.available) (λ w. refl)
                  (active-IsIdle r.id e v n idle) pruned)
          | inl busy ↦ elim (Bool-cases r.available) [
            | inl fine ↦ rw (stated, busy, fine) pruned
            | inr faulty ↦ rw (stated, busy, faulty) (fault-IsReserved r.id _ pruned)
          ]
        ]
      ]

  save_current-IsReserved :
      (r : Text) (e : Engine S) → EngineIsReserved e → EngineIsReserved (save_current ops r e)
  unfolding save_current
  save_current-IsReserved r e v =
      SameQueue-IsReserved (record_persist_outcome-SameQueue _ _)
        (SameQueue-IsReserved (persist_robot_at-SameQueue ops r e) v)

  nonempty : (r : Text) → is_empty r ≡ false → r ≢ []
  nonempty r n = λ p. absurd (ground arith)

  upsert_robot_locked-IsReserved :
      (r : Robot) (given : Bool) (e : Engine S)
      → is_empty r.id ≡ false
      → EngineIsReserved e
      → EngineIsReserved (upsert_robot_locked ops r given e)
  unfolding upsert_robot_locked
  upsert_robot_locked-IsReserved r given e n v =
      elim (Option-cases (find robot_key r.id e.robots)) [
        | inl new ↦
            rw (new, upsert_robot_locked)
              (save_current-IsReserved r.id _
                (register-IsReserved (record r { last_heartbeat = e.now }) new (nonempty r.id n) v))
        | inr (w, known) ↦
            rw (known, upsert_robot_locked)
              (save_current-IsReserved r.id _ (
                availability-IsReserved r given _ n
                  (hold-IsReserved r.id (heartbeat r e.now) (λ z. refl) (λ z u. u) v)))
      ]

  -- A registration or a heartbeat, whatever it declares, frees no robot that holds an assigned job.
  pub upsert_robot-IsReserved :
      (r : Robot) (e : Engine S)
      → is_empty r.id ≡ false
      → EngineIsReserved e
      → EngineIsReserved (upsert_robot ops r e)
  unfolding upsert_robot
  upsert_robot-IsReserved r e n v = upsert_robot_locked-IsReserved r true e n v

  known_part-id : (id : Text) (o : Option Robot) → (known_part id o).id ≡ id
  known_part-id id none = refl
  known_part-id id (some r) = refl

  pub update_robot-IsReserved :
      (u : RobotUpdate) (e : Engine S)
      → is_empty u.id ≡ false
      → EngineIsReserved e
      → EngineIsReserved (update_robot ops u e)
  unfolding update_robot
  update_robot-IsReserved u e n v =
      upsert_robot_locked-IsReserved _ _ e
        (subst (λ z. is_empty z ≡ false) (sym (known_part-id u.id (find robot_key u.id e.robots)))
          n)
        v

-- A robot that no job in flight names is idle.
in_flight-Elem :
    (js : List Job) {j : Job} → Elem j js → is_assigned j.status ≡ true → any_in_flight js ≡ true
unfolding any_in_flight
in_flight-Elem [] m h = elim m [ ]
in_flight-Elem (j ∷ js) here h = ground arith
in_flight-Elem (k ∷ js) (there m) h = ground (arith, in_flight-Elem js m h)

module _ {S : Type 0} (ops : StoreOps S) where
  delete_stored-IsReserved :
      (id : Text) (e : Engine S)
      → IsIdle id e.jobs
      → EngineIsReserved e
      → EngineIsReserved (delete_stored ops id e).0
  unfolding delete_stored
  delete_stored-IsReserved id e idle v =
      let gone = forget-IsReserved id idle v in
      elim (Option-cases e.store) [
        | inl q ↦ rw (q, delete_stored) gone
        | inr (s, q) ↦ elim (Option-cases ops.delete_robot) [
          | inl p ↦ rw (q, p, delete_stored) gone
          | inr (d, p) ↦ elim (Option-cases (d s id).1) [
            | inl o ↦ rw (q, p, o, delete_stored) gone
            | inr (x, o) ↦ rw (q, p, o, delete_stored) v
          ]
        ]
      ]

  -- A robot is forgotten only if no assigned job names it.
  pub remove_robot-IsReserved :
      (id : Text) (e : Engine S) → EngineIsReserved e → EngineIsReserved (remove_robot ops id e).0
  unfolding remove_robot jobs_held_by
  remove_robot-IsReserved id e v = elim (Option-cases (find robot_key id e.robots)) [
    | inl q ↦ rw (q, remove_robot) v
    | inr (r, q) ↦ elim (Bool-cases (any_in_flight (jobs_held_by id e).0)) [
      | inl busy ↦ rw (q, remove_robot) (rw busy (prune-IsReserved id v))
      | inr free ↦
          rw (q, remove_robot)
            (rw free (
              delete_stored-IsReserved id (jobs_held_by id e).1 (idle r q free)
                (prune-IsReserved id v)))
    ]
  ]
    where
      idle :
          (r : Robot)
          → find robot_key id e.robots ≡ some r
          → any_in_flight (jobs_held_by id e).0 ≡ false
          → IsIdle id e.jobs
      idle r q free x j f a n =
          let m = jobs_held_by_complete e id x j v.indexed (named_robot id v q) f n in
          let t = in_flight-Elem (jobs_held_by id e).0 m a in cc
