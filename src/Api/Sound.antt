-- ===== src/Api/Sound.antt =====
-- What the requests that come in over HTTP cannot bring about: the handlers refuse a registration
-- without the id of a robot, which the engine does not.
use hydra_umc_job_dispatcher.Common.{
  ◌≡◌, refl, sym, subst, inl, inr, Bool, true, false, Option, some, none, List, [], ◌∷◌, Text,
  is_empty, Bool-cases, if◌then◌else◌, arith,
}
use hydra_umc_job_dispatcher.Common.Keyed.{find}
use hydra_umc_job_dispatcher.Model.{Job, Robot, job_key, robot_key, is_assigned}
use hydra_umc_job_dispatcher.Engine.{Engine, StoreOps}
use hydra_umc_job_dispatcher.Reservation.{EngineIsReserved}
use hydra_umc_job_dispatcher.Run.{Call, started, run, names_robot, all_named}
use hydra_umc_job_dispatcher.Run.Reserved.{started-IsReserved, run-IsReserved}
use hydra_umc_job_dispatcher.Api.{
  Method, get_method, post_method, delete_method, head_method, options_method, other_method,
  Decoded, too_large, malformed, decoded,
}
use hydra_umc_job_dispatcher.Api.Routes.{
  Request, jobs_route, submit_route, complete_route, cancel_route, requeue_route, robots_route,
  robot_route, dispatch_route, detect_route, replan_of_route, stop_ack_of_route, job_route,
  health_route, waiting_route, stop_requests_route, serve, serve_all,
}
use hydra_umc_job_dispatcher.Api.Calls.{asked, posted, calls_of}
use hydra_umc_job_dispatcher.Api.Served.{serve-run}

asked-named : (b : Bool) (c : Call) → names_robot c ≡ true → all_named (asked b c) ≡ true
asked-named true c h = ground arith
asked-named false c h = refl

posted-named :
    {A : Type 0} (f : A → List Call) (m : Method) (d : Decoded A)
    → ((a : A) → all_named (f a) ≡ true)
    → all_named (posted f m d) ≡ true
posted-named f post_method (decoded a) h = h a
posted-named f post_method too_large h = refl
posted-named f post_method malformed h = refl
posted-named f get_method d h = refl
posted-named f head_method d h = refl
posted-named f options_method d h = refl
posted-named f delete_method d h = refl
posted-named f other_method d h = refl

gate-named :
    (on : Bool) (cs : List Call) → all_named cs ≡ true → all_named (if on then cs else []) ≡ true
gate-named true cs h = h
gate-named false cs h = refl

-- Every registration that a request asks for gives the id of its robot.
calls_of-named : (on : Bool) (r : Request) → all_named (calls_of on r) ≡ true
calls_of-named on (jobs_route p get_method q d) = asked-named _ _ refl
calls_of-named on (jobs_route p post_method q d) =
    posted-named _ post_method d (λ r. asked-named _ _ refl)
calls_of-named on (jobs_route p head_method q d) = refl
calls_of-named on (jobs_route p options_method q d) = refl
calls_of-named on (jobs_route p delete_method q d) = refl
calls_of-named on (jobs_route p other_method q d) = refl
calls_of-named on (submit_route m d) = posted-named _ m d (λ r. asked-named _ _ refl)
calls_of-named on (complete_route m d) = posted-named _ m d (λ r. asked-named _ _ refl)
calls_of-named on (cancel_route m d) = posted-named _ m d (λ r. asked-named _ _ refl)
calls_of-named on (requeue_route m d) = posted-named _ m d (λ r. asked-named _ _ refl)
calls_of-named on (robots_route m d) = posted-named _ m d (λ u. elim (Bool-cases (is_empty u.id)) [
  | inl t ↦ rw t refl
  | inr t ↦ rw (t, all_named) (rw t refl)
])
calls_of-named on (robot_route delete_method (some id)) = asked-named _ _ refl
calls_of-named on (robot_route delete_method none) = refl
calls_of-named on (robot_route get_method id) = refl
calls_of-named on (robot_route post_method id) = refl
calls_of-named on (robot_route head_method id) = refl
calls_of-named on (robot_route options_method id) = refl
calls_of-named on (robot_route other_method id) = refl
calls_of-named on (dispatch_route fetch post_method) = refl
calls_of-named on (dispatch_route fetch get_method) = refl
calls_of-named on (dispatch_route fetch head_method) = refl
calls_of-named on (dispatch_route fetch options_method) = refl
calls_of-named on (dispatch_route fetch delete_method) = refl
calls_of-named on (dispatch_route fetch other_method) = refl
calls_of-named on (detect_route m d) = posted-named _ m d (λ r. asked-named _ _ refl)
calls_of-named on (replan_of_route m d) =
    gate-named on _ (posted-named _ m d (λ r. asked-named _ _ refl))
calls_of-named on (stop_ack_of_route m d) =
    gate-named on _ (posted-named _ m d (λ r. asked-named _ _ refl))
calls_of-named on (job_route m id) = refl
calls_of-named on (health_route m) = refl
calls_of-named on (waiting_route m) = refl
calls_of-named on (stop_requests_route m) = refl

module _ {S : Type 0} (ops : StoreOps S) where
  serve_all-IsReserved :
      (rs : List Request) (e : Engine S)
      → EngineIsReserved e
      → EngineIsReserved (serve_all ops rs e)
  unfolding serve_all
  serve_all-IsReserved [] e v = v
  serve_all-IsReserved (r ∷ rs) e v = serve_all-IsReserved rs (serve ops r e).0 (
      subst EngineIsReserved (sym (serve-run ops r e))
        (run-IsReserved ops (calls_of e.replan.enabled r) e (calls_of-named e.replan.enabled r) v))

  -- On an engine that started empty, after any calls in which each registration and heartbeat gives
  -- the id of its robot and then any requests, with or without ids, whatever the store answered to the
  -- writes, two assigned jobs that name one robot are one job, and the robot of an assigned job is
  -- registered and not available.
  pub serve_all-one_job_per_robot :
      (s : Option S) (before : List Call) (rs : List Request) (x y : Text) (i j : Job)
      → all_named before ≡ true
      → find job_key x (serve_all ops rs (run ops before (started s))).jobs ≡ some i
      → find job_key y (serve_all ops rs (run ops before (started s))).jobs ≡ some j
      → is_assigned i.status ≡ true
      → is_assigned j.status ≡ true
      → (i.assigned_robot ≡ j.assigned_robot → x ≡ y)
        × ((r : Robot) × (find robot_key i.assigned_robot
                (serve_all ops rs (run ops before (started s))).robots
              ≡ some r)
            × (r.available ≡ false))
  serve_all-one_job_per_robot s before rs x y i j h f g a b =
      let v =
        serve_all-IsReserved rs (run ops before (started s))
          (run-IsReserved ops before (started s) h (started-IsReserved s)) in
      (v.exclusive x y i j f g a b, v.reserved x i f a)
