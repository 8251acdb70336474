-- ===== src/Api/Entry.antt =====
-- Who is let in to the routes (src/api/api.go: serveRoutes, identityAllowed, authorized).
-- A request comes with the token behind the `Bearer ` of its Authorization header, without the white
-- space around it, or with none. The check of a signed token (src/dispatcher/server_identity.go) is an
-- argument.
use hydra_umc_job_dispatcher.Common.{
  Bool, true, false, ◌||◌, ◌&&◌, not, Option, none, some, [], ◌∷◌, Text, is_empty, eqt,
  if◌then◌else◌,
}
use hydra_umc_job_dispatcher.Engine.{Engine, StoreOps}
use hydra_umc_job_dispatcher.Api.{Method, get_method, head_method, options_method, Answer, refuse}
use hydra_umc_job_dispatcher.Api.Routes.{
  Request, jobs_route, submit_route, complete_route, cancel_route, requeue_route, robots_route,
  robot_route, dispatch_route, detect_route, replan_of_route, stop_ack_of_route, job_route,
  health_route, waiting_route, stop_requests_route, serve,
}

pub record ServerIdentity : Type 0 where
  pub username : Text
  pub role : Text

abbrev admin : Text
admin = 97 ∷ 100 ∷ 109 ∷ 105 ∷ 110 ∷ []

abbrev operator : Text
operator = 111 ∷ 112 ∷ 101 ∷ 114 ∷ 97 ∷ 116 ∷ 111 ∷ 114 ∷ []

abbrev pub can_write : ServerIdentity → Bool
can_write i = eqt i.role admin || eqt i.role operator

-- The fields token and identityKey of Server; with a key, what VerifyServerToken gives for a token.
pub record Access : Type 0 where
  pub token : Text
  pub verify : Option (Text → Option ServerIdentity)

abbrev pub method_of : Request → Method
method_of (jobs_route p m q d) = m
method_of (submit_route m d) = m
method_of (complete_route m d) = m
method_of (cancel_route m d) = m
method_of (requeue_route m d) = m
method_of (robots_route m d) = m
method_of (robot_route m id) = m
method_of (dispatch_route fetch m) = m
method_of (detect_route m d) = m
method_of (replan_of_route m d) = m
method_of (stop_ack_of_route m d) = m
method_of (job_route m id) = m
method_of (health_route m) = m
method_of (waiting_route m) = m
method_of (stop_requests_route m) = m

abbrev pub is_health : Request → Bool
is_health (health_route m) = true
is_health _ = false

abbrev pub only_reads : Method → Bool
only_reads get_method = true
only_reads head_method = true
only_reads options_method = true
only_reads _ = false

-- authorized
unfoldable pub authorized : Text → Option Text → Bool
authorized token none = false
authorized token (some given) = eqt given token

-- The role of a verified identity, in identityAllowed
abbrev pub role_allowed : Method → Option ServerIdentity → Bool
role_allowed m none = false
role_allowed m (some i) = only_reads m || can_write i

-- identityAllowed
unfoldable pub identity_allowed :
    Text → (Text → Option ServerIdentity) → Method → Option Text → Bool
identity_allowed token verify m none = false
identity_allowed token verify m (some given) =
    if not (is_empty token) && eqt given token then true else role_allowed m (verify given)

module _ {S : Type 0} (ops : StoreOps S) where
  -- serveRoutes
  unfoldable pub serve_routes : Access → Option Text → Request → Engine S → Engine S × Answer
  serve_routes a given r e = elim a.verify [
    | some verify ↦
        if not (identity_allowed a.token verify (method_of r) given)
        then (e, refuse 401)
        else serve ops r e
    | none ↦
        if not (is_empty a.token) && (not (is_health r) && not (authorized a.token given))
        then (e, refuse 401)
        else serve ops r e
  ]
