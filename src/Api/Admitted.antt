-- ===== src/Api/Admitted.antt =====
-- Which requests serveRoutes lets in.
use hydra_umc_job_dispatcher.Common.{
  ◌⊎◌, ◌≡◌, refl, ◌∙◌, ap, inl, inr, arith, Bool, true, false, ◌||◌, ◌&&◌, not, Option, none, some,
  [], ◌∷◌, Text, is_empty, eqt, Bool-cases, Option-cases, if◌then◌else◌,
}
use hydra_umc_job_dispatcher.Engine.{Engine, StoreOps}
use hydra_umc_job_dispatcher.Api.{refuse}
use hydra_umc_job_dispatcher.Api.Routes.{Request, serve}
use hydra_umc_job_dispatcher.Api.Entry.{
  ServerIdentity, can_write, Access, method_of, is_health, only_reads, authorized, identity_allowed,
  serve_routes,
}

-- The reasons for which a request is let in.
pub data Admitted (a : Access) (given : Option Text) (r : Request) : Type 0 where
  unguarded : a.verify ≡ none → a.token ≡ [] → Admitted a given r
  health_check : a.verify ≡ none → is_health r ≡ true → Admitted a given r
  by_token : given ≡ some a.token → is_empty a.token ≡ false → Admitted a given r
  by_identity :
      (v : Text → Option ServerIdentity) (t : Text) (i : ServerIdentity)
      → a.verify ≡ some v
      → given ≡ some t
      → v t ≡ some i
      → only_reads (method_of r) || can_write i ≡ true
      → Admitted a given r

eqt_sound : (a b : Text) → eqt a b ≡ true → a ≡ b
eqt_sound a b h = ground arith

eqt_refl : (a : Text) → eqt a a ≡ true
eqt_refl a = ground arith

is_empty-nil : (a : Text) → is_empty a ≡ true → a ≡ []
is_empty-nil [] h = refl
is_empty-nil (c ∷ a) h = absurd (cc)

abbrev let_in : Access → Option Text → Request → Bool
let_in a given r = elim a.verify [
  | some verify ↦ identity_allowed a.token verify (method_of r) given
  | none ↦ not (not (is_empty a.token) && (not (is_health r) && not (authorized a.token given)))
]

identity_allowed-Admitted :
    (a : Access) (v : Text → Option ServerIdentity) (given : Option Text) (r : Request)
    → a.verify ≡ some v
    → identity_allowed a.token v (method_of r) given ≡ true
    → Admitted a given r
unfolding identity_allowed
identity_allowed-Admitted a v none r q h = absurd (cc)
identity_allowed-Admitted a v (some t) r q h =
    elim (Bool-cases (not (is_empty a.token) && eqt t a.token)) [
      | inl k ↦ by_token (ap some (eqt_sound t a.token (ground arith))) (ground arith)
      | inr k ↦ elim (Option-cases (v t)) [
        | inl w ↦ absurd (cc (rw (k, w) at h))
        | inr (i, w) ↦ by_identity v t i q refl w (rw (k, w) at h)
      ]
    ]

let_in-Admitted :
    (a : Access) (given : Option Text) (r : Request) → let_in a given r ≡ true → Admitted a given r
unfolding authorized
let_in-Admitted a given r h = elim (Option-cases a.verify) [
  | inr (v, q) ↦ identity_allowed-Admitted a v given r q (rw q at h)
  | inl q ↦ elim (Bool-cases (is_empty a.token)) [
    | inl n ↦ unguarded q (is_empty-nil a.token n)
    | inr n ↦ elim (Bool-cases (is_health r)) [
      | inl b ↦ health_check q b
      | inr b ↦ elim (Option-cases given) [
        | inl g ↦ absurd (cc (rw (q, n, b, g) at h))
        | inr (t, g) ↦ elim (Bool-cases (eqt t a.token)) [
          | inl k ↦ by_token (g ∙ ap some (eqt_sound t a.token k)) n
          | inr k ↦ absurd (cc (rw (q, n, b, g, k) at h))
        ]
      ]
    ]
  ]
]

Admitted-let_in :
    (a : Access) (given : Option Text) (r : Request) → Admitted a given r → let_in a given r ≡ true
unfolding authorized identity_allowed
Admitted-let_in a given r (unguarded q n) = rw (q, n) refl
Admitted-let_in a given r (health_check q b) = rw q (ground arith)
Admitted-let_in a given r (by_token g n) = elim (Option-cases a.verify) [
  | inr (v, q) ↦ rw (q, g, n, eqt_refl a.token) refl
  | inl q ↦ rw (q, g, n, eqt_refl a.token) (ground arith)
]
Admitted-let_in a given r (by_identity v t i q g w k) =
    elim (Bool-cases (not (is_empty a.token) && eqt t a.token)) [
      | inl x ↦ rw (q, g, x) refl
      | inr x ↦ rw (q, g, x, w) k
    ]

module _ {S : Type 0} (ops : StoreOps S) where
  serve_routes-let_in :
      (a : Access) (given : Option Text) (r : Request) (e : Engine S)
      → serve_routes ops a given r e ≡ (if let_in a given r then serve ops r e else (e, refuse 401))
  unfolding serve_routes
  serve_routes-let_in a given r e = elim (Option-cases a.verify) [
    | inr (v, q) ↦ elim (Bool-cases (identity_allowed a.token v (method_of r) given)) [
      | inl k ↦ rw (q, k, serve_routes) refl
      | inr k ↦ rw (q, k, serve_routes) refl
    ]
    | inl q ↦
        elim (Bool-cases
          (not (is_empty a.token) && (not (is_health r) && not (authorized a.token given)))) [
            | inl k ↦ rw (q, k, serve_routes) refl
            | inr k ↦ rw (q, k, serve_routes) refl
          ]
  ]

  -- A request is served if there is a reason to let it in: neither a token nor an identity is asked
  -- for, only the token is and this is the health check, the token comes with it, or the token of an
  -- identity that may do what the method does. Without a reason it is answered with 401 and the
  -- engine is left as it was.
  pub serve_routes-Admitted :
      (a : Access) (given : Option Text) (r : Request) (e : Engine S)
      → (Admitted a given r × (serve_routes ops a given r e ≡ serve ops r e))
        ⊎ ((¬ Admitted a given r) × (serve_routes ops a given r e ≡ (e, refuse 401)))
  serve_routes-Admitted a given r e = elim (Bool-cases (let_in a given r)) [
    | inl k ↦ inl (let_in-Admitted a given r k, rw (serve_routes-let_in a given r e, k) refl)
    | inr k ↦ inr (
      (λ w. absurd (cc (Admitted-let_in a given r w, k))),
      rw (serve_routes-let_in a given r e, k) refl,
    )
  ]
