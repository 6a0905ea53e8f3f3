-- ===== src/Dashboard/Delivered/Route.antt =====
-- internal/dashboard/server.go and internal/authz/router.go: what a request for a device's telemetry is
-- answered behind the router.
use enisa_sbd_example.Common.{
  ◌≡◌, ◌≢◌, refl, ap, ◌∙◌, Bool, List, [], ◌∷◌, Option, some, Bytes, codes, lookup, text_eq, Map, ℤ,
  ok, arith, four_steps,
}
use enisa_sbd_example.Authn.Identity.{Identity}
use enisa_sbd_example.Authn.Tokens.{Tokens}
use enisa_sbd_example.Store.Model.{Time, Float64, Store}
use enisa_sbd_example.Store.Scope.{scope_for, org_scope}
use enisa_sbd_example.Store.Reads.{readings}
use enisa_sbd_example.Http.{Request, Response, Handler}
use enisa_sbd_example.Authz.Router.{Router, new_router, guard, handle, handle_public, serve_http}
use enisa_sbd_example.Authz.Router.Granted.{IsGranted, serve_http-granted}
use enisa_sbd_example.Authz.Router.DenyByDefault.{handle-ok, handle_public-ok}
use enisa_sbd_example.Dashboard.Handlers.{
  fleet, telemetry, export, health, handler, fleet_readers, limit_of, readings_answer, with_scope,
  scope_of,
}

abbrev pub telemetry_pattern : Bytes
telemetry_pattern = codes "GET /api/devices/{id}/telemetry"

-- Behind the router, the request is one for the telemetry of a device, with the token of an operator or
-- an administrator and a usable limit.
pub record IsAsking (sum256 : Bytes → Bytes) (tokens : Option Tokens)
    (select : List Bytes → Bytes → Option Bytes) (rt : Router Store) (r : Request) (id : Identity)
    (limit : ℤ) : Type 0 where
  pub granted : IsGranted sum256 tokens select rt telemetry_pattern fleet_readers r id
  pub limited : limit_of r.query_limit ≡ some limit

module _ (format_float : Float64 → Bytes) (format_time : Time → Bytes) (sum256 : Bytes → Bytes)
    (conflicts : List Bytes → Bytes → Bool) (tokens : Option Tokens) where
  -- The handlers of the mux, in the order of their registration.
  abbrev mounted : Map (Handler Store)
  mounted =
      (codes "GET /api/fleet", guard sum256 tokens fleet_readers fleet)
      ∷ (
        codes "GET /api/fleet/export",
        guard sum256 tokens fleet_readers (export format_float format_time),
      )
      ∷ (telemetry_pattern, guard sum256 tokens fleet_readers telemetry)
      ∷ (codes "GET /healthz", health)
      ∷ []

  handler-mounted :
      (rt : Router Store)
      → handler format_float format_time sum256 conflicts tokens ≡ ok rt
      → rt.mux ≡ mounted
  unfolding handler new_router
  handler-mounted rt h =
      let exports = export format_float format_time in
      let r₀ : Router Store = new_router tokens in
      let (r₁, r₂, r₃, e₁, e₂, e₃, e₄) =
        four_steps
          (handle conflicts sum256 (new_router tokens) (codes "GET /api/fleet") fleet_readers fleet)
          (λ (x : Router Store).
            handle conflicts sum256 x (codes "GET /api/fleet/export") fleet_readers exports)
          (λ (x : Router Store).
            handle conflicts sum256 x telemetry_pattern fleet_readers telemetry)
          (λ (x : Router Store). handle_public conflicts x (codes "GET /healthz") health) h in
      let (_, _, s₁) =
        handle-ok sum256 conflicts (new_router tokens) r₁ (codes "GET /api/fleet") fleet_readers
          fleet e₁ in
      let (_, _, s₂) =
        handle-ok sum256 conflicts r₁ r₂ (codes "GET /api/fleet/export") fleet_readers exports e₂ in
      let (_, _, s₃) =
        handle-ok sum256 conflicts r₂ r₃ telemetry_pattern fleet_readers telemetry e₃ in
      let s₄ = handle_public-ok sum256 conflicts r₃ rt (codes "GET /healthz") health e₄ in
      rw (s₄, s₃, s₂, s₁) refl

  scope_for-own : (id : Identity) → id.org_id ≢ [] → scope_for id ≡ ok (org_scope id.org_id)
  unfolding scope_for
  scope_for-own id h = ground arith

  telemetry-readings :
      (r : Request) (s : Store) (id : Identity) (limit : ℤ)
      → id.org_id ≢ []
      → limit_of r.query_limit ≡ some limit
      → (telemetry (some id) r s).0
        ≡ readings_answer (readings s (org_scope id.org_id) r.path_id limit)
  unfolding telemetry scope_of with_scope
  telemetry-readings r s id limit has_org limited =
      rw (scope_for-own id has_org, scope_of, with_scope, limited, telemetry) refl

  lookup-mounted :
      lookup telemetry_pattern mounted ≡ some (guard sum256 tokens fleet_readers telemetry)
  unfolding lookup text_eq
  lookup-mounted = refl

  pub serve_http-readings :
      (select : List Bytes → Bytes → Option Bytes) (unrouted : Request → Response)
      (rt : Router Store) (r : Request) (s : Store) (id : Identity) (limit : ℤ)
      → handler format_float format_time sum256 conflicts tokens ≡ ok rt
      → IsAsking sum256 tokens select rt r id limit
      → id.org_id ≢ []
      → (serve_http select unrouted rt r s).0
        ≡ readings_answer (readings s (org_scope id.org_id) r.path_id limit)
  serve_http-readings select unrouted rt r s id limit built asking has_org =
      let found : lookup telemetry_pattern rt.mux
          ≡ some (guard sum256 tokens fleet_readers telemetry) =
        ap (lookup telemetry_pattern) (handler-mounted rt built) ∙ lookup-mounted in
      ap (λ o. o.0)
        (serve_http-granted sum256 tokens select rt unrouted telemetry_pattern fleet_readers
          telemetry r id s found asking.granted)
      ∙ telemetry-readings r s id limit has_org asking.limited
