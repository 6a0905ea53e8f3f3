-- ===== src/Dashboard/Routes.antt =====
-- internal/dashboard/server.go and internal/authz/router.go: the Dashboard API behind its router.
use enisa_sbd_example.Common.{
  ◌≡◌, inl, inr, subst, Bool, List, Option, none, some, Option-cases, Bytes, codes, lookup,
  Bool-cases, four_steps, ok,
}
use enisa_sbd_example.Common.Maps.Keys.{AllEntries-lookup}
use enisa_sbd_example.Authn.Identity.{Identity, Role}
use enisa_sbd_example.Authn.Tokens.{Tokens, bearer_token, find_token}
use enisa_sbd_example.Store.Model.{Time, Float64, Store}
use enisa_sbd_example.Store.Scope.{org_scope}
use enisa_sbd_example.Store.Isolation.{SameView}
use enisa_sbd_example.Http.{Request, Response, Handler}
use enisa_sbd_example.Authz.Router.{
  Router, new_router, guard, handle, handle_public, serve_http, patterns, contains_role,
}
use enisa_sbd_example.Authz.Router.Registered.{
  IsRegistered, new_router-IsRegistered, handle-IsRegistered, handle_public-IsRegistered,
}
use enisa_sbd_example.Dashboard.Handlers.{fleet, telemetry, export, health, handler, fleet_readers}
use enisa_sbd_example.Dashboard.Isolated.{
  IsScopedRead, fleet-IsScopedRead, telemetry-IsScopedRead, export-IsScopedRead,
  health-IsScopedRead,
}

-- The two stores look the same to the organisation of whoever the request's token belongs to.
abbrev pub LooksSameTo : (Bytes → Bytes) → Option Tokens → Request → Store → Store → Type 0
LooksSameTo sum256 tokens r s t =
    (token : Bytes) (id : Identity)
    → bearer_token r.authorization ≡ some token
    → find_token sum256 tokens token ≡ some id
    → SameView s t (org_scope id.org_id)

module _ (sum256 : Bytes → Bytes) (tokens : Option Tokens) where
  -- A handler of the mux, which runs with no identity in the context.
  abbrev IsGuardedRead : Bytes → Handler Store → Type 0
  IsGuardedRead p h =
      (r : Request) (s t : Store)
      → LooksSameTo sum256 tokens r s t
      → ((h none r s).0 ≡ (h none r t).0) × ((h none r s).1 ≡ s)

  guard-IsGuardedRead :
      (p : Bytes) (allow : List Role) (h : Handler Store)
      → IsScopedRead h
      → IsGuardedRead p (guard sum256 tokens allow h)
  unfolding guard
  guard-IsGuardedRead p allow h read r s t same =
      elim (Option-cases (bearer_token r.authorization)) [
        | inl absent ↦ (rw (absent, guard), rw (absent, guard))
        | inr (token, presented) ↦ elim (Option-cases (find_token sum256 tokens token)) [
          | inl unknown ↦ (rw (presented, unknown, guard), rw (presented, unknown, guard))
          | inr (id, found) ↦ elim (Bool-cases (contains_role allow id.role)) [
            | inr low ↦ (rw (presented, found, low, guard), rw (presented, found, low, guard))
            | inl granted ↦
                let (answer, kept) = read (some id) r s t (λ i e.
                  subst (λ (j : Identity). SameView s t (org_scope j.org_id)) (some_injective e)
                    (same token id presented found)) in
                (
                  rw (presented, found, granted, guard) answer,
                  rw (presented, found, granted, guard) kept,
                )
          ]
        ]
      ]
    where
      some_injective : {i j : Identity} → some i ≡ some j → i ≡ j
      some_injective e = cc

  public-IsGuardedRead : (p : Bytes) (h : Handler Store) → IsScopedRead h → IsGuardedRead p h
  public-IsGuardedRead p h read r s t same = read none r s t (λ id e. cc)

  module _ (format_float : Float64 → Bytes) (format_time : Time → Bytes)
      (conflicts : List Bytes → Bytes → Bool) where
    handler-IsRegistered :
        (rt : Router Store)
        → handler format_float format_time sum256 conflicts tokens ≡ ok rt
        → IsRegistered sum256 conflicts tokens IsGuardedRead rt
    unfolding handler
    handler-IsRegistered rt h =
        let fleet_path = codes "GET /api/fleet" in
        let export_path = codes "GET /api/fleet/export" in
        let telemetry_path = codes "GET /api/devices/{id}/telemetry" in
        let exports = export format_float format_time in
        let (r₁, r₂, r₃, e₁, e₂, e₃, e₄) =
          four_steps (handle conflicts sum256 (new_router tokens) fleet_path fleet_readers fleet)
            (λ (r : Router Store). handle conflicts sum256 r export_path fleet_readers exports)
            (λ (r : Router Store). handle conflicts sum256 r telemetry_path fleet_readers telemetry)
            (λ (r : Router Store). handle_public conflicts r (codes "GET /healthz") health) h in
        let g₁ =
          handle-IsRegistered sum256 conflicts tokens IsGuardedRead (new_router tokens) r₁
            fleet_path fleet_readers fleet e₁
            (new_router-IsRegistered sum256 conflicts tokens IsGuardedRead)
            (guard-IsGuardedRead fleet_path fleet_readers fleet fleet-IsScopedRead) in
        let g₂ =
          handle-IsRegistered sum256 conflicts tokens IsGuardedRead r₁ r₂ export_path fleet_readers
            exports e₂ g₁
            (guard-IsGuardedRead export_path fleet_readers exports
              (export-IsScopedRead format_float format_time)) in
        let g₃ =
          handle-IsRegistered sum256 conflicts tokens IsGuardedRead r₂ r₃ telemetry_path
            fleet_readers telemetry e₃ g₂
            (guard-IsGuardedRead telemetry_path fleet_readers telemetry telemetry-IsScopedRead) in
        handle_public-IsRegistered sum256 conflicts tokens IsGuardedRead r₃ rt
          (codes "GET /healthz") health e₄ g₃
          (public-IsGuardedRead (codes "GET /healthz") health health-IsScopedRead)

    -- The Dashboard API never changes the store, and what it answers to a request depends on the store
    -- only through what the organisation sees to which the request's token belongs.
    pub serve_http-LooksSame :
        (select : List Bytes → Bytes → Option Bytes) (unrouted : Request → Response)
        (rt : Router Store) (r : Request) (s t : Store)
        → handler format_float format_time sum256 conflicts tokens ≡ ok rt
        → LooksSameTo sum256 tokens r s t
        → ((serve_http select unrouted rt r s).0 ≡ (serve_http select unrouted rt r t).0)
          × ((serve_http select unrouted rt r s).1 ≡ s)
    unfolding serve_http
    serve_http-LooksSame select unrouted rt r s t built same =
        elim (Option-cases (select (patterns rt.mux) r.target)) [
          | inl nowhere ↦ (rw (nowhere, serve_http), rw (nowhere, serve_http))
          | inr (pattern, selected) ↦ elim (Option-cases (lookup pattern rt.mux)) [
            | inl missing ↦ (rw (selected, missing, serve_http), rw (selected, missing, serve_http))
            | inr (h, found) ↦
                let (answer, kept) =
                  AllEntries-lookup IsGuardedRead pattern h rt.mux
                    (handler-IsRegistered rt built).entries found r s t same in
                (rw (selected, found, serve_http) answer, rw (selected, found, serve_http) kept)
          ]
        ]
