-- ===== src/Dashboard/Isolated.antt =====
-- internal/dashboard/server.go: a response depends only on what the caller's organisation sees.
use enisa_sbd_example.Common.{
  ◌≡◌, ◌⊎◌, inl, inr, refl, ap, ◌∙◌, List, [], ◌∷◌, Option, none, some, Option-cases, Bytes, codes,
  pos, Result-cases, ok, arith,
}
use enisa_sbd_example.Authn.Identity.{Identity}
use enisa_sbd_example.Store.Model.{Time, Float64, Store, Device}
use enisa_sbd_example.Store.Scope.{Scope, org_scope, scope_for}
use enisa_sbd_example.Store.Reads.{readings}
use enisa_sbd_example.Store.Reads
use enisa_sbd_example.Store.Isolation.{SameView}
use enisa_sbd_example.Http.{Request, Response, Handler, error_body, write_json, status_forbidden}
use enisa_sbd_example.Dashboard.Csv.{export_rows, export_readings_per_device}
use enisa_sbd_example.Dashboard.Handlers.{
  unscoped, scoped, scope_of, fleet, telemetry, export, health, limit_of, with_scope, fleet_answer,
  readings_answer,
}

-- The two stores look the same to the caller's organisation.
abbrev pub LooksSame : Option Identity → Store → Store → Type 0
LooksSame ctx s t = (id : Identity) → ctx ≡ some id → SameView s t (org_scope id.org_id)

-- The handler answers the same in stores that look the same, and changes neither.
abbrev pub IsScopedRead : Handler Store → Type 0
IsScopedRead h =
    (ctx : Option Identity) (r : Request) (s t : Store)
    → LooksSame ctx s t
    → ((h ctx r s).0 ≡ (h ctx r t).0) × ((h ctx r s).1 ≡ s)

scope_of-cases :
    (ctx : Option Identity)
    → ((res : Response) × (scope_of ctx ≡ unscoped res))
      ⊎ ((id : Identity) × (ctx ≡ some id) × (scope_of ctx ≡ scoped (org_scope id.org_id)))
unfolding scope_of
scope_of-cases none = inl (_, refl)
scope_of-cases (some id) = elim (Result-cases (scope_for id)) [
  | inr (e, refused) ↦
      inl (write_json status_forbidden (error_body (codes "Forbidden")), rw (refused, scope_of))
  | inl (sc, granted) ↦
      inr (id, refl, rw (granted, scope_of) (ap scoped (scope_for-org_scope id sc granted)))
]
  where
    scope_for-org_scope :
        (id : Identity) (sc : Scope) → scope_for id ≡ ok sc → sc ≡ org_scope id.org_id
    scope_for-org_scope id sc e = unfold scope_for in ground arith

with_scope-same :
    (ctx : Option Identity) (s t : Store) (f g : Scope → Response)
    → ((id : Identity) → ctx ≡ some id → f (org_scope id.org_id) ≡ g (org_scope id.org_id))
    → ((with_scope ctx s f).0 ≡ (with_scope ctx t g).0) × ((with_scope ctx s f).1 ≡ s)
unfolding with_scope
with_scope-same ctx s t f g same = elim (scope_of-cases ctx) [
  | inl (res, refused) ↦ (rw (refused, with_scope), rw (refused, with_scope))
  | inr (id, caller_is, is_scoped) ↦
      (rw (is_scoped, with_scope) (same id caller_is), rw (is_scoped, with_scope))
]

pub health-IsScopedRead : IsScopedRead health
unfolding health
health-IsScopedRead ctx r s t same = (refl, refl)

pub fleet-IsScopedRead : IsScopedRead fleet
unfolding fleet
fleet-IsScopedRead ctx r s t same =
    with_scope-same ctx s t _ _ λ id caller_is. ap fleet_answer (same id caller_is).same_fleet

pub telemetry-IsScopedRead : IsScopedRead telemetry
unfolding telemetry
telemetry-IsScopedRead ctx r s t same = with_scope-same ctx s t _ _ λ id caller_is.
    elim (Option-cases (limit_of r.query_limit)) [
      | inl bad ↦ rw bad
      | inr (limit, asked) ↦
          rw asked (ap readings_answer ((same id caller_is).same_readings r.path_id limit))
    ]

module _ (format_float : Float64 → Bytes) (format_time : Time → Bytes) where
  export_rows-same :
      (s t : Store) (sc : Scope) (ds : List Device)
      → SameView s t sc
      → export_rows format_float format_time s sc ds ≡ export_rows format_float format_time t sc ds
  unfolding export_rows
  export_rows-same s t sc [] view = refl
  export_rows-same s t sc (d ∷ ds) view =
      let same_rest = export_rows-same s t sc ds view in
      let same_here = view.same_readings d.id (pos export_readings_per_device) in ground arith

  pub export-IsScopedRead : IsScopedRead (export format_float format_time)
  unfolding export
  export-IsScopedRead ctx r s t same = with_scope-same ctx s t _ _ λ id caller_is.
      let view = same id caller_is in
      let sc = org_scope id.org_id in
      elim (Result-cases (Reads.fleet t sc)) [
        | inr (e, failed) ↦ rw (view.same_fleet ∙ failed, failed)
        | inl (ds, listed) ↦
            rw (view.same_fleet ∙ listed, listed) (rw (export_rows-same s t sc ds view))
      ]
