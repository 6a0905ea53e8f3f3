-- ===== src/Dashboard/Export.antt =====
-- internal/dashboard/server.go: what an export holds.
use mathlib.Core.List.{Memᴰ, reverse}
use enisa_sbd_example.Common.{
  ℕ, ◌≡◌, ◌≢◌, inl, inr, refl, ap, ◌∙◌, false, Bool-cases, List, [], ◌∷◌, ◌++◌, Option, some, Bytes,
  codes, take, lookup, or_nil, All, All-append, text_eq_iff, Result-cases, pos, ok, arith,
}
use enisa_sbd_example.Authn.Identity.{Identity}
use enisa_sbd_example.Store.Model.{Time, Float64, Device, Reading, Store, readings_of}
use enisa_sbd_example.Store.Scope.{Scope, org_scope, org_of, scope_for}
use enisa_sbd_example.Store.Invariant.{IsValid}
use enisa_sbd_example.Store.Reads.{readings, reading_limit}
use enisa_sbd_example.Store.Reads.Order.{visible_readings, readings-eq}
use enisa_sbd_example.Store.Reads.Fleet.{IsFleet, fleet-IsFleet}
use enisa_sbd_example.Http.{Request, Response, csv_body, status_ok}
use enisa_sbd_example.Dashboard.Csv.{
  starts_formula, csv_safe, header_row, row_of, rows_of, export_rows, export_readings_per_device,
}
use enisa_sbd_example.Dashboard.Handlers.{
  scope_of, with_scope, export, export_headers, export_answer,
}

-- The characters that make a spreadsheet take a field for a formula: the four signs that formulas
-- begin with, the tab and the carriage return.
abbrev pub formula_starts : Bytes
formula_starts = codes "=+-@" ++ 0x09 ∷ 0x0D ∷ []

-- A spreadsheet does not take the field for a formula.
abbrev pub IsInert : Bytes → Type 0
IsInert [] = Unit
IsInert (c ∷ _) = ¬ Memᴰ c formula_starts

plain-outside : (c : ℕ) → starts_formula c ≡ false → ¬ Memᴰ c formula_starts
plain-outside c h (Memᴰ.head e) = ground arith
plain-outside c h (Memᴰ.tail (Memᴰ.head e)) = ground arith
plain-outside c h (Memᴰ.tail (Memᴰ.tail (Memᴰ.head e))) = ground arith
plain-outside c h (Memᴰ.tail (Memᴰ.tail (Memᴰ.tail (Memᴰ.head e)))) = ground arith
plain-outside c h (Memᴰ.tail (Memᴰ.tail (Memᴰ.tail (Memᴰ.tail (Memᴰ.head e))))) = ground arith
plain-outside c h (Memᴰ.tail (Memᴰ.tail (Memᴰ.tail (Memᴰ.tail (Memᴰ.tail (Memᴰ.head e)))))) =
    ground arith
plain-outside c h (Memᴰ.tail (Memᴰ.tail (Memᴰ.tail (Memᴰ.tail (Memᴰ.tail (Memᴰ.tail m)))))) =
    elim m [ ]

-- The first three columns: the device's id, its model and the metric.
abbrev pub HasInertText : List Bytes → Type 0
HasInertText (device_id ∷ model ∷ metric ∷ _) = IsInert device_id × IsInert model × IsInert metric
HasInertText _ = ⊥

csv_safe-IsInert : (field : Bytes) → IsInert (csv_safe field)
unfolding csv_safe
csv_safe-IsInert [] = tt
csv_safe-IsInert (c ∷ field) = elim (Bool-cases (starts_formula c)) [
  | inl formula ↦ rw formula (plain-outside b'\'' refl)
  | inr plain ↦ rw plain (plain-outside c plain)
]

org_of-org_scope : (org : Bytes) → org ≢ [] → org_of (org_scope org) ≡ ok org
unfolding org_of
org_of-org_scope org h = ground arith

with_scope_known :
    (id : Identity) (s : Store) (answer : Scope → Response)
    → id.org_id ≢ []
    → with_scope (some id) s answer ≡ (answer (org_scope id.org_id), s)
unfolding with_scope scope_of scope_for
with_scope_known id s answer h = ground arith

module _ (format_float : Float64 → Bytes) (format_time : Time → Bytes) where
  -- The rows of the newest readings of each device, at most 500 of each.
  abbrev pub all_rows : Store → List Device → List (List Bytes)
  all_rows s [] = []
  all_rows s (d ∷ ds) =
      rows_of format_float format_time d
        (take export_readings_per_device (reverse (readings_of s d.id)))
      ++ all_rows s ds

  rows_of-HasInertText :
      (d : Device) (rs : List Reading) → All HasInertText (rows_of format_float format_time d rs)
  unfolding rows_of row_of
  rows_of-HasInertText d [] = tt
  rows_of-HasInertText d (r ∷ rs) = (
    (csv_safe-IsInert d.id, csv_safe-IsInert d.model, csv_safe-IsInert r.metric),
    rows_of-HasInertText d rs,
  )

  rows-HasInertText :
      (s : Store) (sc : Scope) (ds : List Device)
      → All HasInertText (export_rows format_float format_time s sc ds)
  unfolding export_rows
  rows-HasInertText s sc [] = tt
  rows-HasInertText s sc (d ∷ ds) =
      elim (Result-cases (readings s sc d.id (pos export_readings_per_device))) [
        | inr (e, failed) ↦ rw (failed, export_rows) tt
        | inl (rs, listed) ↦
            rw (listed, export_rows)
              (All-append HasInertText (rows_of format_float format_time d (or_nil rs))
                (export_rows format_float format_time s sc ds) (rows_of-HasInertText d (or_nil rs))
                (rows-HasInertText s sc ds))
      ]

  -- Whatever devices send, no text field of any row of an export, the header's included, begins with
  -- one of the characters that a spreadsheet takes for the start of a formula: =, +, -, @, a tab or a
  -- carriage return.
  pub export_rows-HasInertText :
      (s : Store) (sc : Scope) (ds : List Device)
      → All HasInertText (header_row ∷ export_rows format_float format_time s sc ds)
  export_rows-HasInertText s sc ds = (
    (plain-outside b'd' refl, plain-outside b'm' refl, plain-outside b'm' refl),
    rows-HasInertText s sc ds,
  )

  readings-own :
      (s : Store) (org : Bytes) (d : Device) (n : ℕ)
      → org ≢ []
      → d.org_id ≡ org
      → lookup d.id s.devices ≡ some d
      → readings s (org_scope org) d.id (pos n)
        ≡ ok (some (take (reading_limit (pos n)) (reverse (readings_of s d.id))))
  unfolding org_of
  readings-own s org d n h own found =
      readings-eq s (org_scope org) org d.id (pos n) (ground arith)
      ∙ ap ok
          (visible_own (lookup d.id s.devices) (reading_limit (pos n)) (readings_of s d.id) found)
    where
      visible_own :
          (o : Option Device) (k : ℕ) (rs : List Reading)
          → o ≡ some d
          → visible_readings org o k rs ≡ some (take k (reverse rs))
      visible_own o k rs e = ground (arith, text_eq_iff d.org_id org)

  export_rows-all_rows :
      (s : Store) (org : Bytes) (ds : List Device)
      → org ≢ []
      → All (λ d. (d.org_id ≡ org) × (lookup d.id s.devices ≡ some d)) ds
      → export_rows format_float format_time s (org_scope org) ds ≡ all_rows s ds
  unfolding export_rows
  export_rows-all_rows s org [] h _ = refl
  export_rows-all_rows s org (d ∷ ds) h ((own, found), rest) =
      let same_rest = export_rows-all_rows s org ds h rest in
      let listed = readings-own s org d export_readings_per_device h own found in
      rw (listed, export_rows)
        (ap
          (λ rows.
            rows_of format_float format_time d
              (take export_readings_per_device (reverse (readings_of s d.id)))
            ++ rows)
          same_rest)

  from_members :
      (P : Device → Type 0) (ds : List Device) → ((d : Device) → Memᴰ d ds → P d) → All P ds
  from_members P [] f = tt
  from_members P (d ∷ ds) f = (f d (Memᴰ.head refl), from_members P ds λ e m. f e (Memᴰ.tail m))

  -- In a valid store, the export of a caller with an organisation is the CSV file of the organisation's
  -- fleet: the header, and then, for its devices in ascending order of their ids, the rows of their
  -- newest readings, newest first and at most 500 of each.
  pub export-eq :
      (s : Store) (id : Identity) (r : Request)
      → IsValid s
      → id.org_id ≢ []
      → (ds : List Device) × IsFleet s id.org_id ds
        × (export format_float format_time (some id) r s ≡ (
          record {
            status = status_ok;
            headers = export_headers;
            body = csv_body (header_row ∷ all_rows s ds);
          },
          s,
        ))
  unfolding export
  export-eq s id r v h =
      let (ds, listed, is_fleet) =
        fleet-IsFleet s (org_scope id.org_id) id.org_id v (org_of-org_scope id.org_id h) in
      let rows = export_rows-all_rows s id.org_id ds h (
        from_members (λ d. (d.org_id ≡ id.org_id) × (lookup d.id s.devices ≡ some d)) ds
          is_fleet.only_own) in
      (
        ds,
        is_fleet,
        with_scope_known id s _ h
            ∙ ap (λ (res : Response). (res, s))
                (ap (export_answer format_float format_time s (org_scope id.org_id)) listed
                  ∙ ap
                      (λ (table : List (List Bytes)). record {
                        status = status_ok;
                        headers = export_headers;
                        body = csv_body (header_row ∷ table);
                      })
                      rows),
      )
