-- ===== src/Store/Reads.antt =====
-- internal/store/store.go: the methods that read the store. A Go slice that is only appended to from
-- nil is nil exactly when it is empty, so a list stands for it; `Readings` has an `Option`, since it
-- returns nil and empty slices on different paths.
pub mod Fleet
pub mod Sorted
pub mod Order
use enisa_sbd_example.Common.{
  ℕ, zero, suc, ◌-◌, ◌||◌, ◌&&◌, not, List, [], ◌∷◌, ◌++◌, Option, none, some, Bytes, length,
  get_elem?, text_eq, text_lt, has_prefix, ltb, if◌then◌else◌, Map, lookup, ℤ, is_nonpositive,
  exceeds, magnitude, Result, ok, ◌>>=◌,
}
use enisa_sbd_example.Store.Model.{
  Device, Reading, AuditEntry, Store, Error, readings_of, max_readings_per_device,
}
use enisa_sbd_example.Store.Scope.{Scope, org_of}

-- `s.Device(id)`
unfoldable pub device : Store → Bytes → Option Device
device s id = lookup id s.devices

-- The loop over the map of devices.
unfoldable pub of_org : Bytes → Map Device → List Device
of_org org [] = []
of_org org ((_, d) ∷ m) = if text_eq d.org_id org then d ∷ of_org org m else of_org org m

-- `sort.Slice(out, ...)` by id.
unfoldable pub insert_by_id : Device → List Device → List Device
insert_by_id d [] = d ∷ []
insert_by_id d (e ∷ ds) = if text_lt e.id d.id then e ∷ insert_by_id d ds else d ∷ e ∷ ds

unfoldable pub sort_by_id : List Device → List Device
sort_by_id [] = []
sort_by_id (d ∷ ds) = insert_by_id d (sort_by_id ds)

unfoldable pub fleet : Store → Scope → Result Error (List Device)
fleet s sc = do org ← org_of sc; ok (sort_by_id (of_org org s.devices))

-- `if limit <= 0 || limit > maxReadingsPerDevice { limit = maxReadingsPerDevice }`
abbrev pub reading_limit : ℤ → ℕ
reading_limit limit =
    if is_nonpositive limit || exceeds limit max_readings_per_device
    then max_readings_per_device
    else magnitude limit

-- The loop from the last reading down, with `i` readings left.
unfoldable pub newest_first : ℕ → ℕ → List Reading → List Reading → List Reading
newest_first zero limit rs out = out
newest_first (suc i) limit rs out =
    if ltb (length out) limit
    then elim (get_elem? rs i) [ none ↦ out | some r ↦ newest_first i limit rs (out ++ r ∷ []) ]
    else out

unfoldable pub readings : Store → Scope → Bytes → ℤ → Result Error (Option (List Reading))
readings s sc device_id limit = do
  org ← org_of sc
  elim (lookup device_id s.devices) [
    | none ↦ ok none
    | some d ↦
        if not (text_eq d.org_id org)
        then ok none
        else let rs = readings_of s device_id in
          ok (some (newest_first (length rs) (reading_limit limit) rs []))
  ]

-- The loop from the last entry down, with `i` entries left.
unfoldable pub matching_entries :
    Bytes → Bytes → ℕ → List AuditEntry → List AuditEntry → List AuditEntry
matching_entries org prefix zero entries out = out
matching_entries org prefix (suc i) entries out = elim (get_elem? entries i) [
  | none ↦ out
  | some e ↦
      let out' =
        if text_eq e.org_id org && has_prefix e.action prefix then out ++ e ∷ [] else out in
      matching_entries org prefix i entries out'
]

unfoldable pub audit : Store → Scope → Bytes → Result Error (List AuditEntry)
audit s sc prefix = do org ← org_of sc; ok (matching_entries org prefix (length s.audit) s.audit [])
