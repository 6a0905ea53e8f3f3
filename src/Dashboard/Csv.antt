-- ===== src/Dashboard/Csv.antt =====
-- internal/dashboard/server.go: the rows of an export, and fields that a spreadsheet must not execute.
use enisa_sbd_example.Common.{
  ℕ, Bool, ◌||◌, List, [], ◌∷◌, ◌++◌, Bytes, codes, ◌==◌, if◌then◌else◌, pos, ok, err, or_nil,
}
use enisa_sbd_example.Store.Model.{Time, Float64, Device, Reading, Store}
use enisa_sbd_example.Store.Scope.{Scope}
use enisa_sbd_example.Store.Reads.{readings}

abbrev pub tab : ℕ
tab = 9

abbrev pub carriage_return : ℕ
carriage_return = 13

-- The first characters that a spreadsheet takes for the start of a formula.
abbrev pub starts_formula : ℕ → Bool
starts_formula c =
    c == b'=' || (c == b'+' || (c == b'-' || (c == b'@' || (c == tab || c == carriage_return))))

-- `csvSafe(field)`
unfoldable pub csv_safe : Bytes → Bytes
csv_safe [] = []
csv_safe (c ∷ field) = if starts_formula c then b'\'' ∷ c ∷ field else c ∷ field

abbrev pub export_readings_per_device : ℕ
export_readings_per_device = 500

abbrev pub header_row : List Bytes
header_row =
    codes "device_id" ∷ codes "model" ∷ codes "metric" ∷ codes "value" ∷ codes "received_at" ∷ []

-- Printing a float and a time is given.
module _ (format_float : Float64 → Bytes) (format_time : Time → Bytes) where
  unfoldable pub row_of : Device → Reading → List Bytes
  row_of d reading =
      csv_safe d.id
      ∷ csv_safe d.model
      ∷ csv_safe reading.metric
      ∷ format_float reading.value
      ∷ format_time reading.received_at
      ∷ []

  unfoldable pub rows_of : Device → List Reading → List (List Bytes)
  rows_of d [] = []
  rows_of d (reading ∷ rs) = row_of d reading ∷ rows_of d rs

  -- The loop over the devices; a failing read ends it.
  unfoldable pub export_rows : Store → Scope → List Device → List (List Bytes)
  export_rows s scope [] = []
  export_rows s scope (d ∷ ds) =
      let rest = export_rows s scope ds in
      elim (readings s scope d.id (pos export_readings_per_device)) [
        | err _ ↦ []
        | ok rs ↦ rows_of d (or_nil rs) ++ rest
      ]
