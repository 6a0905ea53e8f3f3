-- ===== src/Ingest/Sample.antt =====
-- internal/ingest/server.go: the telemetry samples that devices send.
pub mod Accepted
use enisa_sbd_example.Common.{
  ℕ, ◌/◌, ◌%◌, ◌^◌, Bool, ◌||◌, [], Bytes, length, ltb, ◌==◌, Option, none, some, pos, Result, ok,
  err, ◌>>=◌, ◌>>◌, refuse_if,
}
use enisa_sbd_example.Store.Model.{Time, Float64, Reading, Store}
use enisa_sbd_example.Store.Model
use enisa_sbd_example.Store.Writes.{record_reading}
use enisa_sbd_example.Ingest.Conn.{
  SessionError, undecodable_sample, unusable_metric, non_finite_value, unstored,
  max_metric_name_len,
}

pub record Sample : Type 0 where
  pub metric : Bytes
  pub value : Float64
  pub at : Time

-- `math.IsNaN(v) || math.IsInf(v, 0)`: the eleven bits of the exponent are all set.
abbrev pub is_non_finite : Float64 → Bool
is_non_finite v = v / 2 ^ 52 % 2048 == 2047

abbrev pub reading_of : Sample → Reading
reading_of smp = record {
  device_id = [];
  metric = smp.metric;
  value = smp.value;
  at = smp.at;
  received_at = pos 0;
}

abbrev pub or_unstored : Result Model.Error Store → Result SessionError Store
or_unstored (ok s) = ok s
or_unstored (err e) = err (unstored e)

-- The switch on a decoded sample.
unfoldable pub check_sample : Sample → Result SessionError (Unit {0})
check_sample smp = do
  refuse_if (length smp.metric == 0 || ltb max_metric_name_len (length smp.metric)) unusable_metric
  refuse_if (is_non_finite smp.value) non_finite_value

-- `s.record(deviceID, payload)`; decoding the JSON is given, `none` is its failure.
unfoldable pub record_sample :
    (Bytes → Option Sample) → Store → Time → Bytes → Bytes → Result SessionError Store
unfolding check_sample
record_sample decode s now device_id payload = elim (decode payload) [
  | none ↦ err undecodable_sample
  | some smp ↦ do check_sample smp; or_unstored (record_reading s now device_id (reading_of smp))
]
