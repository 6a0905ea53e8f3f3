-- ===== src/Ingest/Sample/Accepted.antt =====
-- internal/ingest/server.go: which samples are recorded.
use enisa_sbd_example.Common.{
  ◌≡◌, ◌≢◌, ◌↔◌, ◌≤◌, inl, inr, false, [], Bytes, length, Option, some, Option-cases, Result-cases,
  ok, arith,
}
use enisa_sbd_example.Store.Model.{Time, Store}
use enisa_sbd_example.Store.Writes.{record_reading}
use enisa_sbd_example.Ingest.Conn.{max_metric_name_len}
use enisa_sbd_example.Ingest.Sample.{Sample, is_non_finite, reading_of, check_sample, record_sample}

-- The payload is a sample with a metric name of 1 to 64 bytes and a finite value, which the store
-- takes for the device.
pub record IsRecorded (decode : Bytes → Option Sample) (now : Time) (device_id payload : Bytes)
    (s s' : Store) : Type 0 where
  pub smp : Sample
  pub decoded : decode payload ≡ some smp
  pub named : smp.metric ≢ []
  pub name_bound : length smp.metric ≤ max_metric_name_len
  pub finite : is_non_finite smp.value ≡ false
  pub recorded : record_reading s now device_id (reading_of smp) ≡ ok s'

check_sample_iff :
    (smp : Sample)
    → (check_sample smp ≡ ok tt) ↔ (
        (smp.metric ≢ [])
        × (length smp.metric ≤ max_metric_name_len)
        × (is_non_finite smp.value ≡ false))
unfolding check_sample
check_sample_iff smp = ground arith

-- A payload is recorded exactly where it decodes to a sample with a metric name of 1 to 64 bytes and
-- a finite value, and the store takes the reading for the device; the store is then the one that
-- `RecordReading` leaves.
pub record_sample_iff :
    (decode : Bytes → Option Sample) (s s' : Store) (now : Time) (device_id payload : Bytes)
    → (record_sample decode s now device_id payload ≡ ok s')
      ↔ IsRecorded decode now device_id payload s s'
unfolding record_sample
record_sample_iff decode s s' now device_id payload = (to, from)
  where
    to :
        record_sample decode s now device_id payload ≡ ok s'
        → IsRecorded decode now device_id payload s s'
    to h = elim (Option-cases (decode payload)) [
      | inl bad ↦ ground arith
      | inr (smp, good) ↦ elim (Result-cases (check_sample smp)) [
        | inr (e, bad) ↦ ground arith
        | inl (tt, fine) ↦ elim (Result-cases (record_reading s now device_id (reading_of smp))) [
          | inr (e, bad) ↦ ground arith
          | inl (s2, stored) ↦
              let (named, bound, finite) = (check_sample_iff smp).0 fine in
              record {
                smp = smp;
                decoded = good;
                named = named;
                name_bound = bound;
                finite = finite;
                recorded = ground arith;
              }
        ]
      ]
    ]

    from :
        IsRecorded decode now device_id payload s s'
        → record_sample decode s now device_id payload ≡ ok s'
    from r = rw (
      r.decoded,
      (check_sample_iff r.smp).1 (r.named, r.name_bound, r.finite),
      r.recorded,
      record_sample,
    )
