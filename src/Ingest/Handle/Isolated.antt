-- ===== src/Ingest/Handle/Isolated.antt =====
-- internal/ingest and internal/store: what a device sends is not seen by other organisations.
use enisa_sbd_example.Common.{
  ℕ, ◌≡◌, ◌≢◌, inl, inr, refl, sym, ap, subst, ◌∙◌, List, Option, some, Bytes, text_eq, text_eq_iff,
  Bool-cases, lookup, lookup-insert, ok,
}
use enisa_sbd_example.Mqtt.Wire.{Stream}
use enisa_sbd_example.Store.Model.{Time, Store}
use enisa_sbd_example.Store.Scope.{Scope, org_scope}
use enisa_sbd_example.Store.Reads.{device}
use enisa_sbd_example.Store.Invariant.{record_reading-ok, records}
use enisa_sbd_example.Store.Isolation.{SameView, IsOther}
use enisa_sbd_example.Store.Isolation.Steps.{Step-SameView, SameView-trans}
use enisa_sbd_example.Ingest.Conn.{SessionError, Conn, device_id_from}
use enisa_sbd_example.Ingest.Sample.{Sample, reading_of}
use enisa_sbd_example.Ingest.Sample.Accepted.{IsRecorded}
use enisa_sbd_example.Ingest.Session.Trace.{
  Served, idle, ponged, stored, acknowledged, Ended, left, no_deadline, unread, rejected,
  unanswered, unacknowledged, Finished, finished, SessionPath, turned_away, welcomed,
}
use enisa_sbd_example.Ingest.Handle.{Incoming, Ending, handle}
use enisa_sbd_example.Ingest.Handle.Paths.{handle-SessionPath}

pub SameView-refl : (s : Store) (sc : Scope) → SameView s s sc
SameView-refl s sc = record {
  same_fleet = refl;
  same_readings = λ _ _. refl;
  same_audit = λ _. refl;
}

module _ (decode : Bytes → Option Sample) (device_id org : Bytes) where
  -- Recording leaves every device with its organisation.
  pub IsRecorded-IsOther :
      (now : Time) (payload : Bytes) (s t : Store) (k : Bytes)
      → IsRecorded decode now device_id payload s t
      → IsOther org (lookup k s.devices)
      → IsOther org (lookup k t.devices)
  IsRecorded-IsOther now payload s t k r other =
      let (d, found, e) = record_reading-ok s t now device_id (reading_of r.smp) r.recorded in
      elim (Bool-cases (text_eq device_id k)) [
        | inr differ ↦
            let kept : lookup k t.devices ≡ lookup k s.devices = rw (e, lookup-insert, differ) in
            subst (IsOther org) (sym kept) other
        | inl same ↦
            let kept : lookup k t.devices ≡ some (record d { last_seen = now }) =
              rw (e, lookup-insert, same) in
            let own : lookup k s.devices ≡ some d =
              ap (λ j. lookup j s.devices) (sym ((text_eq_iff device_id k).0 same)) ∙ found in
            let foreign : d.org_id ≢ org = subst (IsOther org) own other in
            subst (IsOther org) (sym kept) foreign
      ]

  pub IsRecorded-SameView :
      (now : Time) (payload : Bytes) (s t : Store)
      → IsRecorded decode now device_id payload s t
      → IsOther org (lookup device_id s.devices)
      → SameView s t (org_scope org)
  IsRecorded-SameView now payload s t r other =
      Step-SameView org (records now device_id (reading_of r.smp) r.recorded) other

  pub Served-IsOther :
      {s : Store} {i : Stream} {w : List Bytes} {t : Store} {j : Stream} {v : List Bytes}
      (k : Bytes)
      → Served decode device_id s i w t j v
      → IsOther org (lookup k s.devices)
      → IsOther org (lookup k t.devices)
  Served-IsOther k idle other = other
  Served-IsOther k (ponged p b a y e served) other = Served-IsOther k served other
  Served-IsOther k (stored {t} {u} now m r q served) other =
      IsRecorded-IsOther now m.payload t u k r.sampled (Served-IsOther k served other)
  Served-IsOther k (acknowledged {t} {u} now m b r q e served) other =
      IsRecorded-IsOther now m.payload t u k r.sampled (Served-IsOther k served other)

  pub Served-SameView :
      {s : Store} {i : Stream} {w : List Bytes} {t : Store} {j : Stream} {v : List Bytes}
      → Served decode device_id s i w t j v
      → IsOther org (lookup device_id s.devices)
      → SameView s t (org_scope org)
  Served-SameView {s} idle other = SameView-refl s (org_scope org)
  Served-SameView (ponged p b a y e served) other = Served-SameView served other
  Served-SameView (stored {t} {u} now m r q served) other =
      SameView-trans (Served-SameView served other)
        (IsRecorded-SameView now m.payload t u r.sampled (Served-IsOther device_id served other))
  Served-SameView (acknowledged {t} {u} now m b r q e served) other =
      SameView-trans (Served-SameView served other)
        (IsRecorded-SameView now m.payload t u r.sampled (Served-IsOther device_id served other))

  Ended-IsOther :
      {s : Store} {i : Stream} {w : List Bytes} {e : Option SessionError} {t : Store}
      {v : List Bytes} (k : Bytes)
      → Ended decode device_id s i w e t v
      → IsOther org (lookup k s.devices)
      → IsOther org (lookup k t.devices)
  Ended-IsOther k (left p j a y) other = other
  Ended-IsOther k (no_deadline e) other = other
  Ended-IsOther k (unread e f) other = other
  Ended-IsOther k (rejected p j e a r) other = other
  Ended-IsOther k (unanswered p j e a y) other = other
  Ended-IsOther {s} k (unacknowledged {t} j now m e r q) other =
      IsRecorded-IsOther now m.payload s t k r.sampled other

  Ended-SameView :
      {s : Store} {i : Stream} {w : List Bytes} {e : Option SessionError} {t : Store}
      {v : List Bytes}
      → Ended decode device_id s i w e t v
      → IsOther org (lookup device_id s.devices)
      → SameView s t (org_scope org)
  Ended-SameView {s} (left p j a y) other = SameView-refl s (org_scope org)
  Ended-SameView {s} (no_deadline e) other = SameView-refl s (org_scope org)
  Ended-SameView {s} (unread e f) other = SameView-refl s (org_scope org)
  Ended-SameView {s} (rejected p j e a r) other = SameView-refl s (org_scope org)
  Ended-SameView {s} (unanswered p j e a y) other = SameView-refl s (org_scope org)
  Ended-SameView {s} (unacknowledged {t} j now m e r q) other =
      IsRecorded-SameView now m.payload s t r.sampled other

  pub Finished-IsOther :
      {s : Store} {i : Stream} {w : List Bytes} {e : Option SessionError} {t : Store}
      {v : List Bytes} (k : Bytes)
      → Finished decode device_id s i w e t v
      → IsOther org (lookup k s.devices)
      → IsOther org (lookup k t.devices)
  Finished-IsOther k (finished served last) other =
      Ended-IsOther k last (Served-IsOther k served other)

  pub Finished-SameView :
      {s : Store} {i : Stream} {w : List Bytes} {e : Option SessionError} {t : Store}
      {v : List Bytes}
      → Finished decode device_id s i w e t v
      → IsOther org (lookup device_id s.devices)
      → SameView s t (org_scope org)
  Finished-SameView (finished served last) other =
      SameView-trans (Served-SameView served other)
        (Ended-SameView last (Served-IsOther device_id served other))

-- Whatever a connection sends, an organisation sees what it saw before, unless the certificate that
-- was verified names a device of that organisation.
handle-SameView :
    (decode : Bytes → Option Sample) (fuel : ℕ) (clock : ℕ → Time) (s : Store) (inc : Incoming)
    (out : Ending × Store × Conn) (org : Bytes)
    → handle decode fuel clock s inc ≡ some out
    → ((device_id : Bytes)
        → device_id_from inc.common_names ≡ ok device_id
        → IsOther org (device s device_id))
    → SameView s out.1 (org_scope org)
unfolding device
handle-SameView decode fuel clock s inc out org h foreign =
    elim (handle-SessionPath decode fuel clock s inc out h) [
      | inl (same, _) ↦
          subst (λ t. SameView s t (org_scope org)) (sym same) (SameView-refl s (org_scope org))
      | inr (id, d, e, _, _, named, _, path) ↦ of_path id (foreign id named) e path
    ]
  where
    of_path :
        (id : Bytes)
        → IsOther org (lookup id s.devices)
        → (e : Option SessionError) → SessionPath decode id s inc.conn (e, out.1, out.2)
        → SameView s out.1 (org_scope org)
    of_path id other e (turned_away x fails same w) =
        subst (λ t. SameView s t (org_scope org)) (sym same) (SameView-refl s (org_scope org))
    of_path id other e (welcomed first rest g b a t d w done) =
        Finished-SameView decode id org done other
