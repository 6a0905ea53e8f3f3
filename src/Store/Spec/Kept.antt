-- ===== src/Store/Spec/Kept.antt =====
-- internal/store: one call of a store that holds the rows of the specification.
use enisa_sbd_example.Common.{
  ℕ, ◌≡◌, ◌≢◌, ◌⊎◌, inl, inr, refl, sym, ap, ◌∙◌, List, [], ◌∷◌, ◌++◌, Option, none, some, Bytes,
  Option-cases, lookup, insert, keep, ok, err, ℤ, arith,
}
use enisa_sbd_example.Store.Model.{
  Time, Device, Reading, AuditEntry, Store, readings_of, unknown_device, invalid_device,
}
use enisa_sbd_example.Store.Scope.{Scope, nil_scope, org_scope, org_of}
use enisa_sbd_example.Store.Writes.{enrol, record_reading, append_audit, stamp_entry}
use enisa_sbd_example.Store.Writes.Seen.{org_of-eq_ok}
use enisa_sbd_example.Store.Invariant.{record_reading-known}
use enisa_sbd_example.Store.Reads.{device, fleet, readings, reading_limit, audit}
use enisa_sbd_example.Store.Reads.Fleet.{IsFleet, fleet-IsFleet}
use enisa_sbd_example.Store.Reads.Order.{visible_readings, readings-eq, is_shown, audit-eq}
use enisa_sbd_example.Store.Calls.{
  Call, enrolling, recording, logging, asking_device, asking_fleet, asking_readings, asking_audit,
  done, refused, one_device, devices, rows, entries, call, answer_of,
}
use enisa_sbd_example.Store.Spec.Held.{
  Holds, take-reverse, enrolled-Holds, recorded-Holds, logged-Holds,
}
use enisa_sbd_example.Store.Spec.{
  Rows, enrolled, complete, found, rows_after, IsFleetOf, own_rows, Promised,
}

-- What a call answers is promised, and the store that it leaves holds the rows that it should.
abbrev pub Keeps : Store → Rows → Call → Type 0
Keeps s w c = Promised w c (call s c).1 × Holds (call s c).0 (rows_after w c)

refusing_id : (s : Store) (d : Device) → d.id ≡ [] → enrol s d ≡ err invalid_device
unfolding enrol
refusing_id s d h = ground arith

refusing_org : (s : Store) (d : Device) → d.org_id ≡ [] → enrol s d ≡ err invalid_device
unfolding enrol
refusing_org s d h = ground arith

enrolling_both :
    (s : Store) (d : Device)
    → d.id ≢ []
    → d.org_id ≢ []
    → enrol s d ≡ ok (record s { devices = insert d.id d s.devices })
unfolding enrol
enrolling_both s d h i = ground arith

complete_id {ℓ} : {A : Type ℓ} (id o : Bytes) (x y : A) → id ≡ [] → complete id o x y ≡ x
complete_id id o x y h = rw h

complete_org {ℓ} : {A : Type ℓ} (id o : Bytes) (x y : A) → o ≡ [] → complete id o x y ≡ x
complete_org [] o x y h = refl
complete_org (c ∷ id) o x y h = rw h

complete_both {ℓ} : {A : Type ℓ} (id o : Bytes) (x y : A) → id ≢ [] → o ≢ [] → complete id o x y ≡ y
complete_both [] o x y h i = absurd (h refl)
complete_both (c ∷ id) [] x y h i = absurd (i refl)
complete_both (c ∷ id) (b ∷ o) x y h i = refl

empty_or_not : (bs : Bytes) → (bs ≡ []) ⊎ (bs ≢ [])
empty_or_not [] = inl refl
empty_or_not (c ∷ bs) = inr (λ h. ground arith)

enrolling-Keeps : (s : Store) (w : Rows) (d : Device) → Holds s w → Keeps s w (enrolling d)
unfolding call
enrolling-Keeps s w d h = elim (empty_or_not d.id) [
  | inl no_id ↦
      rw
        (
          refusing_id s d no_id,
          complete_id d.id d.org_id (refused invalid_device) done no_id,
          complete_id d.id d.org_id w (enrolled d w) no_id,
        )
        (refl, h)
  | inr id ↦ elim (empty_or_not d.org_id) [
    | inl no_org ↦
        rw
          (
            refusing_org s d no_org,
            complete_org d.id d.org_id (refused invalid_device) done no_org,
            complete_org d.id d.org_id w (enrolled d w) no_org,
          )
          (refl, h)
    | inr org ↦
        rw
          (
            enrolling_both s d id org,
            complete_both d.id d.org_id (refused invalid_device) done id org,
            complete_both d.id d.org_id w (enrolled d w) id org,
          )
          (refl, enrolled-Holds s _ w d h (enrolling_both s d id org) refl)
  ]
]

refusing_unknown :
    (s : Store) (now : Time) (id : Bytes) (r : Reading)
    → lookup id s.devices ≡ none
    → record_reading s now id r ≡ err unknown_device
unfolding record_reading
refusing_unknown s now id r missing = ground arith

recording-Keeps :
    (s : Store) (w : Rows) (now : Time) (id : Bytes) (r : Reading)
    → Holds s w
    → Keeps s w (recording now id r)
unfolding call
recording-Keeps s w now id r h = elim (Option-cases (lookup id s.devices)) [
  | inl missing ↦
      rw (refusing_unknown s now id r missing, sym (h.same_devices id) ∙ missing) (refl, h)
  | inr (d, here) ↦
      rw (record_reading-known s now id r d here, sym (h.same_devices id) ∙ here)
        (refl, recorded-Holds s _ w now id r d h (record_reading-known s now id r d here) refl)
]

logging_own :
    (s : Store) (now : Time) (c : ℕ) (org : Bytes) (e : AuditEntry)
    → append_audit s now (org_scope (c ∷ org)) e
      ≡ ok (record s { audit = s.audit ++ stamp_entry (c ∷ org) now e ∷ [] })
unfolding append_audit
logging_own s now c org e = rw (org_of-eq_ok (c ∷ org) (λ h. ground arith))

logging-Keeps :
    (s : Store) (w : Rows) (now : Time) (sc : Scope) (e : AuditEntry)
    → Holds s w
    → Keeps s w (logging now sc e)
unfolding call append_audit org_of
logging-Keeps s w now nil_scope e h = (refl, h)
logging-Keeps s w now (org_scope []) e h = (refl, h)
logging-Keeps s w now (org_scope (c ∷ org)) e h =
    let kept = logging_own s now c org e in
    rw kept (refl, logged-Holds s _ w now (org_scope (c ∷ org)) (c ∷ org) e h kept refl)

IsFleet-IsFleetOf :
    (s : Store) (w : Rows) (org : Bytes) (ds : List Device)
    → Holds s w
    → IsFleet s org ds
    → IsFleetOf w.device_at org ds
IsFleet-IsFleetOf s w org ds h f = record {
  in_order = f.ascending;
  members = λ d. (
    (λ mem. let (own, here) = f.only_own d mem in (own, sym (h.same_devices d.id) ∙ here)),
    (λ (own, here). f.all_own d own (h.same_devices d.id ∙ here)),
  );
}

asking_fleet-Keeps : (s : Store) (w : Rows) (sc : Scope) → Holds s w → Keeps s w (asking_fleet sc)
unfolding call fleet org_of
asking_fleet-Keeps s w nil_scope h = (refl, h)
asking_fleet-Keeps s w (org_scope []) h = (refl, h)
asking_fleet-Keeps s w (org_scope (c ∷ org)) h =
    let (ds, e, f) =
      fleet-IsFleet s (org_scope (c ∷ org)) (c ∷ org) h.valid
        (org_of-eq_ok (c ∷ org) (λ z. ground arith)) in
    ((ds, ap (answer_of devices) e, IsFleet-IsFleetOf s w (c ∷ org) ds h f), h)

visible-own_rows :
    (s : Store) (w : Rows) (org id : Bytes) (limit : ℤ) (o : Option Device)
    → Holds s w
    → visible_readings org o (reading_limit limit) (readings_of s id)
      ≡ found o none (own_rows org limit (w.readings_at id))
visible-own_rows s w org id limit none h = refl
visible-own_rows s w org id limit (some d) h = rw (take-reverse s w id limit h)

asking_readings-Keeps :
    (s : Store) (w : Rows) (sc : Scope) (id : Bytes) (limit : ℤ)
    → Holds s w
    → Keeps s w (asking_readings sc id limit)
unfolding call readings org_of
asking_readings-Keeps s w nil_scope id limit h = (refl, h)
asking_readings-Keeps s w (org_scope []) id limit h = (refl, h)
asking_readings-Keeps s w (org_scope (c ∷ org)) id limit h = (
  ap (answer_of rows) (
        readings-eq s (org_scope (c ∷ org)) (c ∷ org) id limit
          (org_of-eq_ok (c ∷ org) (λ z. ground arith)))
      ∙ ap rows (
          visible-own_rows s w (c ∷ org) id limit (lookup id s.devices) h
          ∙ ap (λ o. found o none (own_rows (c ∷ org) limit (w.readings_at id)))
              (h.same_devices id)),
  h,
)

asking_audit-Keeps :
    (s : Store) (w : Rows) (sc : Scope) (prefix : Bytes)
    → Holds s w
    → Keeps s w (asking_audit sc prefix)
unfolding call audit org_of
asking_audit-Keeps s w nil_scope prefix h = (refl, h)
asking_audit-Keeps s w (org_scope []) prefix h = (refl, h)
asking_audit-Keeps s w (org_scope (c ∷ org)) prefix h = (
  ap (answer_of entries) (
        audit-eq s (org_scope (c ∷ org)) (c ∷ org) prefix
          (org_of-eq_ok (c ∷ org) (λ z. ground arith)))
      ∙ ap (λ l. entries (keep (is_shown (c ∷ org) prefix) l)) h.same_log,
  h,
)

pub call-Keeps : (s : Store) (w : Rows) (c : Call) → Holds s w → Keeps s w c
unfolding call device
call-Keeps s w (enrolling d) h = enrolling-Keeps s w d h
call-Keeps s w (recording now id r) h = recording-Keeps s w now id r h
call-Keeps s w (logging now sc e) h = logging-Keeps s w now sc e h
call-Keeps s w (asking_device id) h = (ap one_device (h.same_devices id), h)
call-Keeps s w (asking_fleet sc) h = asking_fleet-Keeps s w sc h
call-Keeps s w (asking_readings sc id limit) h = asking_readings-Keeps s w sc id limit h
call-Keeps s w (asking_audit sc prefix) h = asking_audit-Keeps s w sc prefix h
