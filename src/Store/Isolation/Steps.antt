-- ===== src/Store/Isolation/Steps.antt =====
-- internal/store: no sequence of calls for other organisations changes what an organisation sees.
use mathlib.Core.List.{reverse, reverse-append}
use enisa_sbd_example.Common.{
  ◌≡◌, ◌≢◌, inl, inr, refl, sym, ap, subst, ◌∙◌, List, [], ◌∷◌, ◌++◌, Bytes, false, text_eq,
  text_eq-eq-false, lookup, insert, lookup-insert, ok, Result-cases, keep, or_nil,
}
use enisa_sbd_example.Store.Model.{Time, Device, Reading, AuditEntry, Store, readings_of}
use enisa_sbd_example.Store.Scope.{Scope, org_scope, org_of}
use enisa_sbd_example.Store.Writes.{
  enrol, record_reading, append_audit, newest_kept, stamp, stamp_entry,
}
use enisa_sbd_example.Store.Invariant.{
  enrol-ok, record_reading-ok, append_audit-ok, Step, enrols, records, logs, Reach, here, next,
}
use enisa_sbd_example.Store.Reads.{fleet, readings}
use enisa_sbd_example.Store.Reads.Order.{is_shown, audit-eq}
use enisa_sbd_example.Store.Isolation.{
  SameView, IsOther, devices_isolated, org_of-org_scope, no_scope_view,
}

-- A call that is not the organisation's: it enrols a device elsewhere, under an id that is not one
-- of the organisation's devices; it records for such a device; or it logs under another scope.
abbrev pub IsForeign : {s t : Store} → Bytes → Step s t → Type 0
IsForeign {s} org (enrols d _) = (d.org_id ≢ org) × IsOther org (lookup d.id s.devices)
IsForeign {s} org (records now id r _) = IsOther org (lookup id s.devices)
IsForeign {s} org (logs now sc e _) = sc ≢ org_scope org

enrol_isolated :
    (s t : Store) (org : Bytes) (d : Device)
    → d.org_id ≢ org
    → IsOther org (lookup d.id s.devices)
    → enrol s d ≡ ok t
    → SameView s t (org_scope org)
enrol_isolated s t org d foreign other h =
    let e = (enrol-ok s t d h).2 in
    rw e (
      devices_isolated s (record s { devices = insert d.id d s.devices }) org d.id d foreign other
        refl (λ j ne. refl) refl)

readings_elsewhere :
    (id j : Bytes) (rs : List Reading) (s : Store)
    → text_eq id j ≡ false
    → lookup j (insert id rs s.readings) ≡ lookup j s.readings
readings_elsewhere id j rs s differ = rw (lookup-insert, differ)

record_reading_isolated :
    (s t : Store) (org : Bytes) (now : Time) (id : Bytes) (r : Reading)
    → IsOther org (lookup id s.devices)
    → record_reading s now id r ≡ ok t
    → SameView s t (org_scope org)
record_reading_isolated s t org now id r other h =
    let (d, found, e) = record_reading-ok s t now id r h in
    let rs = newest_kept (readings_of s id ++ stamp id now r ∷ []) in
    let foreign : d.org_id ≢ org = subst (IsOther org) found other in
    rw e (
      devices_isolated s
        (record s {
          devices = insert id (record d { last_seen = now }) s.devices;
          readings = insert id rs s.readings;
        })
        org id (record d { last_seen = now }) foreign other refl
        (λ j differ. ap or_nil (readings_elsewhere id j rs s differ)) refl)

-- An entry of another organisation is not shown.
keep-foreign :
    (org prefix : Bytes) (e : AuditEntry) (entries : List AuditEntry)
    → e.org_id ≢ org
    → keep (is_shown org prefix) (reverse (entries ++ e ∷ []))
      ≡ keep (is_shown org prefix) (reverse entries)
keep-foreign org prefix e entries h =
    rw (reverse-append entries (e ∷ []), text_eq-eq-false e.org_id org h)

append_audit_isolated :
    (s t : Store) (org : Bytes) (now : Time) (sc : Scope) (e : AuditEntry)
    → sc ≢ org_scope org
    → append_audit s now sc e ≡ ok t
    → SameView s t (org_scope org)
append_audit_isolated s t org now sc e foreign h = elim (Result-cases (org_of (org_scope org))) [
  | inr (x, failed) ↦ no_scope_view s t (org_scope org) x failed
  | inl (o, found) ↦
      let (a, has_org, same_scope, same) = append_audit-ok s t now sc e h in
      let differ : a ≢ org = λ p. foreign (same_scope ∙ ap org_scope p) in
      let scoped : org_of (org_scope org) ≡ ok org =
        subst (λ x. org_of (org_scope org) ≡ ok x) (org_of-org_scope org o found) found in
      let t' : Store = record s { audit = s.audit ++ stamp_entry a now e ∷ [] } in
      rw same (record {
        same_fleet = unfold fleet in refl;
        same_readings = λ id limit. unfold readings in refl;
        same_audit = λ prefix.
            audit-eq s (org_scope org) org prefix scoped
            ∙ ap ok (sym (keep-foreign org prefix (stamp_entry a now e) s.audit differ))
            ∙ sym (audit-eq t' (org_scope org) org prefix scoped);
      })
]

pub Step-SameView :
    {s t : Store} (org : Bytes) (st : Step s t) → IsForeign org st → SameView s t (org_scope org)
Step-SameView {s} {t} org (enrols d h) (foreign, other) = enrol_isolated s t org d foreign other h
Step-SameView {s} {t} org (records now id r h) other =
    record_reading_isolated s t org now id r other h
Step-SameView {s} {t} org (logs now sc e h) foreign =
    append_audit_isolated s t org now sc e foreign h

-- Every call of a sequence is foreign to the organisation.
abbrev pub AllForeign : {s t : Store} → Bytes → Reach s t → Type 0
AllForeign org here = Unit
AllForeign org (next r st) = AllForeign org r × IsForeign org st

pub SameView-trans :
    {s t u : Store} {sc : Scope} → SameView s t sc → SameView t u sc → SameView s u sc
SameView-trans v w = record {
  same_fleet = v.same_fleet ∙ w.same_fleet;
  same_readings = λ id limit. v.same_readings id limit ∙ w.same_readings id limit;
  same_audit = λ prefix. v.same_audit prefix ∙ w.same_audit prefix;
}

-- After any calls that enrol no device with the organisation or under the id of one of its devices,
-- record nothing for its devices and log nothing under its scope, its fleet, its readings of any
-- device with any limit, and its audit entries under any prefix are what they were.
pub Reach-SameView :
    {s t : Store} (org : Bytes) (r : Reach s t) → AllForeign org r → SameView s t (org_scope org)
Reach-SameView org here _ = record {
  same_fleet = refl;
  same_readings = λ _ _. refl;
  same_audit = λ _. refl;
}
Reach-SameView org (next r st) (fs, f) =
    SameView-trans (Reach-SameView org r fs) (Step-SameView org st f)
