-- ===== src/Store/Isolation.antt =====
-- internal/store: what one organisation does is not seen by another.
pub mod Steps
use mathlib.Core.List.{reverse, reverse-append}
use enisa_sbd_example.Common.{
  ℕ, ◌≡◌, ◌≢◌, ◌⊎◌, inl, inr, refl, sym, ap, ap₂, subst, ◌∙◌, List, [], ◌∷◌, ◌++◌, Option, some,
  none, Bytes, true, false, text_eq, text_eq_iff, text_eq_refl, length, ◌==◌, Bool-cases,
  Option-cases, All, Map, lookup, insert, lookup-insert, ℤ, ok, err, Result, Result-cases, arith,
  keep, ◌&&◌, has_prefix, or_nil,
}
use enisa_sbd_example.Store.Model.{Time, Device, Reading, AuditEntry, Store, Error, readings_of}
use enisa_sbd_example.Store.Scope.{Scope, nil_scope, org_scope, org_of}
use enisa_sbd_example.Store.Writes.{
  enrol, record_reading, append_audit, newest_kept, stamp, stamp_entry,
}
use enisa_sbd_example.Store.Invariant.{
  enrol-ok, record_reading-ok, append_audit-ok, Step, enrols, records, logs, Reach, here, next,
}
use enisa_sbd_example.Store.Reads.{of_org, sort_by_id, fleet, readings, reading_limit, audit}
use enisa_sbd_example.Store.Reads.Order.{visible_readings, readings-eq, is_shown, audit-eq}

-- The three reads give the same answers.
pub record SameView (s : Store) (t : Store) (sc : Scope) : Type 0 where
  pub same_fleet : fleet s sc ≡ fleet t sc
  pub same_readings : (id : Bytes) (limit : ℤ) → readings s sc id limit ≡ readings t sc id limit
  pub same_audit : (prefix : Bytes) → audit s sc prefix ≡ audit t sc prefix

-- A device that is not enrolled with the organisation.
abbrev pub IsOther : Bytes → Option Device → Type 0
IsOther org none = Unit
IsOther org (some d) = d.org_id ≢ org

of_org-insert_other :
    (org k : Bytes) (d : Device) (m : Map Device)
    → d.org_id ≢ org
    → IsOther org (lookup k m)
    → of_org org (insert k d m) ≡ of_org org m
unfolding of_org insert lookup
of_org-insert_other org k d [] h _ = ground (arith, text_eq_iff d.org_id org)
of_org-insert_other org k d ((j, e) ∷ m) h other = elim (Bool-cases (text_eq j k)) [
  | inl same ↦
      let foreign : e.org_id ≢ org = subst (IsOther org) (lookup_hit same) other in
      ground (arith, text_eq_iff d.org_id org, text_eq_iff e.org_id org)
  | inr differ ↦
      let ih = of_org-insert_other org k d m h (subst (IsOther org) (lookup_miss differ) other) in
      ground arith
]
  where
    lookup_hit : text_eq j k ≡ true → lookup k ((j, e) ∷ m) ≡ some e
    lookup_hit same = rw same

    lookup_miss : text_eq j k ≡ false → lookup k ((j, e) ∷ m) ≡ lookup k m
    lookup_miss differ = rw differ

visible-other :
    (org : Bytes) (o : Option Device) (n : ℕ) (rs : List Reading)
    → IsOther org o
    → visible_readings org o n rs ≡ none
visible-other org none n rs h = refl
visible-other org (some d) n rs h = ground (arith, text_eq_iff d.org_id org)

pub org_of-org_scope : (org o : Bytes) → org_of (org_scope org) ≡ ok o → o ≡ org
unfolding org_of
org_of-org_scope org o h = ground arith

-- Without a scope every read answers the same error, whatever the store.
pub no_scope_view : (s t : Store) (sc : Scope) (e : Error) → org_of sc ≡ err e → SameView s t sc
no_scope_view s t sc e h = record {
  same_fleet = unfold fleet in rw h;
  same_readings = λ id limit. unfold readings in rw h;
  same_audit = λ prefix. unfold audit in rw h;
}

-- Writing a foreign device, and readings under its id, changes nothing that the organisation sees.
module _ (s t : Store) (org k : Bytes) (d : Device) (h : d.org_id ≢ org)
    (other : IsOther org (lookup k s.devices)) (devs : t.devices ≡ insert k d s.devices)
    (rds : (j : Bytes) → text_eq k j ≡ false → readings_of t j ≡ readings_of s j)
    (aud : t.audit ≡ s.audit) where
  visible_isolated :
      (j : Bytes) (n : ℕ)
      → visible_readings org (lookup j s.devices) n (readings_of s j)
        ≡ visible_readings org (lookup j t.devices) n (readings_of t j)
  visible_isolated j n = elim (Bool-cases (text_eq k j)) [
    | inl same ↦
        let e : k ≡ j = (text_eq_iff k j).0 same in
        let now_other : IsOther org (lookup j t.devices) =
          subst (IsOther org) (sym (at_key j same)) h in
        visible-other org (lookup j s.devices) n (readings_of s j)
          (subst (λ i. IsOther org (lookup i s.devices)) e other)
        ∙ sym (visible-other org (lookup j t.devices) n (readings_of t j) now_other)
    | inr differ ↦
        ap₂ (λ o rs. visible_readings org o n rs) (sym (elsewhere j differ)) (sym (rds j differ))
  ]
    where
      at_key : (j : Bytes) → text_eq k j ≡ true → lookup j t.devices ≡ some d
      at_key j same = ap (lookup j) devs ∙ lookup-insert k j d s.devices ∙ rw same

      elsewhere : (j : Bytes) → text_eq k j ≡ false → lookup j t.devices ≡ lookup j s.devices
      elsewhere j differ = ap (lookup j) devs ∙ lookup-insert k j d s.devices ∙ rw differ

  pub devices_isolated : SameView s t (org_scope org)
  devices_isolated = elim (Result-cases (org_of (org_scope org))) [
    | inr (e, failed) ↦ no_scope_view s t (org_scope org) e failed
    | inl (o, found) ↦
        let scoped : org_of (org_scope org) ≡ ok org =
          subst (λ x. org_of (org_scope org) ≡ ok x) (org_of-org_scope org o found) found in
        record {
          same_fleet = fleet_isolated scoped;
          same_readings = λ id limit.
              readings-eq s (org_scope org) org id limit scoped
              ∙ ap ok (visible_isolated id (reading_limit limit))
              ∙ sym (readings-eq t (org_scope org) org id limit scoped);
          same_audit = λ prefix.
              audit-eq s (org_scope org) org prefix scoped
              ∙ ap (λ l. ok (keep (is_shown org prefix) (reverse l))) (sym aud)
              ∙ sym (audit-eq t (org_scope org) org prefix scoped);
        }
  ]
    where
      same_devices : of_org org s.devices ≡ of_org org t.devices
      same_devices = sym (ap (of_org org) devs ∙ of_org-insert_other org k d s.devices h other)

      fleet_isolated :
          org_of (org_scope org) ≡ ok org → fleet s (org_scope org) ≡ fleet t (org_scope org)
      fleet_isolated scoped = unfold fleet in rw (scoped, same_devices)
