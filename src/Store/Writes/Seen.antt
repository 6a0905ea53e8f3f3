-- ===== src/Store/Writes/Seen.antt =====
-- internal/store/store.go: what a reader sees after a write.
use mathlib.Core.List.{reverse, reverse-append}
use enisa_sbd_example.Common.{
  ℕ, suc, ◌-◌, ◌≤◌, ◌≡◌, ◌≢◌, inl, inr, refl, sym, ap, ap₂, subst, ◌∙◌, List, [], ◌∷◌, ◌++◌, some,
  Bytes, text_eq_refl, Bool-cases, Map, lookup, insert, lookup-insert, ℤ, ok, arith, keep,
  has_prefix, or_nil, take, drop, take-append-drop, zero, length, length-append, length-drop, ltb,
  if◌then◌else◌,
}
use enisa_sbd_example.Store.Model.{
  Time, Device, Reading, AuditEntry, Store, readings_of, max_readings_per_device,
}
use enisa_sbd_example.Store.Scope.{org_scope, org_of}
use enisa_sbd_example.Store.Writes.{record_reading, append_audit, newest_kept, stamp, stamp_entry}
use enisa_sbd_example.Store.Invariant.{record_reading-ok, append_audit-ok}
use enisa_sbd_example.Store.Reads.{readings, reading_limit, audit}
use enisa_sbd_example.Store.Reads.Order.{visible_readings, readings-eq, is_shown, audit-eq}

pub reading_limit-le : (limit : ℤ) → reading_limit limit ≤ max_readings_per_device
reading_limit-le limit = ground arith

pub length-reverse : (rs : List Reading) → length (reverse rs) ≡ length rs
length-reverse [] = refl
length-reverse (r ∷ rs) =
    rw (reverse-append (r ∷ []) rs)
      (omega (arith, length-append (reverse rs) (r ∷ []), length-reverse rs))

take-append_le : (n : ℕ) (xs ys : List Reading) → n ≤ length xs → take n (xs ++ ys) ≡ take n xs
take-append_le zero xs ys h = refl
take-append_le (suc n) [] ys h = absurd (omega arith)
take-append_le (suc n) (x ∷ xs) ys h = ap (◌∷◌ x) (take-append_le n xs ys (omega arith))

reverse-split :
    (k : ℕ) (rs : List Reading) → reverse rs ≡ reverse (drop k rs) ++ reverse (take k rs)
reverse-split k rs =
    ap reverse (sym (take-append-drop k rs)) ∙ reverse-append (take k rs) (drop k rs)

-- The rows that the bound drops are rows that no read could reach.
pub take-newest_kept :
    (n : ℕ) (rs : List Reading)
    → n ≤ max_readings_per_device
    → take n (reverse (newest_kept rs)) ≡ take n (reverse rs)
take-newest_kept n rs h = elim (Bool-cases (ltb max_readings_per_device (length rs))) [
  | inr short ↦ rw short
  | inl long ↦
      let k = length rs - max_readings_per_device in
      rw (long, reverse-split k rs)
        (sym (
          take-append_le n (reverse (drop k rs)) (reverse (take k rs))
            (ground (arith, length-reverse (drop k rs), length-drop k rs))))
]

pub org_of-eq_ok : (org : Bytes) → org ≢ [] → org_of (org_scope org) ≡ ok org
unfolding org_of
org_of-eq_ok [] h = absurd (h refl)
org_of-eq_ok (c ∷ org) h = ground arith

org_scope_injective : (a b : Bytes) → org_scope a ≡ org_scope b → a ≡ b
org_scope_injective a b h = cc

visible-own :
    (org : Bytes) (d : Device) (n : ℕ) (rs : List Reading)
    → d.org_id ≡ org
    → visible_readings org (some d) n rs ≡ some (take n (reverse rs))
visible-own org d n rs h = rw (h, text_eq_refl)

lookup-insert_self {ℓ} :
    {V : Type ℓ} (k : Bytes) (v : V) (m : Map V) → lookup k (insert k v m) ≡ some v
lookup-insert_self k v m = rw (lookup-insert, text_eq_refl)

-- A reading that was recorded for an organisation's device is the first row that the organisation
-- then reads of it, stamped with the device's id and the time of the server; the rows behind it are
-- the earlier ones, newest first, up to the limit.
pub readings-record_reading :
    (s t : Store) (now : Time) (id org : Bytes) (r : Reading) (d : Device) (limit : ℤ)
    → record_reading s now id r ≡ ok t
    → lookup id s.devices ≡ some d
    → d.org_id ≡ org
    → org ≢ []
    → readings t (org_scope org) id limit
      ≡ ok (some (take (reading_limit limit) (stamp id now r ∷ reverse (readings_of s id))))
readings-record_reading s t now id org r d limit h found own has_org =
    let (d', found', e) = record_reading-ok s t now id r h in
    let seen = record d' { last_seen = now } in
    let rs = newest_kept (readings_of s id ++ stamp id now r ∷ []) in
    let devs : lookup id t.devices ≡ some seen = rw e (lookup-insert_self id seen s.devices) in
    let rows : readings_of t id ≡ rs = rw e (ap or_nil (lookup-insert_self id rs s.readings)) in
    let still : d'.org_id ≡ org = ground arith in
    readings-eq t (org_scope org) org id limit (org_of-eq_ok org has_org)
    ∙ ap ok (
        ap₂ (λ o l. visible_readings org o (reading_limit limit) l) devs rows
        ∙ visible-own org seen (reading_limit limit) rs still
        ∙ ap some (
            take-newest_kept (reading_limit limit) (readings_of s id ++ stamp id now r ∷ [])
              (reading_limit-le limit)
            ∙ ap (take (reading_limit limit))
                (reverse-append (readings_of s id) (stamp id now r ∷ []))))

-- An entry that was logged for an organisation is the first that it then reads under a prefix of the
-- entry's action, and is not shown under other prefixes; the entries behind it are unchanged.
audit-append_audit :
    (s t : Store) (now : Time) (org prefix : Bytes) (e : AuditEntry)
    → append_audit s now (org_scope org) e ≡ ok t
    → audit t (org_scope org) prefix ≡ (
        if has_prefix e.action prefix
        then ok (stamp_entry org now e ∷ keep (is_shown org prefix) (reverse s.audit))
        else ok (keep (is_shown org prefix) (reverse s.audit)))
audit-append_audit s t now org prefix e h =
    let (a, has_org, same_scope, same) = append_audit-ok s t now (org_scope org) e h in
    let own : a ≡ org = org_scope_injective a org (sym same_scope) in
    let rows : t.audit ≡ s.audit ++ stamp_entry org now e ∷ [] =
      subst (λ x. t.audit ≡ s.audit ++ stamp_entry x now e ∷ []) own (ap (λ u. u.audit) same) in
    audit-eq t (org_scope org) org prefix (org_of-eq_ok org (subst (λ x. x ≢ []) own has_org))
    ∙ ap (λ l. ok (keep (is_shown org prefix) (reverse l))) rows
    ∙ ap (λ l. ok (keep (is_shown org prefix) l))
        (reverse-append s.audit (stamp_entry org now e ∷ []))
    ∙ ground (arith, text_eq_refl org)
