-- ===== src/Store/Reads/Order.antt =====
-- internal/store/store.go: the loops of `Readings` and `Audit` return the newest rows first.
use mathlib.Core.List.{reverse}
use enisa_sbd_example.Common.{
  ℕ, zero, suc, ◌-◌, ◌≤◌, ◌≡◌, refl, List, [], ◌∷◌, ◌++◌, append_assoc, append-nil, Option, none,
  some, Bool, ◌&&◌, Bytes, length, length-append, take, get_elem?, keep, text_eq, has_prefix,
  if◌then◌else◌, lookup, ℤ, ok, arith,
}
use enisa_sbd_example.Common.Lists.Newest.{
  get_elem?-of_lt, reverse-take-suc, take-length, take-nil, take_step, take_zero,
}
use enisa_sbd_example.Store.Model.{Device, Reading, AuditEntry, Store, readings_of}
use enisa_sbd_example.Store.Scope.{Scope, org_of}
use enisa_sbd_example.Store.Reads.{newest_first, reading_limit, readings, matching_entries, audit}

newest_first_step :
    (i limit : ℕ) (rs out : List Reading) (r : Reading)
    → get_elem? rs i ≡ some r
    → suc i ≤ length rs
    → newest_first i limit rs (out ++ r ∷ [])
      ≡ (out ++ r ∷ []) ++ take (limit - length (out ++ r ∷ [])) (reverse (take i rs))
    → newest_first (suc i) limit rs out
      ≡ out ++ take (limit - length out) (reverse (take (suc i) rs))
unfolding newest_first
newest_first_step i limit rs out r found h later = rw (reverse-take-suc rs i r found) (
    ground (
      arith,
      length-append out (r ∷ []),
      take_step (limit - length out) (limit - length (out ++ r ∷ [])) r (reverse (take i rs)),
      take_zero (limit - length out) (r ∷ reverse (take i rs)),
      append-nil out,
      append_assoc out (r ∷ []) (take (limit - length (out ++ r ∷ [])) (reverse (take i rs))),
    ))

newest_first-take :
    (i limit : ℕ) (rs out : List Reading)
    → i ≤ length rs
    → newest_first i limit rs out ≡ out ++ take (limit - length out) (reverse (take i rs))
newest_first-take zero limit rs out h =
    rw (take-nil (limit - length out), append-nil) (unfold newest_first in refl)
newest_first-take (suc i) limit rs out h =
    let (r, found) = get_elem?-of_lt rs i h in
    newest_first_step i limit rs out r found h
      (newest_first-take i limit rs (out ++ r ∷ []) (omega arith))

-- The entries of an organisation whose action begins with a prefix.
abbrev pub is_shown : Bytes → Bytes → AuditEntry → Bool
is_shown org prefix e = text_eq e.org_id org && has_prefix e.action prefix

matching_entries_step :
    (org prefix : Bytes) (i : ℕ) (entries out : List AuditEntry) (e : AuditEntry)
    → get_elem? entries i ≡ some e
    → matching_entries org prefix i entries (out ++ e ∷ [])
      ≡ (out ++ e ∷ []) ++ keep (is_shown org prefix) (reverse (take i entries))
    → matching_entries org prefix i entries out
      ≡ out ++ keep (is_shown org prefix) (reverse (take i entries))
    → matching_entries org prefix (suc i) entries out
      ≡ out ++ keep (is_shown org prefix) (reverse (take (suc i) entries))
unfolding matching_entries
matching_entries_step org prefix i entries out e found shown hidden =
    rw (reverse-take-suc entries i e found) (
      ground
        (arith, append_assoc out (e ∷ []) (keep (is_shown org prefix) (reverse (take i entries)))))

matching_entries-keep :
    (org prefix : Bytes) (i : ℕ) (entries out : List AuditEntry)
    → i ≤ length entries
    → matching_entries org prefix i entries out
      ≡ out ++ keep (is_shown org prefix) (reverse (take i entries))
matching_entries-keep org prefix zero entries out h =
    rw append-nil (unfold matching_entries in refl)
matching_entries-keep org prefix (suc i) entries out h =
    let (e, found) = get_elem?-of_lt entries i h in
    matching_entries_step org prefix i entries out e found
      (matching_entries-keep org prefix i entries (out ++ e ∷ []) (omega arith))
      (matching_entries-keep org prefix i entries out (omega arith))

-- What an organisation sees of a device: nothing unless the device is its own.
abbrev pub visible_readings : Bytes → Option Device → ℕ → List Reading → Option (List Reading)
visible_readings org none n rs = none
visible_readings org (some d) n rs =
    if text_eq d.org_id org then some (take n (reverse rs)) else none

-- `Readings` for a device of the caller's organisation: the newest readings first, at most as many
-- as the limit allows. Any other device, enrolled elsewhere or nowhere, has no rows.
pub readings-eq :
    (s : Store) (sc : Scope) (org id : Bytes) (limit : ℤ)
    → org_of sc ≡ ok org
    → readings s sc id limit
      ≡ ok (visible_readings org (lookup id s.devices) (reading_limit limit) (readings_of s id))
unfolding readings
readings-eq s sc org id limit h = ground (
  arith,
  newest_first-take (length (readings_of s id)) (reading_limit limit) (readings_of s id) [],
  take-length (readings_of s id),
)

-- `Audit` returns exactly the caller's own entries with the prefix, newest first.
pub audit-eq :
    (s : Store) (sc : Scope) (org prefix : Bytes)
    → org_of sc ≡ ok org
    → audit s sc prefix ≡ ok (keep (is_shown org prefix) (reverse s.audit))
unfolding audit
audit-eq s sc org prefix h =
    ground
      (arith, matching_entries-keep org prefix (length s.audit) s.audit [], take-length s.audit)
