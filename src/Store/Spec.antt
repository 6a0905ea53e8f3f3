-- ===== src/Store/Spec.antt =====
-- internal/store: what a store promises to its clients, without maps, slices and bounds. A store is
-- every row that was ever written: nothing is dropped here, and a reading is never out of reach for
-- want of room. A limit on an answer is part of the promise, since a client asks for it.
pub mod Held
pub mod Kept
pub mod Refined
use mathlib.Core.List.{Memᴰ}
use enisa_sbd_example.Common.{
  ◌≡◌, ◌↔◌, List, [], ◌∷◌, Option, none, some, Bytes, text_eq, has_prefix, if◌then◌else◌, ◌&&◌,
  take, keep, ℤ,
}
use enisa_sbd_example.Store.Model.{
  Time, Device, Reading, AuditEntry, no_scope, unknown_device, invalid_device,
}
use enisa_sbd_example.Store.Scope.{Scope, nil_scope, org_scope}
use enisa_sbd_example.Store.Writes.{stamp, stamp_entry}
use enisa_sbd_example.Store.Reads.{reading_limit}
use enisa_sbd_example.Store.Reads.Order.{is_shown}
use enisa_sbd_example.Store.Reads.Sorted.{IsAscending}
use enisa_sbd_example.Store.Calls.{
  Call, enrolling, recording, logging, asking_device, asking_fleet, asking_readings, asking_audit,
  Answer, done, refused, one_device, devices, rows, entries,
}

-- The device under an id, all its readings and the whole log, the newest first.
pub record Rows : Type 0 where
  pub device_at : Bytes → Option Device
  pub readings_at : Bytes → List Reading
  pub log : List AuditEntry

abbrev pub no_rows : Rows
no_rows = record { device_at = λ _. none; readings_at = λ _. []; log = [] }

-- A function with another value at one place.
abbrev pub put {ℓ} : {A : Type ℓ} → Bytes → A → (Bytes → A) → Bytes → A
put k v f j = if text_eq k j then v else f j

abbrev pub enrolled : Device → Rows → Rows
enrolled d w = record w { device_at = put d.id (some d) w.device_at }

abbrev pub recorded : Time → Bytes → Reading → Device → Rows → Rows
recorded now id r d w = record w {
  device_at = put id (some (record d { last_seen = now })) w.device_at;
  readings_at = put id (stamp id now r ∷ w.readings_at id) w.readings_at;
}

abbrev pub logged : Bytes → Time → AuditEntry → Rows → Rows
logged org now e w = record w { log = stamp_entry org now e ∷ w.log }

-- What is done for a scope with an organisation, and what otherwise.
abbrev pub within {ℓ} : {A : Type ℓ} → Scope → A → (Bytes → A) → A
within nil_scope otherwise f = otherwise
within (org_scope []) otherwise f = otherwise
within (org_scope (c ∷ org)) otherwise f = f (c ∷ org)

-- What is done for an id and an organisation that are both there, and what otherwise.
abbrev pub complete {ℓ} : {A : Type ℓ} → Bytes → Bytes → A → A → A
complete [] _ otherwise x = otherwise
complete (_ ∷ _) [] otherwise x = otherwise
complete (_ ∷ _) (_ ∷ _) otherwise x = x

abbrev pub found {ℓ} : {A : Type ℓ} → Option Device → A → (Device → A) → A
found none otherwise f = otherwise
found (some d) otherwise f = f d

-- What a call does to the rows.
abbrev pub rows_after : Rows → Call → Rows
rows_after w (enrolling d) = complete d.id d.org_id w (enrolled d w)
rows_after w (recording now id r) = found (w.device_at id) w (λ d. recorded now id r d w)
rows_after w (logging now sc e) = within sc w (λ org. logged org now e w)
rows_after w _ = w

-- All devices of an organisation and no others, in the order of their ids.
pub record IsFleetOf (at : Bytes → Option Device) (org : Bytes) (ds : List Device) : Type 0 where
  pub in_order : IsAscending ds
  pub members : (d : Device) → Memᴰ d ds ↔ ((d.org_id ≡ org) × (at d.id ≡ some d))

-- What an organisation sees of a device's rows: nothing unless the device is its own.
abbrev pub own_rows : Bytes → ℤ → List Reading → Device → Option (List Reading)
own_rows org limit rs d =
    if text_eq d.org_id org then some (take (reading_limit limit) rs) else none

-- Which answers a call may have.
abbrev pub Promised : Rows → Call → Answer → Type 0
Promised w (enrolling d) a = a ≡ complete d.id d.org_id (refused invalid_device) done
Promised w (recording now id r) a = a ≡ found (w.device_at id) (refused unknown_device) (λ _. done)
Promised w (logging now sc e) a = a ≡ within sc (refused no_scope) (λ _. done)
Promised w (asking_device id) a = a ≡ one_device (w.device_at id)
Promised w (asking_fleet sc) a =
    within sc (a ≡ refused no_scope)
      (λ org. (ds : List Device) × (a ≡ devices ds) × IsFleetOf w.device_at org ds)
Promised w (asking_readings sc id limit) a =
    a
    ≡ within sc (refused no_scope)
        (λ org. rows (found (w.device_at id) none (own_rows org limit (w.readings_at id))))
Promised w (asking_audit sc prefix) a =
    a ≡ within sc (refused no_scope) (λ org. entries (keep (is_shown org prefix) w.log))

-- The answers to calls one after the other, from these rows on.
abbrev pub Meets : Rows → List Call → List Answer → Type 0
Meets w [] [] = Unit
Meets w [] (_ ∷ _) = ⊥
Meets w (_ ∷ _) [] = ⊥
Meets w (c ∷ cs) (a ∷ more) = Promised w c a × Meets (rows_after w c) cs more
