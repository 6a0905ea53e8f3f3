-- ===== src/Store/FleetFile/Enrolled.antt =====
-- internal/store/fleet.go: a fleet that `LoadFleet` accepted is enrolled by `EnrolAll`.
use mathlib.Core.List.{Memᴰ}
use enisa_sbd_example.Common.{
  ◌≡◌, ◌≢◌, ◌⊎◌, ◌↔◌, inl, inr, refl, sym, ap, subst, ◌∙◌, List, [], ◌∷◌, some, Bytes, text_eq,
  text_eq_iff, text_eq_refl, text_eq-eq-false, Bool-cases, All, lookup, insert, lookup-insert, ok,
  arith,
}
use enisa_sbd_example.Store.Model.{Device, Store, empty_store}
use enisa_sbd_example.Store.Writes.{enrol, enrol_all}
use enisa_sbd_example.Store.Reads.{device}
use enisa_sbd_example.Store.Reads.Sorted.{IsDistinct}
use enisa_sbd_example.Store.FleetFile.Checked.{IsComplete}

abbrev with_device : Store → Device → Store
with_device s d = record s { devices = insert d.id d s.devices }

enrol-eq_ok : (s : Store) (d : Device) → IsComplete d → enrol s d ≡ ok (with_device s d)
unfolding enrol
enrol-eq_ok s d h = ground arith

enrol_all-cons :
    (s : Store) (d : Device) (ds : List Device)
    → IsComplete d
    → enrol_all s (d ∷ ds) ≡ enrol_all (with_device s d) ds
unfolding enrol_all
enrol_all-cons s d ds h = ground (arith, enrol-eq_ok s d)

enrol_all_succeeds : (s : Store) (ds : List Device) → All IsComplete ds → (enrol_all s ds).1 ≡ ok tt
enrol_all_succeeds s [] _ = unfold enrol_all in refl
enrol_all_succeeds s (d ∷ ds) (h, hs) =
    ap (λ p. p.1) (enrol_all-cons s d ds h) ∙ enrol_all_succeeds (with_device s d) ds hs

-- A device that stands in no later place keeps its entry.
enrol_all_keeps :
    (s : Store) (ds : List Device) (k : Bytes)
    → All IsComplete ds
    → All (λ e. e.id ≢ k) ds
    → lookup k (enrol_all s ds).0.devices ≡ lookup k s.devices
enrol_all_keeps s [] k _ _ = unfold enrol_all in refl
enrol_all_keeps s (d ∷ ds) k (h, hs) (ne, nes) =
    ap (λ p. lookup k p.0.devices) (enrol_all-cons s d ds h)
    ∙ enrol_all_keeps (with_device s d) ds k hs nes
    ∙ rw (lookup-insert, text_eq-eq-false d.id k ne)

enrol_all_has :
    (s : Store) (ds : List Device) (d : Device)
    → All IsComplete ds
    → IsDistinct ds
    → Memᴰ d ds
    → lookup d.id (enrol_all s ds).0.devices ≡ some d
enrol_all_has s [] d _ _ mem = elim mem [ ]
enrol_all_has s (e ∷ ds) d (h, hs) (ne, _) (Memᴰ.head same) = rw same (
    ap (λ p. lookup e.id p.0.devices) (enrol_all-cons s e ds h)
    ∙ enrol_all_keeps (with_device s e) ds e.id hs ne
    ∙ rw (lookup-insert, text_eq_refl))
enrol_all_has s (e ∷ ds) d (h, hs) (_, distinct) (Memᴰ.tail mem) =
    ap (λ p. lookup d.id p.0.devices) (enrol_all-cons s e ds h)
    ∙ enrol_all_has (with_device s e) ds d hs distinct mem

enrol_all_from :
    (s : Store) (ds : List Device) (k : Bytes) (d : Device)
    → All IsComplete ds
    → lookup k (enrol_all s ds).0.devices ≡ some d
    → (lookup k s.devices ≡ some d) ⊎ (Memᴰ d ds × (d.id ≡ k))
enrol_all_from s [] k d _ h = inl (unfold enrol_all in h)
enrol_all_from s (e ∷ ds) k d (c, cs) h =
    elim (enrol_all_from (with_device s e) ds k d cs
      (sym (ap (λ p. lookup k p.0.devices) (enrol_all-cons s e ds c)) ∙ h)) [
        | inr (mem, same) ↦ inr (Memᴰ.tail mem, same)
        | inl found ↦ elim (Bool-cases (text_eq e.id k)) [
          | inl hit ↦
              let same : e ≡ d = ground (arith, lookup-insert e.id k e s.devices) in
              inr (Memᴰ.head (sym same), ap (λ x. x.id) (sym same) ∙ (text_eq_iff e.id k).0 hit)
          | inr miss ↦ inl (ground (arith, lookup-insert e.id k e s.devices))
        ]
      ]

-- Devices that all have an id and an organisation, with no id twice, are all enrolled in an empty
-- store: `EnrolAll` reports no error, and afterwards `Device` finds exactly them, each by its id.
pub device-enrol_all_iff :
    (ds : List Device) (k : Bytes) (d : Device)
    → All IsComplete ds
    → IsDistinct ds
    → ((enrol_all empty_store ds).1 ≡ ok tt)
      × ((device (enrol_all empty_store ds).0 k ≡ some d) ↔ (Memᴰ d ds × (d.id ≡ k)))
unfolding device
device-enrol_all_iff ds k d complete distinct =
    (enrol_all_succeeds empty_store ds complete, (to, from))
  where
    to : lookup k (enrol_all empty_store ds).0.devices ≡ some d → Memᴰ d ds × (d.id ≡ k)
    to h = elim (enrol_all_from empty_store ds k d complete h) [
      | inl none_there ↦ absurd (unfold empty_store lookup in ground arith)
      | inr found ↦ found
    ]

    from : Memᴰ d ds × (d.id ≡ k) → lookup k (enrol_all empty_store ds).0.devices ≡ some d
    from (mem, same) =
        subst (λ x. lookup x (enrol_all empty_store ds).0.devices ≡ some d) same
          (enrol_all_has empty_store ds d complete distinct mem)
