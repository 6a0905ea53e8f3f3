-- ===== src/Store/Reads/Fleet.antt =====
-- internal/store/store.go: `Fleet` returns the caller's devices, all of them and no others.
use mathlib.Core.List.{Memᴰ}
use enisa_sbd_example.Common.{
  ◌≡◌, ◌≢◌, inl, inr, sym, ap, ap₂, subst, ◌∙◌, List, [], ◌∷◌, some, none, Bytes, true, text_eq,
  text_eq_iff, Bool-cases, All, Map, lookup, ok, Result-cases, arith,
}
use enisa_sbd_example.Common.Maps.Keys.{HasDistinctKeys, AllEntries, lookup-Memᴰ, Memᴰ-lookup}
use enisa_sbd_example.Store.Model.{Device, Store}
use enisa_sbd_example.Store.Scope.{Scope, org_of}
use enisa_sbd_example.Store.Invariant.{IsEnrolled, IsValid}
use enisa_sbd_example.Store.Reads.{of_org, sort_by_id, fleet}
use enisa_sbd_example.Store.Reads.Sorted.{
  IsAscending, IsDistinct, sort_by_id-IsAscending, mem-sort_by_id, ascending_unique,
}

module _ (org : Bytes) where
  mem-of_org_own :
      (d e : Device) (k : Bytes) (m : Map Device)
      → IsEnrolled k e
      → text_eq e.org_id org ≡ true
      → (Memᴰ d (of_org org m) → (d.org_id ≡ org) × Memᴰ (d.id, d) m)
      → Memᴰ d (e ∷ of_org org m)
      → (d.org_id ≡ org) × Memᴰ (d.id, d) ((k, e) ∷ m)
  mem-of_org_own d e k m ok_e own rest (Memᴰ.head same) = (
    ap (λ x. x.org_id) same ∙ (text_eq_iff e.org_id org).0 own,
    Memᴰ.head (ap₂ (λ i x. (i, x)) (ap (λ x. x.id) same ∙ ok_e.0) same),
  )
  mem-of_org_own d e k m ok_e own rest (Memᴰ.tail h) = let (o, mem) = rest h in (o, Memᴰ.tail mem)

  mem-of_org_to :
      (d : Device) (m : Map Device)
      → AllEntries IsEnrolled m
      → Memᴰ d (of_org org m)
      → (d.org_id ≡ org) × Memᴰ (d.id, d) m
  unfolding of_org
  mem-of_org_to d [] _ h = elim h [ ]
  mem-of_org_to d ((k, e) ∷ m) (ok_e, ok_m) h = elim (Bool-cases (text_eq e.org_id org)) [
    | inl own ↦ mem-of_org_own d e k m ok_e own (mem-of_org_to d m ok_m) (rw own at h)
    | inr other ↦ let (o, mem) = mem-of_org_to d m ok_m (rw other at h) in (o, Memᴰ.tail mem)
  ]

  mem-of_org_from :
      (d : Device) (m : Map Device)
      → AllEntries IsEnrolled m
      → d.org_id ≡ org
      → Memᴰ (d.id, d) m
      → Memᴰ d (of_org org m)
  unfolding of_org
  mem-of_org_from d [] _ own h = elim h [ ]
  mem-of_org_from d ((k, e) ∷ m) (ok_e, ok_m) own (Memᴰ.head same) =
      let same_device : d ≡ e = ap (λ p. p.1) same in
      let is_own : text_eq e.org_id org ≡ true =
        (text_eq_iff _ _).1 (subst (λ x. x.org_id ≡ org) same_device own) in
      rw is_own (Memᴰ.head same_device)
  mem-of_org_from d ((k, e) ∷ m) (ok_e, ok_m) own (Memᴰ.tail h) =
      elim (Bool-cases (text_eq e.org_id org)) [
        | inl yes_own ↦ rw yes_own (Memᴰ.tail (mem-of_org_from d m ok_m own h))
        | inr other ↦ rw other (mem-of_org_from d m ok_m own h)
      ]

  -- A key that is absent from the map is no device's id.
  of_org-avoids :
      (k : Bytes) (m : Map Device)
      → AllEntries IsEnrolled m
      → lookup k m ≡ none
      → All (λ e. e.id ≢ k) (of_org org m)
  unfolding of_org lookup
  of_org-avoids k [] _ _ = tt
  of_org-avoids k ((j, e) ∷ m) ((same_id, _, _), ok_m) absent = elim (Bool-cases (text_eq j k)) [
    | inl hit ↦ absurd (ground arith)
    | inr miss ↦
        let rest = of_org-avoids k m ok_m (ground arith) in
        elim (Bool-cases (text_eq e.org_id org)) [
          | inl own ↦ rw own (λ h. ground (arith, text_eq_iff j k), rest)
          | inr other ↦ rw other rest
        ]
  ]

  of_org-IsDistinct :
      (m : Map Device) → AllEntries IsEnrolled m → HasDistinctKeys m → IsDistinct (of_org org m)
  unfolding of_org
  of_org-IsDistinct [] _ _ = tt
  of_org-IsDistinct ((k, e) ∷ m) ((same_id, _, _), ok_m) (absent, d) =
      elim (Bool-cases (text_eq e.org_id org)) [
        | inl own ↦ rw own (
          subst (λ i. All (λ x. x.id ≢ i) (of_org org m)) (sym same_id)
              (of_org-avoids k m ok_m absent),
          of_org-IsDistinct m ok_m d,
        )
        | inr other ↦ rw other (of_org-IsDistinct m ok_m d)
      ]

-- What the caller of `Fleet` is shown.
pub record IsFleet (s : Store) (org : Bytes) (ds : List Device) : Type 0 where
  pub ascending : IsAscending ds
  pub only_own : (d : Device) → Memᴰ d ds → (d.org_id ≡ org) × (lookup d.id s.devices ≡ some d)
  pub all_own : (d : Device) → d.org_id ≡ org → lookup d.id s.devices ≡ some d → Memᴰ d ds

fleet-ok :
    (s : Store) (sc : Scope) (org : Bytes)
    → org_of sc ≡ ok org
    → fleet s sc ≡ ok (sort_by_id (of_org org s.devices))
unfolding fleet
fleet-ok s sc org h = rw h

of_org-IsFleet :
    (s : Store) (org : Bytes) → IsValid s → IsFleet s org (sort_by_id (of_org org s.devices))
of_org-IsFleet s org v = record {
  ascending = sort_by_id-IsAscending _ (of_org-IsDistinct org s.devices v.enrolled v.distinct);
  only_own = λ d mem.
      let (own, entry) = mem-of_org_to org d s.devices v.enrolled ((mem-sort_by_id d _).0 mem) in
      (own, Memᴰ-lookup d.id d s.devices v.distinct entry);
  all_own = λ d own found.
      (mem-sort_by_id d _).1
        (mem-of_org_from org d s.devices v.enrolled own (lookup-Memᴰ d.id d s.devices found));
}

-- In a valid store, `Fleet` for a scope with an organisation succeeds. It returns exactly the
-- devices of that organisation, each once, in ascending order of their ids.
pub fleet-IsFleet :
    (s : Store) (sc : Scope) (org : Bytes)
    → IsValid s
    → org_of sc ≡ ok org
    → (ds : List Device) × (fleet s sc ≡ ok ds) × IsFleet s org ds
fleet-IsFleet s sc org v h =
    (sort_by_id (of_org org s.devices), fleet-ok s sc org h, of_org-IsFleet s org v)

IsFleet-unique :
    (s t : Store) (org : Bytes) (ds es : List Device)
    → ((k : Bytes) → lookup k s.devices ≡ lookup k t.devices)
    → IsFleet s org ds
    → IsFleet t org es
    → ds ≡ es
IsFleet-unique s t org ds es agree f g =
    ascending_unique ds es f.ascending g.ascending
      (λ d mem. let (own, found) = f.only_own d mem in g.all_own d own (sym (agree d.id) ∙ found))
      (λ d mem. let (own, found) = g.only_own d mem in f.all_own d own (agree d.id ∙ found))

-- The order in which the map is traversed does not show: two valid stores that give the same device
-- for every id give the same fleet for every scope.
fleet_order_free :
    (s t : Store) (sc : Scope)
    → IsValid s
    → IsValid t
    → ((k : Bytes) → lookup k s.devices ≡ lookup k t.devices)
    → fleet s sc ≡ fleet t sc
fleet_order_free s t sc v w agree = elim (Result-cases (org_of sc)) [
  | inl (org, h) ↦
      fleet-ok s sc org h
      ∙ ap ok (IsFleet-unique s t org _ _ agree (of_org-IsFleet s org v) (of_org-IsFleet t org w))
      ∙ sym (fleet-ok t sc org h)
  | inr (e, h) ↦ unfold fleet in rw h
]
