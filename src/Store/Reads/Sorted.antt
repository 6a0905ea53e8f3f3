-- ===== src/Store/Reads/Sorted.antt =====
-- internal/store/store.go: `Fleet` sorts by id, and the ids are distinct.
use mathlib.Core.List.{Memᴰ}
use enisa_sbd_example.Common.{
  ◌≡◌, ◌≢◌, ◌⊎◌, ◌↔◌, inl, inr, refl, sym, ap₂, subst, List, [], ◌∷◌, true, text_lt, text_lt_irrefl,
  text_lt_trans, text_lt_total, Bool-cases, All, arith,
}
use enisa_sbd_example.Store.Model.{Device}
use enisa_sbd_example.Store.Reads.{insert_by_id, sort_by_id}

-- Each id is smaller than all that follow.
abbrev pub IsAscending : List Device → Type 0
IsAscending [] = Unit
IsAscending (d ∷ ds) = All (λ e. text_lt d.id e.id ≡ true) ds × IsAscending ds

abbrev pub IsDistinct : List Device → Type 0
IsDistinct [] = Unit
IsDistinct (d ∷ ds) = All (λ e. e.id ≢ d.id) ds × IsDistinct ds

All-insert_by_id :
    (P : Device → Type 0) (d : Device) (ds : List Device)
    → P d
    → All P ds
    → All P (insert_by_id d ds)
unfolding insert_by_id
All-insert_by_id P d [] p h = (p, tt)
All-insert_by_id P d (e ∷ ds) p (q, h) = elim (Bool-cases (text_lt e.id d.id)) [
  | inl before ↦ rw before (q, All-insert_by_id P d ds p h)
  | inr behind ↦ rw behind (p, (q, h))
]

All-sort_by_id : (P : Device → Type 0) (ds : List Device) → All P ds → All P (sort_by_id ds)
unfolding sort_by_id
All-sort_by_id P [] h = tt
All-sort_by_id P (d ∷ ds) (p, h) = All-insert_by_id P d (sort_by_id ds) p (All-sort_by_id P ds h)

-- Whatever is above `e` is above a smaller `d`.
All-below :
    (d e : Device) (ds : List Device)
    → text_lt d.id e.id ≡ true
    → All (λ x. text_lt e.id x.id ≡ true) ds
    → All (λ x. text_lt d.id x.id ≡ true) ds
All-below d e [] h _ = tt
All-below d e (x ∷ ds) h (k, ks) = (text_lt_trans d.id e.id x.id h k, All-below d e ds h ks)

insert_by_id-IsAscending :
    (d : Device) (ds : List Device)
    → All (λ e. e.id ≢ d.id) ds
    → IsAscending ds
    → IsAscending (insert_by_id d ds)
unfolding insert_by_id
insert_by_id-IsAscending d [] _ _ = (tt, tt)
insert_by_id-IsAscending d (e ∷ ds) (ne, nes) (above, h) = elim (Bool-cases (text_lt e.id d.id)) [
  | inl before ↦ rw before (
    All-insert_by_id (λ x. text_lt e.id x.id ≡ true) d ds before above,
    insert_by_id-IsAscending d ds nes h,
  )
  | inr behind ↦
      let smaller : text_lt d.id e.id ≡ true = ground (arith, text_lt_total d.id e.id) in
      rw behind ((smaller, All-below d e ds smaller above), (above, h))
]

pub sort_by_id-IsAscending : (ds : List Device) → IsDistinct ds → IsAscending (sort_by_id ds)
unfolding sort_by_id
sort_by_id-IsAscending [] _ = tt
sort_by_id-IsAscending (d ∷ ds) (ne, h) =
    insert_by_id-IsAscending d (sort_by_id ds) (All-sort_by_id (λ e. e.id ≢ d.id) ds ne)
      (sort_by_id-IsAscending ds h)

mem_past : (x d e : Device) (ds : List Device) → Memᴰ x (d ∷ ds) → Memᴰ x (d ∷ e ∷ ds)
mem_past x d e ds (Memᴰ.head same) = Memᴰ.head same
mem_past x d e ds (Memᴰ.tail h) = Memᴰ.tail (Memᴰ.tail h)

-- Moving `d` in front of `e`, where the list behind `e` has the elements of `d ∷ ds`.
mem_front :
    (x d e : Device) (ds inserted : List Device)
    → (Memᴰ x inserted → Memᴰ x (d ∷ ds))
    → Memᴰ x (e ∷ inserted)
    → Memᴰ x (d ∷ e ∷ ds)
mem_front x d e ds inserted to (Memᴰ.head same) = Memᴰ.tail (Memᴰ.head same)
mem_front x d e ds inserted to (Memᴰ.tail h) = mem_past x d e ds (to h)

mem_behind :
    (x d e : Device) (ds inserted : List Device)
    → (Memᴰ x (d ∷ ds) → Memᴰ x inserted)
    → Memᴰ x (d ∷ e ∷ ds)
    → Memᴰ x (e ∷ inserted)
mem_behind x d e ds inserted from (Memᴰ.head same) = Memᴰ.tail (from (Memᴰ.head same))
mem_behind x d e ds inserted from (Memᴰ.tail (Memᴰ.head same)) = Memᴰ.head same
mem_behind x d e ds inserted from (Memᴰ.tail (Memᴰ.tail h)) = Memᴰ.tail (from (Memᴰ.tail h))

mem-insert_by_id : (x d : Device) (ds : List Device) → Memᴰ x (insert_by_id d ds) ↔ Memᴰ x (d ∷ ds)
unfolding insert_by_id
mem-insert_by_id x d [] = (λ h. h, λ h. h)
mem-insert_by_id x d (e ∷ ds) = elim (Bool-cases (text_lt e.id d.id)) [
  | inr behind ↦ rw behind (λ h. h, λ h. h)
  | inl before ↦
      let ih = mem-insert_by_id x d ds in
      rw before
        (mem_front x d e ds (insert_by_id d ds) ih.0, mem_behind x d e ds (insert_by_id d ds) ih.1)
]

mem_cons :
    (x d : Device) (ds es : List Device)
    → (Memᴰ x ds → Memᴰ x es)
    → Memᴰ x (d ∷ ds)
    → Memᴰ x (d ∷ es)
mem_cons x d ds es f (Memᴰ.head same) = Memᴰ.head same
mem_cons x d ds es f (Memᴰ.tail h) = Memᴰ.tail (f h)

pub mem-sort_by_id : (x : Device) (ds : List Device) → Memᴰ x (sort_by_id ds) ↔ Memᴰ x ds
unfolding sort_by_id
mem-sort_by_id x [] = (λ h. h, λ h. h)
mem-sort_by_id x (d ∷ ds) =
    let (to, from) = mem-sort_by_id x ds in
    let (out, into) = mem-insert_by_id x d (sort_by_id ds) in
    (
      λ h. mem_cons x d (sort_by_id ds) ds to (out h),
      λ h. into (mem_cons x d ds (sort_by_id ds) from h),
    )

-- Ascending lists with the same elements are equal.
All-mem : (P : Device → Type 0) (x : Device) (ds : List Device) → All P ds → Memᴰ x ds → P x
All-mem P x [] _ m = elim m [ ]
All-mem P x (d ∷ ds) (p, h) (Memᴰ.head same) = subst P (sym same) p
All-mem P x (d ∷ ds) (p, h) (Memᴰ.tail m) = All-mem P x ds h m

mem_uncons : (x d : Device) (ds : List Device) → Memᴰ x (d ∷ ds) → (x ≡ d) ⊎ Memᴰ x ds
mem_uncons x d ds (Memᴰ.head same) = inl same
mem_uncons x d ds (Memᴰ.tail m) = inr m

heads_eq :
    (d e : Device) (ds es : List Device)
    → IsAscending (d ∷ ds)
    → IsAscending (e ∷ es)
    → Memᴰ d (e ∷ es)
    → Memᴰ e (d ∷ ds)
    → d ≡ e
heads_eq d e ds es (a, _) (b, _) m n = elim (mem_uncons d e es m) [
  | inl same ↦ same
  | inr later ↦ elim (mem_uncons e d ds n) [
    | inl same ↦ sym same
    | inr behind ↦
        let below = All-mem (λ x. text_lt e.id x.id ≡ true) d es b later in
        let above = All-mem (λ x. text_lt d.id x.id ≡ true) e ds a behind in
        absurd (ground (arith, text_lt_trans d.id e.id d.id, text_lt_irrefl d.id))
  ]
]

mem_tail :
    (d x : Device) (ds es : List Device)
    → IsAscending (d ∷ ds)
    → Memᴰ x ds
    → Memᴰ x (d ∷ es)
    → Memᴰ x es
mem_tail d x ds es (a, _) m n = elim (mem_uncons x d es n) [
  | inr h ↦ h
  | inl same ↦
      let above = All-mem (λ y. text_lt d.id y.id ≡ true) x ds a m in
      absurd (ground (arith, text_lt_irrefl d.id))
]

pub ascending_unique :
    (ds es : List Device)
    → IsAscending ds
    → IsAscending es
    → ((x : Device) → Memᴰ x ds → Memᴰ x es)
    → ((x : Device) → Memᴰ x es → Memᴰ x ds)
    → ds ≡ es
ascending_unique [] [] _ _ _ _ = refl
ascending_unique [] (e ∷ es) _ _ _ from = elim (from e (Memᴰ.head refl)) [ ]
ascending_unique (d ∷ ds) [] _ _ to _ = elim (to d (Memᴰ.head refl)) [ ]
ascending_unique (d ∷ ds) (e ∷ es) (a, as') (b, bs) to from =
    let same =
      heads_eq d e ds es (a, as') (b, bs) (to d (Memᴰ.head refl)) (from e (Memᴰ.head refl)) in
    ap₂ (◌∷◌) same (
      ascending_unique ds es as' bs
        (λ x m.
          mem_tail d x ds es (a, as') m
            (subst (λ h. Memᴰ x (h ∷ es)) (sym same) (to x (Memᴰ.tail m))))
        (λ x m.
          mem_tail e x es ds (b, bs) m (subst (λ h. Memᴰ x (h ∷ ds)) same (from x (Memᴰ.tail m)))))
