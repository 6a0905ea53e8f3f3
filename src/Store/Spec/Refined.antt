-- ===== src/Store/Spec/Refined.antt =====
-- internal/store: the store keeps what the specification promises.
use enisa_sbd_example.Common.{
  ◌≡◌, ◌↔◌, refl, sym, ap, ap₂, subst, ◌∙◌, List, [], ◌∷◌, Option, Bytes,
}
use enisa_sbd_example.Store.Model.{Device, Store, empty_store}
use enisa_sbd_example.Store.Scope.{nil_scope, org_scope}
use enisa_sbd_example.Store.Reads.Sorted.{ascending_unique}
use enisa_sbd_example.Store.Calls.{
  Call, enrolling, recording, logging, asking_device, asking_fleet, asking_readings, asking_audit,
  Answer, devices, call, calls,
}
use enisa_sbd_example.Store.Spec.Held.{Holds, no_rows-Holds}
use enisa_sbd_example.Store.Spec.{Rows, no_rows, rows_after, IsFleetOf, Promised, Meets}
use enisa_sbd_example.Store.Spec.Kept.{call-Keeps}

calls-Meets_from : (s : Store) (w : Rows) (cs : List Call) → Holds s w → Meets w cs (calls s cs).1
unfolding calls
calls-Meets_from s w [] h = tt
calls-Meets_from s w (c ∷ cs) h =
    let (kept, later) = call-Keeps s w c h in
    (kept, calls-Meets_from (call s c).0 (rows_after w c) cs later)

IsFleetOf-unique :
    (at : Bytes → Option Device) (org : Bytes) (ds es : List Device)
    → IsFleetOf at org ds
    → IsFleetOf at org es
    → ds ≡ es
IsFleetOf-unique at org ds es f g =
    ascending_unique ds es f.in_order g.in_order (λ d mem. (g.members d).1 ((f.members d).0 mem))
      (λ d mem. (f.members d).1 ((g.members d).0 mem))

Promised-unique : (w : Rows) (c : Call) (a b : Answer) → Promised w c a → Promised w c b → a ≡ b
Promised-unique w (enrolling d) a b p q = p ∙ sym q
Promised-unique w (recording now id r) a b p q = p ∙ sym q
Promised-unique w (logging now sc e) a b p q = p ∙ sym q
Promised-unique w (asking_device id) a b p q = p ∙ sym q
Promised-unique w (asking_fleet nil_scope) a b p q = p ∙ sym q
Promised-unique w (asking_fleet (org_scope [])) a b p q = p ∙ sym q
Promised-unique w (asking_fleet (org_scope (c ∷ org))) a b (ds, p, f) (es, q, g) =
    p ∙ ap devices (IsFleetOf-unique w.device_at (c ∷ org) ds es f g) ∙ sym q
Promised-unique w (asking_readings sc id limit) a b p q = p ∙ sym q
Promised-unique w (asking_audit sc prefix) a b p q = p ∙ sym q

Meets-unique :
    (w : Rows) (cs : List Call) (xs ys : List Answer) → Meets w cs xs → Meets w cs ys → xs ≡ ys
Meets-unique w [] [] [] p q = refl
Meets-unique w [] (_ ∷ _) _ p q = absurd p
Meets-unique w [] [] (_ ∷ _) p q = absurd q
Meets-unique w (_ ∷ _) [] _ p q = absurd p
Meets-unique w (_ ∷ _) (_ ∷ _) [] p q = absurd q
Meets-unique w (c ∷ cs) (a ∷ xs) (b ∷ ys) (p, ps) (q, qs) =
    ap₂ ◌∷◌ (Promised-unique w c a b p q) (Meets-unique (rows_after w c) cs xs ys ps qs)

-- A store refines the specification. For every list of calls on an empty store, the answers of the
-- store are the answers that the specification promises, and there are no others that it allows. The
-- specification keeps every reading, so that the store forgets old readings does not show: with at
-- most 1024 readings in an answer of `Readings`, the answers to `Device`, `Fleet`, `Readings` and
-- `Audit` are computed from all that was ever written.
pub calls-Meets :
    (cs : List Call) (xs : List Answer) → Meets no_rows cs xs ↔ (xs ≡ (calls empty_store cs).1)
calls-Meets cs xs =
    let right = calls-Meets_from empty_store no_rows cs no_rows-Holds in
    (
      (λ meets. Meets-unique no_rows cs xs (calls empty_store cs).1 meets right),
      (λ same. subst (Meets no_rows cs) (sym same) right),
    )
