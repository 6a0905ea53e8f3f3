-- ===== src/Startup/Flags/Required.antt =====
-- cmd: flags that were accepted.
use enisa_sbd_example.Common.{
  ◌≡◌, ◌≢◌, subst, List, [], ◌∷◌, Option, none, some, Bytes, All, ok, arith, Result-cases, inl, inr,
}
use enisa_sbd_example.Startup.Flags.{check_required, flags_of}

check_required-ok : (vs : List Bytes) → check_required vs ≡ ok tt → All (λ v. v ≢ []) vs
unfolding check_required
check_required-ok [] h = tt
check_required-ok ([] ∷ vs) h = cc
check_required-ok ((c ∷ v) ∷ vs) h = ((λ e. cc), check_required-ok vs (ground (arith, h)))

-- The flags are those that were parsed, and every required one has a value.
pub flags_of-ok :
    {F : Type 0} (required : F → List Bytes) (parsed : Option F) (flags : F)
    → flags_of required parsed ≡ ok flags
    → (parsed ≡ some flags) × All (λ v. v ≢ []) (required flags)
unfolding flags_of
flags_of-ok required none flags h = cc
flags_of-ok required (some f) flags h = elim (Result-cases (check_required (required f))) [
  | inr (e, bad) ↦ cc
  | inl (tt, fine) ↦
      let same : ok f ≡ ok flags = rw fine at h in
      let as_given : f ≡ flags = cc in
      (
        cc,
        subst (λ g. All (λ v. v ≢ []) (required g)) as_given (check_required-ok (required f) fine),
      )
]
