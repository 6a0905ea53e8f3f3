-- ===== src/Common/Results.antt =====
-- Go's `(value, error)` pairs: a value, or an error of the component's own type.
use mathlib.Core.Path.{◌≡◌, refl}
use mathlib.Core.Bool.{Bool, true, false}
use mathlib.Core.Logic.{◌⊎◌, inl, inr}

pub data Result {ℓ} (E : Type 0) (A : Type ℓ) : Type ℓ where
  ok : A → Result E A
  err : E → Result E A

infixl 5 ◌>>=◌ ◌>>◌
abbrev pub ◌>>=◌ {ℓ κ} :
    {E : Type 0} {A : Type ℓ} {B : Type κ} → Result E A → (A → Result E B) → Result E B
ok a >>= f = f a
err e >>= f = err e

abbrev pub ◌>>◌ {ℓ} : {E : Type 0} {B : Type ℓ} → Result E (Unit {0}) → Result E B → Result E B
m >> k = m >>= λ _. k

-- `if bad { return err }`
abbrev pub refuse_if : {E : Type 0} → Bool → E → Result E (Unit {0})
refuse_if true e = err e
refuse_if false e = ok tt

-- An error that the caller wraps.
abbrev pub map_err {ℓ} : {E F : Type 0} {A : Type ℓ} → (E → F) → Result E A → Result F A
map_err f (ok a) = ok a
map_err f (err e) = err (f e)

-- `err == nil`
abbrev pub is_ok {ℓ} : {E : Type 0} {A : Type ℓ} → Result E A → Bool
is_ok (ok a) = true
is_ok (err e) = false

pub Result-cases {ℓ} :
    {E : Type 0} {A : Type ℓ} (r : Result E A) → ((a : A) × (r ≡ ok a)) ⊎ ((e : E) × (r ≡ err e))
Result-cases (ok a) = inl (a, refl)
Result-cases (err e) = inr (e, refl)

-- What a do block that succeeded did first.
pub bind-ok {ℓ κ} :
    {E : Type 0} {A : Type ℓ} {B : Type κ} {out : B} (x : Result E A) (k : A → Result E B)
    → (x >>= k) ≡ ok out
    → (v : A) × (x ≡ ok v) × (k v ≡ ok out)
bind-ok (err bad) k made = cc
bind-ok (ok v) k made = (v, refl, made)

-- Inversion of four steps that all succeed.
pub four_steps {ℓ} :
    {E : Type 0} {A : Type ℓ} (m : Result E A) (f g h : A → Result E A) {d : A}
    → (m >>= λ a. f a >>= λ b. g b >>= h) ≡ ok d
    → (a : A) × (b : A) × (c : A) × (m ≡ ok a) × (f a ≡ ok b) × (g b ≡ ok c) × (h c ≡ ok d)
four_steps m f g h e =
    let (a, e₁, r₁) = bind-ok m (λ a. f a >>= λ b. g b >>= h) e in
    let (b, e₂, r₂) = bind-ok (f a) (λ b. g b >>= h) r₁ in
    let (c, e₃, r₃) = bind-ok (g b) h r₂ in (a, b, c, e₁, e₂, e₃, r₃)

pub map_err-ok {ℓ} :
    {E F : Type 0} {A : Type ℓ} {a : A} (f : E → F) (r : Result E A) → map_err f r ≡ ok a → r ≡ ok a
map_err-ok f (ok b) h = cc
map_err-ok f (err e) h = cc
