-- ===== src/Eof/Inversion.antt =====
-- Chains of validations (lib/assigner/evmone/eof.cpp): what a chain that succeeds says of its
-- parts.
use evm_assigner.Base.{
  ◌≡◌, ◌≢◌, ◌⊎◌, refl, sym, ap, Option, none, some, Bool, true, false, inl, inr, arith,
}
use mathlib.Core.Path.{subst}
use mathlib.Core.Option.{none-ne-some, some-injective}
use evm_assigner.Eof.{and_then, EofValidationError, Validated, valid, invalid, ◌>>=◌, ◌>>◌, fail_if}

abbrev IsValid {ℓ} : {A : Type ℓ} → Validated A → Type 0
IsValid (valid a) = Unit {0}
IsValid (invalid e) = ⊥

pub invalid-ne-valid {ℓ} : {A : Type ℓ} {e : EofValidationError} {a : A} → invalid e ≢ valid a
invalid-ne-valid h = subst IsValid (sym h) tt

abbrev value_or {ℓ} : {A : Type ℓ} → A → Validated A → A
value_or d (valid a) = a
value_or d (invalid e) = d

pub valid-injective {ℓ} : {A : Type ℓ} {a b : A} → valid a ≡ valid b → a ≡ b
valid-injective {a = a} h = ap (value_or a) h

-- A guard that has passed was false, and what follows it succeeds alike.
pub fail_if-eq-valid {ℓ} :
    {B : Type ℓ} (b : Bool) (e : EofValidationError) (k : Validated B) {x : B}
    → (fail_if b e >> k) ≡ valid x
    → (b ≡ false) × (k ≡ valid x)
fail_if-eq-valid true e k h = absurd (invalid-ne-valid h)
fail_if-eq-valid false e k h = (refl, h)

pub fail_if-false {ℓ} :
    {B : Type ℓ} (b : Bool) (e : EofValidationError) (k : Validated B)
    → b ≡ false
    → (fail_if b e >> k) ≡ k
fail_if-false true e k h = absurd (ground arith)
fail_if-false false e k h = refl

pub >>=-eq-valid {ℓ κ} :
    {A : Type ℓ} {B : Type κ} (m : Validated A) (f : A → Validated B) {b : B}
    → (m >>= f) ≡ valid b
    → (a : A) × (m ≡ valid a) × (f a ≡ valid b)
>>=-eq-valid (valid a) f h = (a, refl, h)
>>=-eq-valid (invalid e) f h = absurd (invalid-ne-valid h)

pub Validated-cases {ℓ} :
    {A : Type ℓ} (v : Validated A)
    → ((e : EofValidationError) × (v ≡ invalid e)) ⊎ ((a : A) × (v ≡ valid a))
Validated-cases (valid a) = inr (a, refl)
Validated-cases (invalid e) = inl (e, refl)

pub and_then-eq-valid {ℓ κ} :
    {A : Type ℓ} {B : Type κ} (m : Option (Validated A)) (f : A → Option (Validated B)) {b : B}
    → and_then m f ≡ some (valid b)
    → (a : A) × (m ≡ some (valid a)) × (f a ≡ some (valid b))
and_then-eq-valid none f e = absurd (none-ne-some _ e)
and_then-eq-valid (some (invalid error)) f e = absurd (invalid-ne-valid (some-injective _ _ e))
and_then-eq-valid (some (valid a)) f e = (a, refl, e)

pub and_then-eq-none {ℓ κ} :
    {A : Type ℓ} {B : Type κ} (m : Option (Validated A)) (f : A → Option (Validated B))
    → and_then m f ≡ none
    → (m ≡ none) ⊎ ((a : A) × (m ≡ some (valid a)) × (f a ≡ none))
and_then-eq-none none f e = inl refl
and_then-eq-none (some (invalid error)) f e = absurd (none-ne-some _ (sym e))
and_then-eq-none (some (valid a)) f e = inr (a, refl, e)
