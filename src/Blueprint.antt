-- ===== src/Blueprint.antt =====
-- What the circuits use of `BlueprintFieldType`, which is not part of the repository: the prime
-- field `value_type` of the witness columns and the unsigned integers `integral_type`.
-- An `integral_type` is held as its value, a number below 2 ^ integral_bits; it wraps.
use evm_assigner.Base.{ℕ, ◌+◌, ◌*◌, ◌-◌, ◌/◌, ◌%◌, ◌^◌, ◌≤◌, ◌<◌, ◌≡◌, ◌↔◌, Bool, true}
use Prim.Native.Nat.{bit_and}

pub record Blueprint (F : Type 0) : Type 0 where
  pub integral_bits : ℕ
  -- The conversion of an integer to an element, also of `uint8_t`, `size_t` and `bool`.
  pub element : ℕ → F
  pub eqb : F → F → Bool
  pub add : F → F → F
  pub sub : F → F → F
  pub mul : F → F → F
  pub div : F → F → F

-- Documented behaviour: `==` decides equality; integers below 2 ^ 128, which is less than the
-- modulus, convert without loss, and their differences are those of the numbers.
pub record IsBlueprint {F : Type 0} (field : Blueprint F) : Type 0 where
  pub eqb_iff : (a b : F) → (field.eqb a b ≡ true) ↔ (a ≡ b)
  pub element-injective :
      (a b : ℕ) → a < 2 ^ 128 → b < 2 ^ 128 → field.element a ≡ field.element b → a ≡ b
  pub sub-element :
      (a b : ℕ) → b ≤ a → field.sub (field.element a) (field.element b) ≡ field.element (a - b)

-- The operators of an `integral_type` of `w` bits.
abbrev pub integral : ℕ → ℕ → ℕ
integral w n = n % 2 ^ w

abbrev pub integral_shl : ℕ → ℕ → ℕ → ℕ
integral_shl w a k = integral w (a * 2 ^ k)

abbrev pub integral_add : ℕ → ℕ → ℕ → ℕ
integral_add w a b = integral w (a + b)

abbrev pub integral_shr : ℕ → ℕ → ℕ
integral_shr a k = a / 2 ^ k

abbrev pub integral_and : ℕ → ℕ → ℕ
integral_and a b = bit_and a b
