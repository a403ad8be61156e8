-- ===== src/Base/Bits.antt =====
-- `bit_and` with a mask of consecutive bits, as arithmetic, at every offset.
use Prim.Native.Nat.{
  ℕ, zero, suc, ◌+◌, ◌*◌, ◌/◌, ◌%◌, ◌^◌, ◌-◌, ◌≤◌, min, bit_and, digits, bit_and-bitwise,
}
use mathlib.Core.Path.{◌≡◌, refl, ap, sym, ◌∙◌}
use native.Mathlib.Nat.{
  pow-suc, one-le-pow, mul_comm, div-div-eq-div-mul, div-add-mod, mod-one, mul-one, div-one,
}
use native.Mathlib.Omega.{arith}

-- What `bit_and` stands for: the digits of both numbers, with fuel.
abbrev common_digits : ℕ → ℕ → ℕ → ℕ
common_digits fuel v mask = digits (λ rest. 0) min fuel v mask

one_more :
    (fuel v mask : ℕ) → v ≤ fuel → common_digits (suc fuel) v mask ≡ common_digits fuel v mask
one_more zero zero mask h = refl
one_more zero (suc v) mask h = absurd (omega arith)
one_more (suc fuel) zero mask h = refl
one_more (suc fuel) (suc v) mask h =
    omega (arith, one_more fuel (suc v / 2) (mask / 2) (omega arith))

spare_fuel :
    (spare fuel v mask : ℕ) → fuel ≡ v + spare → common_digits fuel v mask ≡ common_digits v v mask
spare_fuel zero fuel v mask e = ap (λ (n : ℕ). common_digits n v mask) (omega (arith, e))
spare_fuel (suc spare) zero v mask e = absurd (omega (arith, e))
spare_fuel (suc spare) (suc fuel) v mask e =
    one_more fuel v mask (omega (arith, e)) ∙ spare_fuel spare fuel v mask (omega (arith, e))

-- The lowest binary digit.
pub bit_and_step :
    (v mask : ℕ) → bit_and v mask ≡ bit_and (v / 2) (mask / 2) * 2 + min (v % 2) (mask % 2)
bit_and_step zero mask = omega (arith, bit_and-bitwise 0 mask, bit_and-bitwise 0 (mask / 2))
bit_and_step (suc v) mask = omega (
  arith,
  spare_fuel (v - suc v / 2) v (suc v / 2) (mask / 2) (omega arith),
  bit_and-bitwise (suc v / 2) (mask / 2),
  bit_and-bitwise (suc v) mask,
)

-- No digit is common with 0, for as many digits as `bound` allows.
none_common : (bound v : ℕ) → v ≤ bound → bit_and v 0 ≡ 0
none_common zero v h = rw (small v h) (bit_and-bitwise 0 0)
  where
    small : (v : ℕ) → v ≤ 0 → v ≡ 0
    small v h = omega arith
none_common (suc bound) zero h = bit_and-bitwise 0 0
none_common (suc bound) (suc v) h =
    omega (arith, none_common bound (suc v / 2) (omega arith), bit_and_step (suc v) 0)

pub bit_and-zero : (v : ℕ) → bit_and v 0 ≡ 0
bit_and-zero v = none_common v v (omega arith)

mask_half : (p : ℕ) → 1 ≤ p → (p * 2 - 1) / 2 ≡ p - 1
mask_half p h = omega arith

shifted_half : (m p : ℕ) → m * (p * 2) / 2 ≡ m * p
shifted_half m p = omega arith

pub div_double : (a p : ℕ) → a / (p * 2) ≡ a / 2 / p
div_double a p = rw (mul_comm p 2) (sym (div-div-eq-div-mul a 2 p))

pub mod_double : (a p : ℕ) → a % (p * 2) ≡ a / 2 % p * 2 + a % 2
mod_double a p = omega (
  arith,
  div-add-mod a (p * 2),
  div-add-mod (a / 2) p,
  ap (λ (t : ℕ). p * 2 * t) (div_double a p),
)

-- A mask of low bits is the remainder.
pub bit_and_mask : (k a : ℕ) → bit_and a (2 ^ k - 1) ≡ a % 2 ^ k
bit_and_mask zero a = omega (arith, bit_and-zero a, mod-one a)
bit_and_mask (suc k) a =
    rw (pow-suc 2 k, mod_double a (2 ^ k))
      (omega (
        arith,
        bit_and_step a (2 ^ k * 2 - 1),
        bit_and_mask k (a / 2),
        one-le-pow k 2 (omega arith),
        ap (bit_and (a / 2)) (mask_half (2 ^ k) (one-le-pow k 2 (omega arith))),
      ))

-- A mask shifted up by `k` keeps the field of the bits above `k`.
pub bit_and_shifted : (k m a : ℕ) → bit_and a (m * 2 ^ k) ≡ bit_and (a / 2 ^ k) m * 2 ^ k
bit_and_shifted zero m a = rw (mul-one m, div-one a) (omega arith)
bit_and_shifted (suc k) m a =
    rw (pow-suc 2 k, div_double a (2 ^ k))
      (omega (
        arith,
        bit_and_step a (m * (2 ^ k * 2)),
        bit_and_shifted k m (a / 2),
        ap (bit_and (a / 2)) (shifted_half m (2 ^ k)),
      ))
