-- ===== src/Word/Limbs.antt =====
-- The conversions of zkevm_word.hpp that go over the four 64-bit words of a value.
use evm_assigner.Base.{ℕ, ◌+◌, ◌*◌, ◌/◌, ◌%◌, ◌^◌, ◌≤◌, ◌<◌, ◌≡◌, arith, ap, ◌∙◌}
use evm_assigner.Blueprint.{integral, integral_shl, integral_add, integral_and}
use evm_assigner.Intx.{Intx, IsIntx}
use evm_assigner.Word.{w_hi, w_lo, to_field_as_address, and_integral}
use native.Mathlib.Nat.{mod-eq_of_lt, pow-le-pow_right}

-- A number of at most `k` bits is not changed by an integer type of `w ≥ k` bits.
pub integral_fits : (k w n : ℕ) → k ≤ w → n < 2 ^ k → n % 2 ^ w ≡ n
integral_fits k w n wide fits =
    mod-eq_of_lt (omega (arith, pow-le-pow_right {n = 2} (omega arith) wide))

-- Adding a word that stands above the sum so far loses nothing.
integral_add_shl :
    (k w low x : ℕ)
    → k + 64 ≤ w
    → low < 2 ^ k
    → x < 2 ^ 64
    → x * 2 ^ k + low < 2 ^ (k + 64)
    → integral_add w low (integral_shl w x k) ≡ x * 2 ^ k + low
integral_add_shl k w low x wide low_fits x_fits sum_fits =
    rw (integral_fits (k + 64) w (x * 2 ^ k) wide (omega arith))
      (omega (arith, integral_fits (k + 64) w (low + x * 2 ^ k) wide (omega arith)))

integral_shl_add :
    (w hi lo : ℕ)
    → 128 ≤ w
    → hi < 2 ^ 64
    → lo < 2 ^ 64
    → integral_add w (integral_shl w hi 64) lo ≡ hi * 2 ^ 64 + lo
integral_shl_add w hi lo wide hi_fits lo_fits =
    rw (integral_fits 128 w (hi * 2 ^ 64) wide (omega arith))
      (integral_fits 128 w (hi * 2 ^ 64 + lo) wide (omega arith))

module _ ⦃intx : Intx⦄ (laws : IsIntx intx) (w v : ℕ) where
  word_0 : intx.word v 0 ≡ v % 2 ^ 64
  word_0 = omega (arith, laws.word_lem v 0)

  word_1 : intx.word v 1 ≡ v / 2 ^ 64 % 2 ^ 64
  word_1 = laws.word_lem v 1

  word_2 : intx.word v 2 ≡ v / 2 ^ 128 % 2 ^ 64
  word_2 = laws.word_lem v 2

  word_3 : intx.word v 3 ≡ v / 2 ^ 192 % 2 ^ 64
  word_3 = laws.word_lem v 3

  -- Whatever the width of the value.
  pub w_hi_mod : 128 ≤ w → w_hi w v ≡ v / 2 ^ 128 % 2 ^ 128
  unfolding w_hi
  w_hi_mod wide =
      rw
        (
          word_3,
          word_2,
          integral_shl_add w (v / 2 ^ 192 % 2 ^ 64) (v / 2 ^ 128 % 2 ^ 64) wide (omega arith)
              (omega arith),
        )
        (omega arith)

  pub w_hi_lem : 128 ≤ w → v < 2 ^ 256 → w_hi w v ≡ v / 2 ^ 128
  w_hi_lem wide h = w_hi_mod wide ∙ omega arith

  pub w_lo_lem : 128 ≤ w → w_lo w v ≡ v % 2 ^ 128
  unfolding w_lo
  w_lo_lem wide =
      rw
        (
          word_1,
          word_0,
          integral_shl_add w (v / 2 ^ 64 % 2 ^ 64) (v % 2 ^ 64) wide (omega arith) (omega arith),
        )
        (omega arith)

  -- The low three words, added up, are the value below 2 ^ 192.
  three_words :
      192 ≤ w
      → integral_add w
          (integral_add w (integral w (v % 2 ^ 64)) (integral_shl w (v / 2 ^ 64 % 2 ^ 64) 64))
          (integral_shl w (v / 2 ^ 128 % 2 ^ 64) 128)
        ≡ v % 2 ^ 192
  three_words wide =
      rw
        (
          integral_fits 64 w (v % 2 ^ 64) (omega arith) (omega arith),
          integral_add_shl 64 w (v % 2 ^ 64) (v / 2 ^ 64 % 2 ^ 64) (omega arith) (omega arith)
              (omega arith) (omega arith),
          integral_add_shl 128 w (v / 2 ^ 64 % 2 ^ 64 * 2 ^ 64 + v % 2 ^ 64) (v / 2 ^ 128 % 2 ^ 64)
              (omega arith) (omega arith) (omega arith) (omega arith),
        )
        (omega arith)

  -- In an integer type of at least 192 bits, to_field_as_address is the value modulo 2 ^ 192.
  pub to_field_as_address_lem : 192 ≤ w → to_field_as_address w v ≡ v % 2 ^ 192
  unfolding to_field_as_address
  to_field_as_address_lem wide = rw (word_0, word_1, word_2) (three_words wide)

  -- In an integer type of at least 256 bits, the sum of the shifted words that operator& takes is
  -- the whole 256-bit value, so that it masks that value.
  pub and_integral_lem :
      (mask : ℕ) → 256 ≤ w → v < 2 ^ 256 → and_integral w v mask ≡ integral_and v mask
  unfolding and_integral
  and_integral_lem mask wide h =
      rw (word_0, word_1, word_2, word_3, three_words (omega arith))
        (ap (λ (t : ℕ). integral_and t mask)
          (integral_add_shl 192 w (v % 2 ^ 192) (v / 2 ^ 192 % 2 ^ 64) wide (omega arith)
              (omega arith) (omega arith)
            ∙ omega arith))

-- In an integer type of at least 128 bits, w_hi and w_lo of a 256-bit value are below 2 ^ 128 and
-- together give the value back.
pub w_hi-w_lo :
    ⦃intx : Intx⦄ (laws : IsIntx intx) (w v : ℕ)
    → 128 ≤ w
    → v < 2 ^ 256
    → (w_hi w v < 2 ^ 128) × (w_lo w v < 2 ^ 128) × (w_hi w v * 2 ^ 128 + w_lo w v ≡ v)
w_hi-w_lo laws w v wide fits =
    rw (w_hi_lem laws w v wide fits, w_lo_lem laws w v wide) (omega arith, omega arith, omega arith)
