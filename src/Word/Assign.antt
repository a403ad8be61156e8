-- ===== src/Word/Assign.antt =====
-- What the assignment of one 64-bit word does to the value.
use evm_assigner.Base.{ℕ, zero, suc, ◌+◌, ◌*◌, ◌/◌, ◌^◌, ◌<◌, ◌≡◌, arith}
use evm_assigner.Intx.{Intx, IsIntx}

module _ ⦃intx : Intx⦄ (laws : IsIntx intx) where
  -- A word is the sum of its four parts.
  limbs :
      (v : ℕ)
      → v < 2 ^ 256
      → v
        ≡ intx.word v 0 + intx.word v 1 * 2 ^ 64 + intx.word v 2 * 2 ^ 128 + intx.word v 3 * 2 ^ 192
  limbs v h =
      rw (laws.word_lem v 0, laws.word_lem v 1, laws.word_lem v 2, laws.word_lem v 3) (omega arith)

  word-lt : (v i : ℕ) → intx.word v i < 2 ^ 64
  word-lt v i = omega (arith, laws.word_lem v i)

  -- From word `n` up, an assigned word stands below the words above it.
  pub set_word-div :
      (v n x : ℕ)
      → n < 4
      → x < 2 ^ 64
      → v < 2 ^ 256
      → intx.set_word v n x / 2 ^ (64 * n) ≡ v / 2 ^ (64 * suc n) * 2 ^ 64 + x
  set_word-div v zero x h hx hv = omega (
    arith,
    limbs v hv,
    limbs (intx.set_word v 0 x) (laws.set_word-lt v 0 x h hx hv),
    laws.set_word_lem v 0 0 x h hx,
    laws.set_word_lem v 0 1 x h hx,
    laws.set_word_lem v 0 2 x h hx,
    laws.set_word_lem v 0 3 x h hx,
    word-lt v 0,
    word-lt v 1,
    word-lt v 2,
    word-lt v 3,
  )
  set_word-div v (suc zero) x h hx hv = omega (
    arith,
    limbs v hv,
    limbs (intx.set_word v 1 x) (laws.set_word-lt v 1 x h hx hv),
    laws.set_word_lem v 1 0 x h hx,
    laws.set_word_lem v 1 1 x h hx,
    laws.set_word_lem v 1 2 x h hx,
    laws.set_word_lem v 1 3 x h hx,
    word-lt v 0,
    word-lt v 1,
    word-lt v 2,
    word-lt v 3,
  )
  set_word-div v (suc (suc zero)) x h hx hv = omega (
    arith,
    limbs v hv,
    limbs (intx.set_word v 2 x) (laws.set_word-lt v 2 x h hx hv),
    laws.set_word_lem v 2 0 x h hx,
    laws.set_word_lem v 2 1 x h hx,
    laws.set_word_lem v 2 2 x h hx,
    laws.set_word_lem v 2 3 x h hx,
    word-lt v 0,
    word-lt v 1,
    word-lt v 2,
    word-lt v 3,
  )
  set_word-div v (suc (suc (suc zero))) x h hx hv = omega (
    arith,
    limbs v hv,
    limbs (intx.set_word v 3 x) (laws.set_word-lt v 3 x h hx hv),
    laws.set_word_lem v 3 0 x h hx,
    laws.set_word_lem v 3 1 x h hx,
    laws.set_word_lem v 3 2 x h hx,
    laws.set_word_lem v 3 3 x h hx,
    word-lt v 0,
    word-lt v 1,
    word-lt v 2,
    word-lt v 3,
  )
  set_word-div v (suc (suc (suc (suc n)))) x h hx hv = absurd (omega arith)
