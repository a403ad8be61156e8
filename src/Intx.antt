-- ===== src/Intx.antt =====
-- What zkevm_word.hpp uses of the intx library, which is not part of the repository: an interface
-- with the operations on `intx::uint256`, and the documented behaviour that proofs rely on.
-- A `uint256` is held as its value, a number below 2 ^ 256; a byte buffer is a list of bytes.
use evm_assigner.Base.{
  ℕ, ◌+◌, ◌-◌, ◌*◌, ◌/◌, ◌%◌, ◌^◌, ◌<◌, ◌≡◌, ◌==◌, if◌then◌else◌, Bool, List, [], ◌∷◌,
}

pub record Intx : Type 0 where
  pub add : ℕ → ℕ → ℕ
  pub sub : ℕ → ℕ → ℕ
  pub mul : ℕ → ℕ → ℕ
  pub quot : ℕ → ℕ → ℕ
  pub rem : ℕ → ℕ → ℕ
  pub sdivrem_quot : ℕ → ℕ → ℕ
  pub sdivrem_rem : ℕ → ℕ → ℕ
  pub addmod : ℕ → ℕ → ℕ → ℕ
  pub mulmod : ℕ → ℕ → ℕ → ℕ
  pub exp : ℕ → ℕ → ℕ
  pub count_significant_bytes : ℕ → ℕ
  pub slt : ℕ → ℕ → Bool
  pub and : ℕ → ℕ → ℕ
  pub or : ℕ → ℕ → ℕ
  pub xor : ℕ → ℕ → ℕ
  pub complement : ℕ → ℕ
  pub shl : ℕ → ℕ → ℕ
  pub shr : ℕ → ℕ → ℕ
  -- `value[i]`, read and assigned: the 64-bit words, the least significant first.
  pub word : ℕ → ℕ → ℕ
  pub set_word : ℕ → ℕ → ℕ → ℕ
  -- `intx::be::load` of as many bytes as the list has, and `intx::be::store` of `n` bytes.
  pub load : List ℕ → ℕ
  pub store : ℕ → ℕ → List ℕ

-- The number that big-endian bytes stand for, after those in `acc`.
abbrev pub be_value_from : ℕ → List ℕ → ℕ
be_value_from acc [] = acc
be_value_from acc (b ∷ bytes) = be_value_from (acc * 256 + b) bytes

abbrev pub be_value : List ℕ → ℕ
be_value bytes = be_value_from 0 bytes

-- The documented behaviour of words, loads, and wrapping arithmetic.
pub record IsIntx (intx : Intx) : Type 0 where
  pub word_lem : (v i : ℕ) → intx.word v i ≡ v / 2 ^ (64 * i) % 2 ^ 64
  pub set_word_lem :
      (v i j x : ℕ)
      → i < 4
      → x < 2 ^ 64
      → intx.word (intx.set_word v i x) j ≡ (if i == j then x else intx.word v j)
  pub set_word-lt : (v i x : ℕ) → i < 4 → x < 2 ^ 64 → v < 2 ^ 256 → intx.set_word v i x < 2 ^ 256
  pub load_lem : (bytes : List ℕ) → intx.load bytes ≡ be_value bytes
  pub add_lem : (a b : ℕ) → intx.add a b ≡ (a + b) % 2 ^ 256
  pub sub_lem : (a b : ℕ) → b < 2 ^ 256 → intx.sub a b ≡ (a + 2 ^ 256 - b) % 2 ^ 256
