-- ===== src/Word/Bytes.antt =====
-- Big-endian numbers of byte lists, and `load_partial_data` of zkevm_word.hpp.
use evm_assigner.Base.{
  ℕ, zero, suc, ◌+◌, ◌*◌, ◌/◌, ◌^◌, ◌≤◌, ◌<◌, ◌≡◌, refl, arith, List, [], ◌∷◌, ◌==◌, if◌then◌else◌,
  take, length, ap,
}
use evm_assigner.Intx.{Intx, IsIntx, be_value, be_value_from}
use evm_assigner.Word.{load_partial_data, partial_word, to_uint64}
use native.Mathlib.Nat.{pow-suc, pow-le-pow_right, div-eq_of_lt-le, mul-suc}
use native.Mathlib.Numerals.{towards_suc}
use Prim.Native.Nat.add

abbrev pub IsBytes : List ℕ → Type 0
IsBytes [] = Unit {0}
IsBytes (b ∷ bytes) = (b < 256) × IsBytes bytes

-- What was read before counts as many bytes higher as follow.
pub be_value_from-add :
    (acc : ℕ) (bytes : List ℕ) → be_value_from acc bytes ≡ acc * 256 ^ length bytes + be_value bytes
be_value_from-add acc [] = omega arith
be_value_from-add acc (b ∷ bytes) = omega (
  arith,
  be_value_from-add (acc * 256 + b) bytes,
  be_value_from-add (0 * 256 + b) bytes,
  ap (λ (t : ℕ). acc * t) (pow-suc 256 (length bytes)),
)

pub be_value-lt : (bytes : List ℕ) → IsBytes bytes → be_value bytes < 256 ^ length bytes
be_value-lt [] h = omega arith
be_value-lt (b ∷ bytes) h = grind (
  arith,
  be_value_from-add (0 * 256 + b) bytes,
  be_value-lt bytes h.1,
  pow-suc 256 (length bytes),
)

pub take-IsBytes : (k : ℕ) (bytes : List ℕ) → IsBytes bytes → IsBytes (take k bytes)
take-IsBytes zero bytes p = tt
take-IsBytes (suc k) [] p = tt
take-IsBytes (suc k) (b ∷ bytes) p = (p.0, take-IsBytes k bytes p.1)

pub length-take {ℓ} : {A : Type ℓ} (k : ℕ) (xs : List A) → k ≤ length xs → length (take k xs) ≡ k
length-take zero xs h = refl
length-take (suc k) [] h = absurd (omega arith)
length-take (suc k) (x ∷ xs) h = ap suc (length-take k xs (omega arith))

-- The bytes after the accumulator are shifted out.
be_value_from-shift :
    (acc : ℕ) (bytes : List ℕ) → IsBytes bytes → be_value_from acc bytes / 256 ^ length bytes ≡ acc
be_value_from-shift acc bytes p =
    div-eq_of_lt-le (256 ^ length bytes) (omega (arith, be_value_from-add acc bytes))
      (omega (arith, be_value_from-add acc bytes, be_value-lt bytes p))

-- The first `n` of `n + k` bytes are what stays when the number is shifted down by `k` bytes.
be_value_from-take :
    (n k acc : ℕ) (bytes : List ℕ)
    → n + k ≤ length bytes
    → IsBytes bytes
    → be_value_from acc (take (n + k) bytes) / 256 ^ k ≡ be_value_from acc (take n bytes)
be_value_from-take zero k acc bytes h p = rw add.zero (
    rw (length-take k bytes (omega arith)) at
      (be_value_from-shift acc (take k bytes) (take-IsBytes k bytes p)))
be_value_from-take (suc n) k acc [] h p = absurd (omega arith)
be_value_from-take (suc n) k acc (b ∷ bytes) h p =
    rw add.suc (be_value_from-take n k (acc * 256 + b) bytes (omega arith) p.1)

pub be_value-take-lt :
    (bytes : List ℕ) (len : ℕ)
    → len ≤ 8
    → 8 ≤ length bytes
    → IsBytes bytes
    → be_value (take len bytes) < 2 ^ 64
be_value-take-lt bytes len high long p = omega (
  arith,
  rw (length-take len bytes (omega arith)) at
      (be_value-lt (take len bytes) (take-IsBytes len bytes p)),
  pow-le-pow_right {n = 256} (omega arith) high,
)

pub pow_bytes : (k : ℕ) → 2 ^ (8 * k) ≡ 256 ^ k
pow_bytes zero = refl
pow_bytes (suc k) = rw (mul-suc 8 k) (simp (towards_suc, pow-suc) (omega (arith, pow_bytes k)))

module _ ⦃intx : Intx⦄ (laws : IsIntx intx) (v i : ℕ) (bytes : List ℕ) where
  -- What one case of the switch reads, where the machine type has `n + k` bytes.
  partial_word_lem :
      (n k : ℕ)
      → n + k ≤ length bytes
      → IsBytes bytes
      → partial_word bytes (n + k) (8 * k) ≡ be_value (take n bytes)
  partial_word_lem n k h p =
      rw (laws.load_lem (take (n + k) bytes), pow_bytes k) (be_value_from-take n k 0 bytes h p)

  -- The cases of the switch, by the length.
  module _ (long : 8 ≤ length bytes) (p : IsBytes bytes) where
    read :
        (n k : ℕ)
        → n + k ≤ 8
        → intx.set_word v i (partial_word bytes (n + k) (8 * k))
          ≡ intx.set_word v i (be_value (take n bytes))
    read n k fits = ap (intx.set_word v i) (partial_word_lem n k (omega arith) p)

    by_length :
        (len : ℕ)
        → len < 8
        → load_partial_data v bytes (suc len) i
          ≡ intx.set_word v i (be_value (take (suc len) bytes))
    unfolding load_partial_data
    by_length zero h = read 1 0 (omega arith)
    by_length (suc zero) h = read 2 0 (omega arith)
    by_length (suc (suc zero)) h = read 3 1 (omega arith)
    by_length (suc (suc (suc zero))) h = read 4 0 (omega arith)
    by_length (suc (suc (suc (suc zero)))) h = read 5 3 (omega arith)
    by_length (suc (suc (suc (suc (suc zero))))) h = read 6 2 (omega arith)
    by_length (suc (suc (suc (suc (suc (suc zero)))))) h = read 7 1 (omega arith)
    by_length (suc (suc (suc (suc (suc (suc (suc zero))))))) h = read 8 0 (omega arith)
    by_length (suc (suc (suc (suc (suc (suc (suc (suc len)))))))) h = absurd (omega arith)

-- What `load_partial_data` assigns.
pub load_partial_data-set_word :
    ⦃intx : Intx⦄ (laws : IsIntx intx) (v i : ℕ) (bytes : List ℕ) (len : ℕ)
    → 1 ≤ len
    → len ≤ 8
    → 8 ≤ length bytes
    → IsBytes bytes
    → load_partial_data v bytes len i ≡ intx.set_word v i (be_value (take len bytes))
load_partial_data-set_word laws v i bytes zero low high long p = absurd (omega arith)
load_partial_data-set_word laws v i bytes (suc len) low high long p =
    by_length laws v i bytes long p len (omega arith)

-- For each length from 1 to 8, and at least 8 bytes to read from, load_partial_data puts the
-- big-endian number of the first `len` bytes into word `i`, although the machine type it reads may
-- be wider, and leaves the other words.
pub load_partial_data_lem :
    ⦃intx : Intx⦄ (laws : IsIntx intx) (v i j : ℕ) (bytes : List ℕ) (len : ℕ)
    → 1 ≤ len
    → len ≤ 8
    → i < 4
    → 8 ≤ length bytes
    → IsBytes bytes
    → to_uint64 (load_partial_data v bytes len i) j
      ≡ (if i == j then be_value (take len bytes) else to_uint64 v j)
load_partial_data_lem laws v i j bytes zero low high four long p = absurd (omega arith)
load_partial_data_lem laws v i j bytes (suc len) low high four long p =
    rw (by_length laws v i bytes long p len (omega arith))
      (laws.set_word_lem v i j _ four (be_value-take-lt bytes (suc len) high long p))
