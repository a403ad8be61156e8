-- ===== src/Rw/Digits.antt =====
-- Numbers as 16-bit chunks, the most significant first, and the lexicographic order of chunks.
use evm_assigner.Base.{
  ℕ, zero, suc, ◌+◌, ◌*◌, ◌/◌, ◌%◌, ◌^◌, ◌<◌, ◌≡◌, ◌⊎◌, inl, inr, refl, ap, ap₂, arith, List, [],
  ◌∷◌, ◌++◌, get_or, length, ◌==◌, if◌then◌else◌,
}
use native.Mathlib.Nat.{pow-suc, div-add-mod, div-div-eq-div-mul, one-le-pow, mul-suc, add_assoc}
use native.Mathlib.Decide.{dec_lt}
use native.Mathlib.Numerals.{towards_suc}

-- The `n` lowest chunks of `v`.
unfoldable pub digits : ℕ → ℕ → List ℕ
digits zero v = []
digits (suc n) v = (v / 2 ^ (16 * n) % 2 ^ 16) ∷ digits n v

abbrev pub LexLt : List ℕ → List ℕ → Type 0
LexLt [] ys = ⊥
LexLt (x ∷ xs) [] = ⊥
LexLt (x ∷ xs) (y ∷ ys) = (x < y) ⊎ ((x ≡ y) × LexLt xs ys)

-- The first place where two lists of one length differ, or their length.
unfoldable pub first_diff : List ℕ → List ℕ → ℕ
first_diff [] ys = 0
first_diff (x ∷ xs) [] = 0
first_diff (x ∷ xs) (y ∷ ys) = if x == y then suc (first_diff xs ys) else 0

pub LexLt-append : (xs ys us vs : List ℕ) → LexLt xs ys → LexLt (xs ++ us) (ys ++ vs)
LexLt-append [] ys us vs h = absurd h
LexLt-append (x ∷ xs) [] us vs h = absurd h
LexLt-append (x ∷ xs) (y ∷ ys) us vs (inl lt) = inl lt
LexLt-append (x ∷ xs) (y ∷ ys) us vs (inr (e, h)) = inr (e, LexLt-append xs ys us vs h)

pub LexLt-prefix : (xs us vs : List ℕ) → LexLt us vs → LexLt (xs ++ us) (xs ++ vs)
LexLt-prefix [] us vs h = h
LexLt-prefix (x ∷ xs) us vs h = inr (refl, LexLt-prefix xs us vs h)

-- At the first difference the smaller list has the smaller chunk.
pub first_diff-LexLt :
    (xs ys : List ℕ)
    → LexLt xs ys
    → (first_diff xs ys < length xs)
      × (get_or xs (first_diff xs ys) 0 < get_or ys (first_diff xs ys) 0)
unfolding first_diff
first_diff-LexLt [] ys h = absurd h
first_diff-LexLt (x ∷ xs) [] h = absurd h
first_diff-LexLt (x ∷ xs) (y ∷ ys) (inl lt) = ground arith
first_diff-LexLt (x ∷ xs) (y ∷ ys) (inr (e, h)) = ground (arith, first_diff-LexLt xs ys h)

pow-add-16 : (s : ℕ) → 2 ^ (s + 16) ≡ 2 ^ s * 2 ^ 16
pow-add-16 s = rw (← add_assoc s 8 8) (simp (towards_suc, pow-suc) (omega arith))

pub pow_chunk : (n : ℕ) → 2 ^ (16 * suc n) ≡ 2 ^ (16 * n) * 2 ^ 16
pow_chunk n = rw (mul-suc 16 n) (pow-add-16 (16 * n))

mod_mul : (v p : ℕ) → v % (p * 2 ^ 16) ≡ v / p % 2 ^ 16 * p + v % p
mod_mul v p = omega (
  arith,
  div-add-mod v (p * 2 ^ 16),
  ap (λ (t : ℕ). p * 2 ^ 16 * t) (div-div-eq-div-mul v p (2 ^ 16)),
  ap (λ (t : ℕ). p * t) (div-add-mod (v / p) (2 ^ 16)),
  div-add-mod v p,
)

-- The top chunk and what lies below it.
split_chunk :
    (v n : ℕ) → v % 2 ^ (16 * suc n) ≡ v / 2 ^ (16 * n) % 2 ^ 16 * 2 ^ (16 * n) + v % 2 ^ (16 * n)
split_chunk v n = rw (pow_chunk n) (mod_mul v (2 ^ (16 * n)))

-- Two sums of a high part, counted in `p`, and a rest below `p`.
high_le : (p x y r s : ℕ) → r < p → s < p → x * p + r < y * p + s → ¬ (y < x)
high_le p x y r s hr hs h lt = grind arith

high_eq : (p x y r s : ℕ) → r < p → s < p → x * p + r ≡ y * p + s → x ≡ y
high_eq p x y r s hr hs e = elim (dec_lt x y) [
  | yes lt ↦ absurd (grind arith)
  | no ge ↦ elim (dec_lt y x) [ yes lt ↦ absurd (grind arith) | no le ↦ omega arith ]
]

module _ (n v : ℕ) where
  abbrev top : ℕ
  top = v / 2 ^ (16 * n) % 2 ^ 16

  rest-lt : v % 2 ^ (16 * n) < 2 ^ (16 * n)
  rest-lt = omega (arith, one-le-pow (16 * n) 2 (omega arith))

pub digits-LexLt :
    (n a b : ℕ) → a % 2 ^ (16 * n) < b % 2 ^ (16 * n) → LexLt (digits n a) (digits n b)
unfolding digits
digits-LexLt zero a b h = absurd (omega arith)
digits-LexLt (suc n) a b h = elim (dec_lt (top n a) (top n b)) [
  | yes lt ↦ inl lt
  | no ge ↦
      let split : top n a * 2 ^ (16 * n) + a % 2 ^ (16 * n)
          < top n b * 2 ^ (16 * n) + b % 2 ^ (16 * n) =
        rw (split_chunk a n, split_chunk b n) at h in
      let le : ¬ (top n b < top n a) =
        high_le (2 ^ (16 * n)) (top n a) (top n b) _ _ (rest-lt n a) (rest-lt n b) split in
      let same : top n a ≡ top n b = omega arith in
      inr (same, digits-LexLt n a b (omega (arith, ap (λ (t : ℕ). t * 2 ^ (16 * n)) same)))
]

-- Numbers with the same chunks are the same below the top of the chunks.
pub digits-injective : (n a b : ℕ) → digits n a ≡ digits n b → a % 2 ^ (16 * n) ≡ b % 2 ^ (16 * n)
unfolding digits
digits-injective zero a b e = omega arith
digits-injective (suc n) a b e =
    rw (split_chunk a n, split_chunk b n)
      (ap₂ (λ (t r : ℕ). t * 2 ^ (16 * n) + r) (cc) (digits-injective n a b (cc)))

pub digits_congr : (n a b : ℕ) → a % 2 ^ (16 * n) ≡ b % 2 ^ (16 * n) → digits n a ≡ digits n b
unfolding digits
digits_congr zero a b e = refl
digits_congr (suc n) a b e =
    let split : top n a * 2 ^ (16 * n) + a % 2 ^ (16 * n)
        ≡ top n b * 2 ^ (16 * n) + b % 2 ^ (16 * n) =
      rw (split_chunk a n, split_chunk b n) at e in
    let same : top n a ≡ top n b =
      high_eq (2 ^ (16 * n)) (top n a) (top n b) _ _ (rest-lt n a) (rest-lt n b) split in
    ap₂ ◌∷◌ same (digits_congr n a b (omega (arith, split, ap (λ (t : ℕ). t * 2 ^ (16 * n)) same)))

pub length-digits : (n v : ℕ) → length (digits n v) ≡ n
unfolding digits
length-digits zero v = refl
length-digits (suc n) v = ap suc (length-digits n v)
