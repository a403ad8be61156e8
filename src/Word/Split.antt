-- ===== src/Word/Split.antt =====
-- A byte list cut in two, and the numbers of its parts.
use evm_assigner.Base.{
  ℕ, zero, suc, ◌+◌, ◌*◌, ◌^◌, ◌≤◌, ◌≡◌, ap, ◌∙◌, arith, List, [], ◌∷◌, take, drop, length,
}
use evm_assigner.Intx.{be_value, be_value_from}
use evm_assigner.Word.Bytes.{IsBytes, be_value_from-add, length-take}

pub drop-IsBytes : (k : ℕ) (bytes : List ℕ) → IsBytes bytes → IsBytes (drop k bytes)
drop-IsBytes zero bytes p = p
drop-IsBytes (suc k) [] p = tt
drop-IsBytes (suc k) (b ∷ bytes) p = drop-IsBytes k bytes p.1

pub length-drop_le : (k n : ℕ) (bytes : List ℕ) → k + n ≤ length bytes → n ≤ length (drop k bytes)
length-drop_le zero n bytes h = omega arith
length-drop_le (suc k) n [] h = omega arith
length-drop_le (suc k) n (b ∷ bytes) h = length-drop_le k n bytes (omega arith)

-- The bytes after the first `k` count for the low digits.
be_value_from-split :
    (k n acc : ℕ) (bytes : List ℕ)
    → k + n ≤ length bytes
    → be_value_from acc (take (k + n) bytes)
      ≡ be_value_from (be_value_from acc (take k bytes)) (take n (drop k bytes))
be_value_from-split zero n acc bytes h =
    ap (λ (m : ℕ). be_value_from acc (take m bytes)) (omega arith)
be_value_from-split (suc k) n acc [] h = absurd (omega arith)
be_value_from-split (suc k) n acc (b ∷ bytes) h =
    ap (λ (m : ℕ). be_value_from acc (take m (b ∷ bytes))) (shifted k n)
    ∙ be_value_from-split k n (acc * 256 + b) bytes (omega arith)
  where
    shifted : (k n : ℕ) → suc k + n ≡ suc (k + n)
    shifted k n = omega arith

pub be_value-split :
    (k n : ℕ) (bytes : List ℕ)
    → k + n ≤ length bytes
    → be_value (take (k + n) bytes)
      ≡ be_value (take k bytes) * 256 ^ n + be_value (take n (drop k bytes))
be_value-split k n bytes h =
    be_value_from-split k n 0 bytes h
    ∙ be_value_from-add (be_value (take k bytes)) (take n (drop k bytes))
    ∙ ap (λ (m : ℕ). be_value (take k bytes) * 256 ^ m + be_value (take n (drop k bytes)))
        (length-take n (drop k bytes) (length-drop_le k n bytes h))
