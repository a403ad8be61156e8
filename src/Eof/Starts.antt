-- ===== src/Eof/Starts.antt =====
-- The places of a code section of lib/assigner/evmone/eof.cpp where instructions start, and the
-- immediates between them.
use evm_assigner.Base.{
  ℕ, zero, suc, ◌+◌, ◌≤◌, ◌<◌, ◌≡◌, ◌⊎◌, inl, inr, arith, List, length, ltb, Bool-cases, false,
}
use mathlib.Core.Path.{subst}
use evm_assigner.Eof.Jumps.{immediates}

-- From the instruction at `i` the places of the instructions behind it, while `i` is in the code.
pub data Starts (code : List ℕ) : ℕ → ℕ → Type 0 where
  here : (i : ℕ) → i < length code → Starts code i i
  later : (i j : ℕ) → i < length code → Starts code (i + immediates code i + 1) j → Starts code i j

pub Starts-lt : (code : List ℕ) (i j : ℕ) → Starts code i j → j < length code
Starts-lt code _ _ (here i h) = h
Starts-lt code _ _ (later i j h p) = Starts-lt code _ _ p

pub Starts-le : (code : List ℕ) (i j : ℕ) → Starts code i j → i ≤ j
Starts-le code _ _ (here i h) = omega arith
Starts-le code _ _ (later i j h p) = omega (arith, Starts-le code _ _ p)

-- What holds at `i` and at the places behind it.
pub Starts-all :
    (code : List ℕ) (P : ℕ → Type 0) (i j : ℕ)
    → P i
    → (Starts code (i + immediates code i + 1) j → P j)
    → Starts code i j
    → P j
Starts-all code P _ _ first others (here i h) = first
Starts-all code P _ _ first others (later i j h p) = others p

pub Starts-step :
    (code : List ℕ) (i j : ℕ)
    → Starts code i j
    → j + immediates code j + 1 < length code
    → Starts code i (j + immediates code j + 1)
Starts-step code _ _ (here i h) inside = later i _ h (here _ inside)
Starts-step code _ _ (later i j h p) inside = later i _ h (Starts-step code _ j p inside)

-- A place in the immediates of an instruction.
pub record IsImmediate (code : List ℕ) (i place : ℕ) : Type 0 where
  pub start : ℕ
  pub starts : Starts code i start
  pub behind : start < place
  pub within : place ≤ start + immediates code start

-- Every place from `i` on is an instruction's or lies in the immediates of one.
pub place-cases :
    (fuel : ℕ) (code : List ℕ) (i place : ℕ)
    → place < i + fuel
    → i ≤ place
    → place < length code
    → Starts code i place ⊎ IsImmediate code i place
place-cases zero code i place near from inside = absurd (omega arith)
place-cases (suc fuel) code i place near from inside =
    let next = i + immediates code i + 1 in
    elim (Bool-cases (ltb i place)) [
      | inr same ↦
          inl (subst (Starts code i) (at_place same) (here i (omega (arith, inside, from))))
      | inl less ↦ elim (Bool-cases (ltb place next)) [
        | inl short ↦ inr record {
          start = i;
          starts = here i (omega (arith, inside, from));
          behind = ground arith;
          within = ground arith;
        }
        | inr far ↦
            elim (place-cases fuel code next place (omega (arith, near)) (ground arith) inside) [
              | inl p ↦ inl (later i place (omega (arith, inside, from)) p)
              | inr p ↦ inr record {
                start = p.start;
                starts = later i p.start (omega (arith, inside, from)) p.starts;
                behind = p.behind;
                within = p.within;
              }
            ]
      ]
    ]
  where
    at_place : ltb i place ≡ false → i ≡ place
    at_place h = ground arith
