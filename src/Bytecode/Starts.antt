-- ===== src/Bytecode/Starts.antt =====
-- The places of the instructions of a code (`process_bytecode_input` of
-- lib/assigner/include/bytecode.hpp), by a counter of the push data still to come.
use evm_assigner.Base.{
  ℕ, zero, suc, ◌+◌, ◌-◌, ◌≤◌, ◌<◌, ◌≡◌, refl, sym, ap, ◌∙◌, arith, Bool, true, false, ltb,
  Bool-cases, inl, inr, List, [], ◌∷◌, drop, get_or, length,
}
use mathlib.Core.Path.{subst}
use evm_assigner.Baseline.Jumpdests.{InstructionAt, push_size, length-drop}

-- Whether an instruction starts at each byte, with as many bytes of push data still to come.
abbrev pub starts_from : ℕ → List ℕ → List Bool
starts_from skip [] = []
starts_from (suc skip) (op ∷ code) = false ∷ starts_from skip code
starts_from zero (op ∷ code) = true ∷ starts_from (push_size op) code

-- The bytes of data still to come after a byte.
abbrev pub next_skip : ℕ → ℕ → ℕ
next_skip zero byte = push_size byte
next_skip (suc skip) byte = skip

abbrev pub starts_at : ℕ → Bool
starts_at zero = true
starts_at (suc skip) = false

pub starts_from-next :
    (skip byte : ℕ) (bytecode : List ℕ) (k : ℕ)
    → get_or (starts_from skip (byte ∷ bytecode)) (suc k) false
      ≡ get_or (starts_from (next_skip skip byte) bytecode) k false
starts_from-next zero byte bytecode k = refl
starts_from-next (suc skip) byte bytecode k = refl

pub starts_from-first :
    (skip byte : ℕ) (bytecode : List ℕ)
    → get_or (starts_from skip (byte ∷ bytecode)) 0 false ≡ starts_at skip
starts_from-first zero byte bytecode = refl
starts_from-first (suc skip) byte bytecode = refl

-- Bytes of data start no instruction, and behind them the next instruction starts.
skip_starts :
    (k : ℕ) (code : List ℕ) (i : ℕ)
    → get_or (starts_from k code) (k + i) false ≡ get_or (starts_from 0 (drop k code)) i false
skip_starts zero code i = ap (λ (n : ℕ). get_or (starts_from 0 code) n false) (omega arith)
skip_starts (suc k) [] i = refl
skip_starts (suc k) (op ∷ code) i =
    ap (λ (n : ℕ). get_or (false ∷ starts_from k code) n false) (shifted k i) ∙ skip_starts k code i
  where
    shifted : (k i : ℕ) → suc k + i ≡ suc (k + i)
    shifted k i = omega arith

skipped : (k : ℕ) (code : List ℕ) (i : ℕ) → i < k → get_or (starts_from k code) i false ≡ false
skipped k [] i less = refl
skipped zero (op ∷ code) i less = absurd (omega (arith, less))
skipped (suc k) (op ∷ code) zero less = refl
skipped (suc k) (op ∷ code) (suc i) less = skipped k code i (omega (arith, less))

pub at_instruction :
    (code : List ℕ) (i : ℕ) → InstructionAt code i → get_or (starts_from 0 code) i false ≡ true
at_instruction _ _ (InstructionAt.here op code) = refl
at_instruction _ _ (InstructionAt.after op code i p) =
    skip_starts (push_size op) code i ∙ at_instruction (drop (push_size op) code) i p

false-ne-true : false ≡ true → ⊥
false-ne-true h = cc

pub start_instruction :
    (fuel : ℕ) (code : List ℕ) (i : ℕ)
    → length code ≤ fuel
    → get_or (starts_from 0 code) i false ≡ true
    → InstructionAt code i
start_instruction fuel [] i short h = absurd (false-ne-true h)
start_instruction zero (op ∷ code) i short h = absurd (omega (arith, short))
start_instruction (suc fuel) (op ∷ code) zero short h = InstructionAt.here op code
start_instruction (suc fuel) (op ∷ code) (suc i) short h =
    elim (Bool-cases (ltb i (push_size op))) [
      | inl data_byte ↦
          absurd (false-ne-true (sym (skipped (push_size op) code i (ground arith)) ∙ h))
      | inr behind ↦
          let j : ℕ = i - push_size op in
          let e : push_size op + j ≡ i = ground arith in
          subst (λ (n : ℕ). InstructionAt (op ∷ code) (suc n)) e
            (InstructionAt.after op code j (
              start_instruction fuel (drop (push_size op) code) j
                (omega (arith, length-drop (push_size op) code, short))
                (sym (skip_starts (push_size op) code j)
                  ∙ ap (λ (n : ℕ). get_or (starts_from (push_size op) code) n false) e
                  ∙ h)))
    ]
