-- ===== src/Baseline/Jumpdests.antt =====
-- The map of `analyze_jumpdests` (lib/assigner/evmone/baseline.cpp) against the places of the
-- instructions.
use evm_assigner.Base.{
  ℕ, zero, suc, ◌+◌, ◌-◌, ◌≤◌, ◌<◌, ◌≡◌, ◌↔◌, refl, sym, ap, ◌∙◌, arith, true, false, ◌==◌, ltb,
  if◌then◌else◌, Bool-cases, inl, inr, List, [], ◌∷◌, some, drop, get_or, get_elem?, length,
}
use mathlib.Core.Path.{subst}
use evm_assigner.Baseline.{is_push, jumpdests_from, analyze_jumpdests}

-- The bytes of data behind an opcode.
abbrev pub push_size : ℕ → ℕ
push_size op = if is_push op then op - 0x5f else 0

-- The places where the code has an instruction: its first byte, and then behind the data of the
-- instruction before.
pub data InstructionAt : List ℕ → ℕ → Type 0 where
  here : (op : ℕ) (code : List ℕ) → InstructionAt (op ∷ code) 0
  after :
      (op : ℕ) (code : List ℕ) (i : ℕ)
      → InstructionAt (drop (push_size op) code) i
      → InstructionAt (op ∷ code) (suc (push_size op + i))

-- Skipped bytes are no destinations, and behind them the scan starts again.
skip_scan :
    (k : ℕ) (code : List ℕ) (i : ℕ)
    → get_or (jumpdests_from k code) (k + i) false ≡ get_or (jumpdests_from 0 (drop k code)) i false
unfolding jumpdests_from
skip_scan zero code i = ap (λ (n : ℕ). get_or (jumpdests_from 0 code) n false) (omega arith)
skip_scan (suc k) [] i = refl
skip_scan (suc k) (op ∷ code) i =
    ap (λ (n : ℕ). get_or (false ∷ jumpdests_from k code) n false) (next k i) ∙ skip_scan k code i
  where
    next : (k i : ℕ) → suc k + i ≡ suc (k + i)
    next k i = omega arith

skipped_scan :
    (k : ℕ) (code : List ℕ) (i : ℕ) → i < k → get_or (jumpdests_from k code) i false ≡ false
unfolding jumpdests_from
skipped_scan k [] i h = refl
skipped_scan zero (op ∷ code) i h = absurd (omega arith)
skipped_scan (suc k) (op ∷ code) zero h = refl
skipped_scan (suc k) (op ∷ code) (suc i) h = skipped_scan k code i (omega arith)

shifted : (k i : ℕ) → suc (k + i) ≡ suc k + i
shifted k i = omega arith

pub length-drop : (k : ℕ) (code : List ℕ) → length (drop k code) ≤ length code
length-drop zero code = omega arith
length-drop (suc k) [] = omega arith
length-drop (suc k) (op ∷ code) = omega (arith, length-drop k code)

drop_get : (k : ℕ) (code : List ℕ) (i : ℕ) → get_elem? (drop k code) i ≡ get_elem? code (k + i)
drop_get zero code i = ap (get_elem? code) (omega arith)
drop_get (suc k) [] i = refl
drop_get (suc k) (op ∷ code) i =
    drop_get k code i ∙ ap (λ (n : ℕ). get_elem? (op ∷ code) n) (shifted k i)

-- The scan behind an instruction.
scan_tail :
    (op : ℕ) (code : List ℕ) (i : ℕ)
    → get_or (jumpdests_from 0 (op ∷ code)) (suc i) false
      ≡ get_or (jumpdests_from (push_size op) code) i false
unfolding jumpdests_from
scan_tail op code i = ground arith

scan_head : (op : ℕ) (code : List ℕ) → get_or (jumpdests_from 0 (op ∷ code)) 0 false ≡ (op == 0x5b)
unfolding jumpdests_from
scan_head op code = ground arith

-- At an instruction the map tells whether it is a JUMPDEST.
at_instruction :
    (code : List ℕ) (i : ℕ)
    → InstructionAt code i
    → get_elem? code i ≡ some 0x5b
    → get_or (jumpdests_from 0 code) i false ≡ true
at_instruction _ _ (here op code) h = scan_head op code ∙ ground arith
at_instruction _ _ (after op code i p) h =
    scan_tail op code (push_size op + i)
    ∙ skip_scan (push_size op) code i
    ∙ at_instruction (drop (push_size op) code) i p (drop_get (push_size op) code i ∙ h)

false-ne-true : false ≡ true → ⊥
false-ne-true h = cc

-- A place that the map marks is a JUMPDEST at an instruction. The code is measured by `fuel`.
marked_instruction :
    (fuel : ℕ) (code : List ℕ) (i : ℕ)
    → length code ≤ fuel
    → get_or (jumpdests_from 0 code) i false ≡ true
    → InstructionAt code i × (get_elem? code i ≡ some 0x5b)
unfolding jumpdests_from
marked_instruction fuel [] i short h = absurd (false-ne-true h)
marked_instruction zero (op ∷ code) i short h = absurd (omega arith)
marked_instruction (suc fuel) (op ∷ code) zero short h =
    (here op code, ground (arith, scan_head op code))
marked_instruction (suc fuel) (op ∷ code) (suc i) short h =
    elim (Bool-cases (ltb i (push_size op))) [
      | inl skipped ↦ absurd (
          false-ne-true (
            sym (skipped_scan (push_size op) code i (ground arith))
            ∙ sym (scan_tail op code i)
            ∙ h))
      | inr behind ↦
          let j : ℕ = i - push_size op in
          let e : push_size op + j ≡ i = ground arith in
          let (p, q) =
            marked_instruction fuel (drop (push_size op) code) j
              (omega (arith, length-drop (push_size op) code))
              (sym (skip_scan (push_size op) code j)
                ∙ ap (λ (n : ℕ). get_or (jumpdests_from (push_size op) code) n false) e
                ∙ sym (scan_tail op code i)
                ∙ h) in
          subst (λ n. InstructionAt (op ∷ code) (suc n) × (get_elem? code n ≡ some 0x5b)) e
            (after op code j p, sym (drop_get (push_size op) code j) ∙ q)
    ]

-- The jump destination map of a code is true at a place exactly where an instruction starts there
-- (its place follows from the data of the instructions before) and its byte is JUMPDEST: bytes 0x5b
-- in push data and places behind the end are not marked.
pub analyze_jumpdests_iff :
    (code : List ℕ) (i : ℕ)
    → (get_or (analyze_jumpdests code) i false ≡ true)
      ↔ (InstructionAt code i × (get_elem? code i ≡ some 0x5b))
unfolding analyze_jumpdests
analyze_jumpdests_iff code i =
    (marked_instruction (length code) code i (omega arith), λ h. at_instruction code i h.0 h.1)
