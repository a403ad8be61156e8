-- ===== src/Eof/Covers.antt =====
-- The stack heights of `validate_max_stack_height` (lib/assigner/evmone/eof.cpp): an instruction
-- that finds the height it requires leaves one that is not negative.
use evm_assigner.Base.{
  if-true, if-false, ℕ, zero, suc, ◌+◌, ◌≤◌, ◌<◌, ◌≡◌, ◌⊎◌, inl, inr, refl, sym, ap, ◌∙◌, arith, ℤ,
  pos, negsuc, neg_part, ◌+ℤ◌, ◌-ℤ◌, is_neg, ltb_ℤ, Bool, true, false, ◌&&◌, ◌||◌, not, ◌==◌, ltb,
  leb, Bool-cases, List, [], ◌∷◌, length, get_or,
}
use mathlib.Core.Path.{subst}
use evm_assigner.Opcode.Codes.{holds_below, holds_below_lem, decode-none}
use evm_assigner.Traits.{traits, traits-none}
use evm_assigner.Eof.{
  valid, EofCodeType, read_uint16_be, non_returning_function, outputs_inputs_number_limit,
  inputs_outputs_num_above_limit, max_stack_height_above_limit, max_stack_height_limit,
  stack_overflow,
}
use evm_assigner.Eof.Inversion.{fail_if-eq-valid, valid-injective}
use evm_assigner.Eof.Types.{check_types}
use evm_assigner.Eof.Code.{op_callf_byte, op_retf_byte, op_jumpf_byte, type_of}
use evm_assigner.Eof.StackHeight.{height_effect, to_int8}

-- The traits of a byte: an instruction does not take more than it requires.
covers_change : ℕ → Bool
covers_change op = leb (neg_part (traits op).stack_height_change) (traits op).stack_height_required

covers_change_table : holds_below 256 covers_change ≡ true
unfolding holds_below covers_change traits
covers_change_table = refl

no_traits : (op : ℕ) → 256 ≤ op → covers_change op ≡ true
unfolding covers_change
no_traits op big =
    ap (λ t. leb (neg_part t.stack_height_change) t.stack_height_required)
      (traits-none op (decode-none op big))

covers_change_lem : (op : ℕ) → covers_change op ≡ true
covers_change_lem op = elim (Bool-cases (ltb op 256)) [
  | inl low ↦ holds_below_lem 256 covers_change op (ground arith) covers_change_table
  | inr high ↦ no_traits op (ground arith)
]

-- The bounds that `validate_types` has checked.
abbrev pub IsBounded : EofCodeType → Type 0
IsBounded t = (t.inputs ≤ 127) × ((t.outputs ≤ 127) ⊎ (t.outputs ≡ 128))

pub check_types-IsBounded :
    (types : List EofCodeType) (fid : ℕ)
    → check_types types ≡ valid tt
    → fid < length types
    → IsBounded (type_of types fid)
unfolding check_types
check_types-IsBounded [] fid e less = absurd (omega (arith, less))
check_types-IsBounded (t ∷ types) fid e less =
    let (bounded, e1) =
      fail_if-eq-valid
        (ltb outputs_inputs_number_limit t.outputs && not (t.outputs == non_returning_function)
          || ltb outputs_inputs_number_limit t.inputs)
        inputs_outputs_num_above_limit _ e in
    let (_, e2) =
      fail_if-eq-valid (ltb max_stack_height_limit t.max_stack_height) max_stack_height_above_limit
        _ e1 in
    at_place fid less (first_bounded bounded) (λ fid. check_types-IsBounded types fid e2)
  where
    first_bounded :
        ltb outputs_inputs_number_limit t.outputs && not (t.outputs == non_returning_function)
            || ltb outputs_inputs_number_limit t.inputs
          ≡ false
        → IsBounded t
    first_bounded h = (ground arith, ground arith)

    at_place :
        (fid : ℕ)
        → fid < suc (length types)
        → IsBounded t
        → ((fid : ℕ) → fid < length types → IsBounded (type_of types fid))
        → IsBounded (type_of (t ∷ types) fid)
    at_place zero less first others = first
    at_place (suc fid) less first others = others fid (omega (arith, less))

small_int8 : (n : ℕ) → n ≤ 127 → to_int8 (pos n) ≡ pos n
unfolding ◌+ℤ◌
small_int8 n h = ground arith

difference_int8 : (m n : ℕ) → m ≤ 127 → n ≤ 127 → to_int8 (pos m -ℤ pos n) ≡ pos m -ℤ pos n
unfolding ◌+ℤ◌ ◌-ℤ◌
difference_int8 m n h h' = ground arith

height_covers :
    (height change : ℤ) (required : ℕ)
    → ltb_ℤ height (pos required) ≡ false
    → neg_part change ≤ required
    → is_neg (height +ℤ change) ≡ false
unfolding ◌+ℤ◌
height_covers (pos h) (pos c) required e less = ground arith
height_covers (pos h) (negsuc c) required e less = ground arith
height_covers (negsuc h) c required e less = absurd (ground arith)

terminates :
    (op : ℕ) → (op ≡ op_jumpf_byte) ⊎ (op ≡ op_retf_byte) → (traits op).is_terminating ≡ true
unfolding traits
terminates op (inl e) = ap (λ n. (traits n).is_terminating) e
terminates op (inr e) = ap (λ n. (traits n).is_terminating) e

-- A call of a function with bounded inputs and outputs.
call_covers :
    (height : ℤ) (callee : EofCodeType)
    → callee.inputs ≤ 127
    → callee.outputs ≤ 127
    → ltb_ℤ height (to_int8 (pos callee.inputs)) ≡ false
    → is_neg (height +ℤ to_int8 (pos callee.outputs -ℤ to_int8 (pos callee.inputs))) ≡ false
unfolding ◌-ℤ◌
call_covers height callee inputs outputs enough =
    let same = small_int8 callee.inputs inputs in
    subst (λ z. is_neg (height +ℤ to_int8 (pos callee.outputs -ℤ z)) ≡ false) (sym same)
      (subst (λ z. is_neg (height +ℤ z) ≡ false)
        (sym (difference_int8 callee.outputs callee.inputs outputs inputs))
        (height_covers height (pos callee.outputs -ℤ pos callee.inputs) callee.inputs
          (subst (λ z. ltb_ℤ height z ≡ false) same enough) (ground arith)))

module _ (code : List ℕ) (func_index : ℕ) (code_types : List EofCodeType) (i : ℕ) where
  abbrev callee : EofCodeType
  callee = type_of code_types (read_uint16_be code (i + 1))

  pub height_effect-covers :
      (height : ℤ) (effect : ℤ × ℤ)
      → height_effect code func_index code_types i height ≡ valid effect
      → ltb_ℤ height effect.0 ≡ false
      → (traits (get_or code i 0)).is_terminating ≡ false
      → (get_or code i 0 ≡ op_callf_byte
          → IsBounded callee × (callee.outputs == non_returning_function ≡ false))
      → is_neg (height +ℤ effect.1) ≡ false
  unfolding height_effect covers_change
  height_effect-covers height effect e enough goes_on called =
      let op = get_or code i 0 in
      elim (Bool-cases (op == op_callf_byte)) [
        | inl call ↦
            let e1 = sym (if-true (op == op_callf_byte) _ _ call) ∙ e in
            let (_, e2) = fail_if-eq-valid _ stack_overflow _ e1 in
            let same = valid-injective e2 in
            let (bounded, returns) = called (ground arith) in
            subst (λ p. is_neg (height +ℤ p.1) ≡ false) same
              (call_covers height callee bounded.0 (ground arith)
                (subst (λ p. ltb_ℤ height p.0 ≡ false) (sym same) enough))
        | inr other ↦ elim (Bool-cases (op == op_jumpf_byte)) [
          | inl jump ↦ absurd (ground (arith, terminates op))
          | inr no_jump ↦ elim (Bool-cases (op == op_retf_byte)) [
            | inl return ↦ absurd (ground (arith, terminates op))
            | inr plain ↦
                let same = valid-injective (
                  sym (if-false (op == op_retf_byte) _ _ plain)
                  ∙ sym (if-false (op == op_jumpf_byte) _ _ no_jump)
                  ∙ sym (if-false (op == op_callf_byte) _ _ other)
                  ∙ e) in
                subst (λ p. is_neg (height +ℤ p.1) ≡ false) same
                  (height_covers height (traits op).stack_height_change
                    (traits op).stack_height_required
                    (subst (λ p. ltb_ℤ height p.0 ≡ false) (sym same) enough)
                    (ground (arith, covers_change_lem op)))
          ]
        ]
      ]
