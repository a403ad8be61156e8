-- ===== src/Eof/Visit.antt =====
-- A round of the worklist of `validate_max_stack_height` (lib/assigner/evmone/eof.cpp): what it puts
-- on the worklist, and that the bytes not reached become fewer with it.
use evm_assigner.Base.{
  if-true, if-false, ℕ, zero, suc, ◌+◌, ◌*◌, ◌≤◌, ◌<◌, ◌≡◌, ◌⊎◌, inl, inr, refl, sym, ap, ◌∙◌,
  arith, ℤ, pos, pos_part, negsuc, ◌+ℤ◌, +ℤ_parts, eq_of_parts, is_neg, false, not, ◌&&◌, ◌||◌,
  ◌==◌, leb, Bool-cases, List, [], ◌∷◌, length, get_or,
}
use mathlib.Core.Path.{subst}
use evm_assigner.Traits.{traits}
use evm_assigner.Eof.{valid, read_int16_be, rel_offset_size, no_terminating_instruction}
use evm_assigner.Eof.Inversion.{fail_if-eq-valid, invalid-ne-valid, valid-injective, >>=-eq-valid}
use evm_assigner.Eof.Code.{op_rjump_byte, op_rjumpi_byte, op_rjumpv_byte}
use evm_assigner.Eof.Jumps.{immediates, destination}
use evm_assigner.Eof.Starts.{Starts, Starts-lt, Starts-step}
use evm_assigner.Eof.Targets.{IsOffset, jump_offset, table_offset}
use evm_assigner.Eof.StackHeight.{
  HeightState, is_unvisited, ==ℤ, validate_successor, validate_targets, validate_next,
  validate_jumps,
}
use evm_assigner.Eof.Count.{unvisited, visited-lt}

abbrev pub AllStarts : List ℕ → List ℕ → Type 0
AllStarts code [] = Unit {0}
AllStarts code (i ∷ worklist) = Starts code 0 i × AllStarts code worklist

-- The worklist holds starts of instructions; with the bytes not reached they are at most `bound`.
pub record IsBelow (code : List ℕ) (s : HeightState) (bound : ℕ) : Type 0 where
  pub starts : AllStarts code s.worklist
  pub few : length s.worklist + unvisited s.stack_heights (length code) ≤ bound

not_neg : (z : ℤ) → is_neg z ≡ false → is_unvisited z ≡ false
not_neg (pos n) h = refl
not_neg (negsuc n) h = absurd (ground arith)

module _ (code : List ℕ) where
  successor-IsBelow :
      (s s' : HeightState) (bound offset : ℕ) (height : ℤ)
      → IsBelow code s bound
      → Starts code 0 offset
      → is_neg height ≡ false
      → validate_successor s offset height ≡ valid s'
      → IsBelow code s' bound
  unfolding validate_successor
  successor-IsBelow s s' bound offset height below start up e =
      elim (Bool-cases (is_unvisited (s.stack_heights offset))) [
        | inl new ↦
            let same =
              valid-injective (sym (if-true (is_unvisited (s.stack_heights offset)) _ _ new) ∙ e) in
            subst (λ s. IsBelow code s bound) same
              record {
                starts = (start, below.starts);
                few = omega (
                  arith,
                  below.few,
                  visited-lt s.stack_heights offset height (length code) (not_neg height up) new
                      (Starts-lt code 0 offset start),
                );
              }
        | inr old ↦
            let e1 = sym (if-false (is_unvisited (s.stack_heights offset)) _ _ old) ∙ e in
            elim (Bool-cases (==ℤ (s.stack_heights offset) height)) [
              | inl equal ↦
                  subst (λ s. IsBelow code s bound)
                    (valid-injective
                      (sym (if-true (==ℤ (s.stack_heights offset) height) _ _ equal) ∙ e1))
                    below
              | inr different ↦ absurd (
                  invalid-ne-valid
                    (sym (if-false (==ℤ (s.stack_heights offset) height) _ _ different) ∙ e1))
            ]
      ]

  targets-IsBelow :
      (next : ℕ) (height : ℤ) (n place : ℕ) (s s' : HeightState) (bound : ℕ)
      → IsBelow code s bound
      → is_neg height ≡ false
      → ((k : ℕ) → k < n → Starts code 0 (pos_part (destination code (place + k * 2) next)))
      → validate_targets code next height n place s ≡ valid s'
      → IsBelow code s' bound
  unfolding validate_targets
  targets-IsBelow next height zero place s s' bound below up starts e =
      subst (λ s. IsBelow code s bound) (valid-injective e) below
  targets-IsBelow next height (suc n) place s s' bound below up starts e =
      let target = pos_part (destination code place next) in
      let (s1, first, rest) = >>=-eq-valid (validate_successor s target height) _ e in
      targets-IsBelow next height n (place + rel_offset_size) s1 s' bound
        (successor-IsBelow s s1 bound target height below
          (subst (λ p. Starts code 0 (pos_part (destination code p next))) first_place
            (starts 0 (omega arith)))
          up first)
        up
        (λ k less.
          subst (λ p. Starts code 0 (pos_part (destination code p next))) (later_place k)
            (starts (suc k) (omega (arith, less))))
        rest
    where
      first_place : place + 0 * 2 ≡ place
      first_place = omega arith

      later_place : (k : ℕ) → place + suc k * 2 ≡ place + 2 + k * 2
      later_place k = omega arith

  pub next-IsBelow :
      (i : ℕ) (height : ℤ) (s s' : HeightState) (bound : ℕ)
      → IsBelow code s bound
      → Starts code 0 i
      → ((traits (get_or code i 0)).is_terminating ≡ false → is_neg height ≡ false)
      → validate_next code i (i + immediates code i + 1) height s ≡ valid s'
      → IsBelow code s' bound
  unfolding validate_next
  next-IsBelow i height s s' bound below start up e =
      let next = i + immediates code i + 1 in
      let goes_on =
        not (traits (get_or code i 0)).is_terminating && not (get_or code i 0 == op_rjump_byte) in
      elim (Bool-cases goes_on) [
        | inl on ↦
            let (inside, e1) =
              fail_if-eq-valid (leb (length code) next) no_terminating_instruction _
                (sym (if-true goes_on _ _ on) ∙ e) in
            successor-IsBelow s s' bound next height below
              (Starts-step code 0 i start (ground arith)) (up (ground arith)) e1
        | inr stops ↦
            subst (λ s. IsBelow code s bound)
              (valid-injective (sym (if-false goes_on _ _ stops) ∙ e)) below
      ]

  -- The relative jumps do not terminate.
  jumps_go_on :
      (op : ℕ)
      → (op ≡ op_rjump_byte) ⊎ (op ≡ op_rjumpi_byte) ⊎ (op ≡ op_rjumpv_byte)
      → (traits op).is_terminating ≡ false
  unfolding traits
  jumps_go_on op (inl e) = ap (λ n. (traits n).is_terminating) e
  jumps_go_on op (inr (inl e)) = ap (λ n. (traits n).is_terminating) e
  jumps_go_on op (inr (inr e)) = ap (λ n. (traits n).is_terminating) e

  target_place :
      (i place : ℕ) → pos i +ℤ read_int16_be code place +ℤ pos 3 ≡ destination code place (i + 3)
  target_place i place = eq_of_parts _ _ (
      omega (
        arith,
        +ℤ_parts (pos i) (read_int16_be code place),
        +ℤ_parts (pos i +ℤ read_int16_be code place) (pos 3),
        +ℤ_parts (pos (i + 3)) (read_int16_be code place),
      ))

  pub jumps-IsBelow :
      (i : ℕ) (height : ℤ) (s s' : HeightState) (bound : ℕ)
      → IsBelow code s bound
      → ((traits (get_or code i 0)).is_terminating ≡ false → is_neg height ≡ false)
      → ((place post_pos : ℕ)
          → IsOffset code i place post_pos
          → Starts code 0 (pos_part (destination code place post_pos)))
      → validate_jumps code i (i + immediates code i + 1) height s ≡ valid s'
      → IsBelow code s' bound
  unfolding validate_jumps
  jumps-IsBelow i height s s' bound below up targets e =
      let op = get_or code i 0 in
      let jumps = op == op_rjump_byte || op == op_rjumpi_byte in
      elim (Bool-cases jumps) [
        | inl jump ↦
            successor-IsBelow s s' bound _ height below
              (subst (λ z. Starts code 0 (pos_part z)) (sym (target_place i (i + 1)))
                (targets (i + 1) (i + 3) (jump_offset (ground arith))))
              (up (jumps_go_on op (ground arith))) (sym (if-true jumps _ _ jump) ∙ e)
        | inr other ↦ elim (Bool-cases (op == op_rjumpv_byte)) [
          | inl table ↦
              targets-IsBelow (i + immediates code i + 1) height (get_or code (i + 1) 0 + 1) (i + 2)
                s s' bound below (up (jumps_go_on op (ground arith)))
                (λ k less. targets _ _ (table_offset k (ground arith) (omega (arith, less))))
                (sym (if-true (op == op_rjumpv_byte) _ _ table)
                  ∙ sym (if-false jumps _ _ other)
                  ∙ e)
          | inr plain ↦
              subst (λ s. IsBelow code s bound)
                (valid-injective (
                  sym (if-false (op == op_rjumpv_byte) _ _ plain)
                  ∙ sym (if-false jumps _ _ other)
                  ∙ e))
                below
        ]
      ]
