-- ===== src/Eof/Terminates.antt =====
-- The loop of `validate_max_stack_height` (lib/assigner/evmone/eof.cpp), on a code section that the
-- validations before have accepted.
use evm_assigner.Base.{
  ℕ, zero, suc, ◌+◌, ◌≤◌, ◌<◌, ◌≡◌, ◌≢◌, ◌⊎◌, inl, inr, refl, sym, ap, ◌∙◌, arith, pos, pos_part,
  ◌+ℤ◌, ltb_ℤ, false, ◌==◌, List, [], ◌∷◌, length, get_or, Option, none, some,
}
use mathlib.Core.Path.{subst}
use mathlib.Core.Option.{none-ne-some, some-injective}
use evm_assigner.Traits.{traits}
use evm_assigner.Eof.{
  and_then, Validated, valid, EofCodeType, read_uint16_be, non_returning_function, stack_underflow,
}
use evm_assigner.Eof.Inversion.{and_then-eq-none, fail_if-eq-valid, >>=-eq-valid}
use evm_assigner.Eof.Code.{op_callf_byte, type_of}
use evm_assigner.Eof.Jumps.{fill_n, immediates, destination}
use evm_assigner.Eof.Starts.{Starts, here}
use evm_assigner.Eof.Targets.{IsOffset}
use evm_assigner.Eof.StackHeight.{
  HeightState, loc_immediate, height_effect, validate_next, pop, visit, visit_all, first_heights,
  validate_max_stack_height,
}
use evm_assigner.Eof.Count.{unvisited, filled-le, first-unvisited}
use evm_assigner.Eof.Covers.{IsBounded, height_effect-covers}
use evm_assigner.Eof.Visit.{AllStarts, IsBelow, next-IsBelow, jumps-IsBelow}

List-cases : (xs : List ℕ) → (xs ≡ []) ⊎ ((x : ℕ) × (ys : List ℕ) × (xs ≡ x ∷ ys))
List-cases [] = inl refl
List-cases (x ∷ xs) = inr (x, xs, refl)

module _ (code : List ℕ) (func_index : ℕ) (code_types : List EofCodeType)
    (targets : (i place post_pos : ℕ)
      → Starts code 0 i
      → IsOffset code i place post_pos
      → Starts code 0 (pos_part (destination code place post_pos)))
    (called : (i : ℕ)
      → Starts code 0 i
      → get_or code i 0 ≡ op_callf_byte
      → IsBounded (type_of code_types (read_uint16_be code (i + 1)))
        × ((type_of code_types (read_uint16_be code (i + 1))).outputs == non_returning_function
            ≡ false)) where
  visit-IsBelow :
      (i : ℕ) (s s' : HeightState) (bound : ℕ)
      → IsBelow code s bound
      → Starts code 0 i
      → visit code func_index code_types i s ≡ valid s'
      → IsBelow code s' bound
  unfolding visit
  visit-IsBelow i s s' bound below start e =
      let size = immediates code i in
      let height = s.stack_heights i in
      let (effect, effects, e1) =
        >>=-eq-valid (height_effect code func_index code_types i height) _ e in
      let (enough, e2) = fail_if-eq-valid (ltb_ℤ height effect.0) stack_underflow _ e1 in
      let filled : HeightState = record s {
        stack_heights = fill_n s.stack_heights (i + 1) size loc_immediate;
      } in
      let (s1, went_on, jumped) =
        >>=-eq-valid (validate_next code i (i + size + 1) (height +ℤ effect.1) filled) _ e2 in
      let up = λ (goes_on : (traits (get_or code i 0)).is_terminating ≡ false).
        height_effect-covers code func_index code_types i height effect effects enough goes_on
          (called i start) in
      jumps-IsBelow code i (height +ℤ effect.1) s1 s' bound
        (next-IsBelow code i (height +ℤ effect.1) filled s1 bound
          record {
            starts = below.starts;
            few = omega (arith, below.few, filled-le s.stack_heights (i + 1) size (length code));
          }
          start up went_on)
        up (λ place post_pos. targets i place post_pos start) jumped

  abbrev after : ℕ → HeightState → ℕ → List ℕ → Option (Validated HeightState)
  after fuel s i worklist =
      and_then (some (visit code func_index code_types i (record s { worklist = worklist })))
        (visit_all code func_index code_types fuel)

  ended :
      (fuel : ℕ) (s : HeightState)
      → s.worklist ≡ []
      → visit_all code func_index code_types fuel s ≡ some (valid s)
  unfolding visit_all
  ended zero s empty = ap (λ xs. pop xs (some (valid s)) λ i worklist. none) empty
  ended (suc fuel) s empty = ap (λ xs. pop xs (some (valid s)) (after fuel s)) empty

  -- A round of the loop, at a worklist that is not empty.
  round :
      (fuel : ℕ) (s : HeightState) (i : ℕ) (worklist : List ℕ)
      → s.worklist ≡ i ∷ worklist
      → visit_all code func_index code_types (suc fuel) s ≡ none
      → (s' : HeightState) × (visit code func_index code_types i (record s { worklist = worklist })
          ≡ valid s')
        × (visit_all code func_index code_types fuel s' ≡ none)
  unfolding visit_all
  round fuel s i worklist w e =
      let e' = sym (ap (λ xs. pop xs (some (valid s)) (after fuel s)) w) ∙ e in
      elim (and_then-eq-none
        (some (visit code func_index code_types i (record s { worklist = worklist }))) _ e') [
          | inl out ↦ absurd (none-ne-some _ (sym out))
          | inr (s', visited, rest) ↦ (s', some-injective _ _ visited, rest)
        ]

  no_work : (worklist : List ℕ) (n : ℕ) → length worklist + n ≤ 0 → worklist ≡ []
  no_work [] n h = refl
  no_work (x ∷ xs) n h = absurd (omega (arith, h))

  visit_all-some :
      (fuel : ℕ) (s : HeightState)
      → IsBelow code s fuel
      → visit_all code func_index code_types fuel s ≢ none
  visit_all-some zero s below e =
      none-ne-some _ (sym e ∙ ended 0 s (no_work s.worklist _ below.few))
  visit_all-some (suc fuel) s below e = elim (List-cases s.worklist) [
    | inl empty ↦ none-ne-some _ (sym e ∙ ended (suc fuel) s empty)
    | inr (i, worklist, w) ↦
        let (s', visited, rest) = round fuel s i worklist w e in
        let starts = subst (AllStarts code) w below.starts in
        visit_all-some fuel s'
          (visit-IsBelow i (record s { worklist = worklist }) s' fuel
            record { starts = starts.1; few = omega (arith, below.few, ap {B = ℕ} length w) }
            starts.0 visited)
          rest
  ]

  pub validate_max_stack_height-some :
      0 < length code → validate_max_stack_height code func_index code_types ≢ none
  unfolding validate_max_stack_height
  validate_max_stack_height-some more e =
      let first = first_heights func_index code_types in
      elim (and_then-eq-none (visit_all code func_index code_types (length code) first) _ e) [
        | inl out ↦
            visit_all-some (length code) first
              record { starts = (here 0 more, tt); few = one_reached (length code) more } out
        | inr (s, visited, checked) ↦ none-ne-some _ (sym checked)
      ]
    where
      one_reached :
          (n : ℕ)
          → 0 < n
          → length {A = ℕ} (0 ∷ [])
              + unvisited (first_heights func_index code_types).stack_heights n
            ≤ n
      one_reached zero more = absurd (omega (arith, more))
      one_reached (suc n) more =
          omega (arith, first-unvisited (pos (type_of code_types func_index).inputs) n refl)
