-- ===== src/Eof/StackHeight.antt =====
-- `validate_max_stack_height` of lib/assigner/evmone/eof.cpp: the stack heights of a code section,
-- by a worklist of the instructions that have been reached.
use evm_assigner.Base.{
  ℕ, zero, suc, ◌+◌, ◌-◌, ◌%◌, ℤ, pos, negsuc, pos_part, neg_part, ◌+ℤ◌, ◌-ℤ◌, ltb_ℤ, Bool, false,
  not, ◌&&◌, ◌||◌, ◌==◌, ltb, leb, if◌then◌else◌, Option, none, some, List, [], ◌∷◌, length, get_or,
}
use evm_assigner.Traits.{traits}
use evm_assigner.Eof.{
  Validated, valid, invalid, ◌>>=◌, ◌>>◌, fail_if, and_then, EofCodeType, read_uint16_be,
  read_int16_be, rel_offset_size, stack_size_limit, non_returning_function, stack_overflow,
  jumpf_destination_incompatible_outputs, stack_higher_than_outputs_required, stack_underflow,
  no_terminating_instruction, stack_height_mismatch, unreachable_instructions,
}
use evm_assigner.Eof.Code.{
  op_rjump_byte, op_rjumpi_byte, op_rjumpv_byte, op_callf_byte, op_retf_byte, op_jumpf_byte,
  type_of,
}
use evm_assigner.Eof.Jumps.{fill_n, immediates}

abbrev pub loc_unvisited : ℤ
loc_unvisited = negsuc 0

abbrev pub loc_immediate : ℤ
loc_immediate = negsuc 1

abbrev pub is_unvisited : ℤ → Bool
is_unvisited (pos n) = false
is_unvisited (negsuc n) = n == 0

abbrev pub ==ℤ : ℤ → ℤ → Bool
==ℤ a b = pos_part a == pos_part b && neg_part a == neg_part b

pub record HeightState : Type 0 where
  pub stack_heights : ℕ → ℤ
  pub worklist : List ℕ

-- `static_cast<int8_t>`, of numbers from -512 on.
abbrev pub to_int8 : ℤ → ℤ
to_int8 z = let v = pos_part (z +ℤ pos 512) % 256 in if ltb v 128 then pos v else pos v -ℤ pos 256

-- The height that is required, and the change.
unfoldable pub height_effect : List ℕ → ℕ → List EofCodeType → ℕ → ℤ → Validated (ℤ × ℤ)
height_effect code func_index code_types i stack_height =
    let op = get_or code i 0 in
    let callee = type_of code_types (read_uint16_be code (i + 1)) in
    let own_outputs = (type_of code_types func_index).outputs in
    let required = pos (traits op).stack_height_required in
    let change = (traits op).stack_height_change in
    if op == op_callf_byte
    then (let required = to_int8 (pos callee.inputs) in
        do
          fail_if
              (ltb_ℤ (pos stack_size_limit)
                (stack_height +ℤ pos callee.max_stack_height -ℤ required))
              stack_overflow
          valid (required, to_int8 (pos callee.outputs -ℤ required)))
    else if op == op_jumpf_byte
    then (do
      fail_if
          (ltb_ℤ (pos stack_size_limit)
            (stack_height +ℤ pos callee.max_stack_height -ℤ pos callee.inputs))
          stack_overflow
      (if callee.outputs == non_returning_function
          then valid (to_int8 (pos callee.inputs), change)
          else (let required = to_int8 (pos (own_outputs + callee.inputs) -ℤ pos callee.outputs) in
              do
                fail_if (ltb own_outputs callee.outputs) jumpf_destination_incompatible_outputs
                fail_if (ltb_ℤ required stack_height) stack_higher_than_outputs_required
                valid (required, change))))
    else if op == op_retf_byte
    then (do
      fail_if (ltb_ℤ (pos own_outputs) stack_height) stack_higher_than_outputs_required
      valid (to_int8 (pos own_outputs), change))
    else valid (required, change)

-- The successor is put on the worklist when it is new; `invalid` is the mismatch that the callers
-- return.
unfoldable pub validate_successor : HeightState → ℕ → ℤ → Validated HeightState
validate_successor s successor_offset expected =
    if is_unvisited (s.stack_heights successor_offset)
    then valid record {
      stack_heights = λ k. if k == successor_offset then expected else s.stack_heights k;
      worklist = successor_offset ∷ s.worklist;
    }
    else if ==ℤ (s.stack_heights successor_offset) expected
    then valid s
    else invalid stack_height_mismatch

-- `n` entries of a jump table, from a place on.
unfoldable pub validate_targets : List ℕ → ℕ → ℤ → ℕ → ℕ → HeightState → Validated HeightState
validate_targets code next stack_height zero place s = valid s
validate_targets code next stack_height (suc n) place s =
    validate_successor s (pos_part (pos next +ℤ read_int16_be code place)) stack_height
    >>= validate_targets code next stack_height n (place + rel_offset_size)

-- The next instruction, unless the instruction is RJUMP or terminating.
unfoldable pub validate_next : List ℕ → ℕ → ℕ → ℤ → HeightState → Validated HeightState
validate_next code i next stack_height s =
    if not (traits (get_or code i 0)).is_terminating && not (get_or code i 0 == op_rjump_byte)
    then (do
      fail_if (leb (length code) next) no_terminating_instruction
      validate_successor s next stack_height)
    else valid s

-- The targets of relative jumps. Where a target would be negative, it is not used:
-- `validate_rjump_destinations` has refused the code before.
unfoldable pub validate_jumps : List ℕ → ℕ → ℕ → ℤ → HeightState → Validated HeightState
validate_jumps code i next stack_height s =
    let op = get_or code i 0 in
    if op == op_rjump_byte || op == op_rjumpi_byte
    then validate_successor s (pos_part (pos i +ℤ read_int16_be code (i + 1) +ℤ pos 3)) stack_height
    else if op == op_rjumpv_byte
    then validate_targets code next stack_height (get_or code (i + 1) 0 + 1) (i + 2) s
    else valid s

-- The test of the loop, and the top of the worklist.
abbrev pub pop {ℓ} : {A : Type ℓ} → List ℕ → A → (ℕ → List ℕ → A) → A
pop [] at_end go_on = at_end
pop (i ∷ worklist) at_end go_on = go_on i worklist

module _ (code : List ℕ) (func_index : ℕ) (code_types : List EofCodeType) where
  -- A round of the loop, for the instruction at `i` taken from the worklist.
  unfoldable pub visit : ℕ → HeightState → Validated HeightState
  visit i s =
      let next = i + immediates code i + 1 in
      let stack_height = s.stack_heights i in
      do
        effect ← height_effect code func_index code_types i stack_height
        fail_if (ltb_ℤ stack_height effect.0) stack_underflow
        s ← validate_next code i next (stack_height +ℤ effect.1) record s {
          stack_heights = fill_n s.stack_heights (i + 1) (immediates code i) loc_immediate;
        }
        validate_jumps code i next (stack_height +ℤ effect.1) s

  -- The loop; `none` when the fuel does not suffice.
  unfoldable pub visit_all : ℕ → HeightState → Option (Validated HeightState)
  visit_all zero s = pop s.worklist (some (valid s)) λ i worklist. none
  visit_all (suc fuel) s =
      pop s.worklist (some (valid s))
        λ i worklist. and_then (some (visit i record s { worklist = worklist })) (visit_all fuel)

abbrev max_ℤ : ℤ → ℤ → ℤ
max_ℤ a b = if ltb_ℤ a b then b else a

-- The greatest of the heights up to `n`.
unfoldable pub max_element : (ℕ → ℤ) → ℕ → ℤ
max_element heights zero = heights 0
max_element heights (suc n) = max_ℤ (max_element heights n) (heights (suc n))

-- Whether one of the first `n` bytes has not been reached.
unfoldable pub any_unvisited : (ℕ → ℤ) → ℕ → Bool
any_unvisited heights zero = false
any_unvisited heights (suc n) = is_unvisited (heights n) || any_unvisited heights n

abbrev pub first_heights : ℕ → List EofCodeType → HeightState
first_heights func_index code_types = record {
  stack_heights = λ k. if k == 0 then pos (type_of code_types func_index).inputs else loc_unvisited;
  worklist = 0 ∷ [];
}

unfoldable pub check_heights : ℕ → HeightState → Validated ℤ
check_heights size s = do
  fail_if (any_unvisited s.stack_heights size) unreachable_instructions
  valid (max_element s.stack_heights (size - 1))

-- Every instruction is reached once, so the size of the code is enough fuel.
unfoldable pub validate_max_stack_height : List ℕ → ℕ → List EofCodeType → Option (Validated ℤ)
validate_max_stack_height code func_index code_types =
    and_then
      (visit_all code func_index code_types (length code) (first_heights func_index code_types))
      λ s. some (check_heights (length code) s)
