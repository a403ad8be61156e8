-- ===== src/Eof/Types.antt =====
-- `validate_types` of lib/assigner/evmone/eof.cpp: the type section of a container.
use evm_assigner.Base.{ℕ, zero, suc, ◌+◌, ◌/◌, not, ◌&&◌, ◌||◌, ◌==◌, ltb, List, [], ◌∷◌, get_or}
use evm_assigner.Eof.{
  Validated, valid, ◌>>◌, fail_if, EofCodeType, default_type, read_uint16_be,
  outputs_inputs_number_limit, max_stack_height_limit, non_returning_function,
  invalid_first_section_type, inputs_outputs_num_above_limit, max_stack_height_above_limit,
}

-- The types from an offset on, four bytes each.
unfoldable pub read_types : ℕ → List ℕ → ℕ → List EofCodeType
read_types zero container offset = []
read_types (suc n) container offset =
    record {
      inputs = get_or container offset 0;
      outputs = get_or container (offset + 1) 0;
      max_stack_height = read_uint16_be container (offset + 2);
    }
    ∷ read_types n container (offset + 4)

-- The rounds of a loop that goes up to `size` in steps of 4.
abbrev pub steps_of_4 : ℕ → ℕ
steps_of_4 size = (size + 3) / 4

unfoldable pub check_types : List EofCodeType → Validated (Unit {0})
check_types [] = valid tt
check_types (t ∷ ts) = do
  fail_if
      (ltb outputs_inputs_number_limit t.outputs && not (t.outputs == non_returning_function)
        || ltb outputs_inputs_number_limit t.inputs)
      inputs_outputs_num_above_limit
  fail_if (ltb max_stack_height_limit t.max_stack_height) max_stack_height_above_limit
  check_types ts

unfoldable pub validate_types : List ℕ → ℕ → ℕ → Validated (List EofCodeType)
validate_types container header_size type_section_size =
    let types = read_types (steps_of_4 type_section_size) container header_size in
    let first = get_or types 0 default_type in
    do
      fail_if (not (first.inputs == 0) || not (first.outputs == non_returning_function))
          invalid_first_section_type
      check_types types
      valid types
