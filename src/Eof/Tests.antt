-- ===== src/Eof/Tests.antt =====
-- The validation of EOF containers, at small containers.
use evm_assigner.Base.{
  ◌+◌, ◌≤◌, length, ℕ, ◌≡◌, ◌↔◌, refl, arith, ℤ, pos, List, [], ◌∷◌, true, false, some, pos_part,
  is_neg, inr, ◌+ℤ◌, ◌-ℤ◌,
}
use evm_assigner.Revision.{prague, cancun}
use evm_assigner.Traits.{traits}
use evm_assigner.Gas.Table.{get_baseline_cost_table, eof_cost_tables}
use evm_assigner.Gas.{gas_costs}
use evm_assigner.Opcode.{decode}
use evm_assigner.Eof.{
  EofValidationError, success, eof_version_unknown, invalid_prefix, valid, Eof1Header,
  EofSectionHeaders, get_code, eof_header_size, is_eof_container, get_eof_version,
}
use evm_assigner.Eof.Headers.{
  front, validate_eof_headers, read_headers, read_section_id, read_section_size, read_code_sizes,
  check_bodies,
}
use evm_assigner.Eof.Types.{validate_types, read_types, check_types}
use evm_assigner.Eof.Code.{
  validate_instructions, scan_instructions, validate_instruction, validate_operands,
}
use evm_assigner.Eof.Jumps.{
  validate_rjump_destinations, destination, scan_jumps, instruction_destinations,
  check_rjump_destination, check_table, none_immediate,
}
use evm_assigner.Eof.StackHeight.{
  to_int8, validate_max_stack_height, visit_all, visit, height_effect, validate_next,
  validate_successor, validate_jumps, validate_targets, max_element, any_unvisited, check_heights,
}
use evm_assigner.Eof.Validate.{
  validate_eof1, validate_eof, read_header, code_offsets_from, validate_sections, validate_section,
}
use evm_assigner.Eof.ReadHeader.{read_valid_eof1_header}
use evm_assigner.Eof.Grammar.{IsContainer}
use evm_assigner.Eof.Starts.{Starts, here, later}
use evm_assigner.Eof.Targets.{jump_offset}
use evm_assigner.Eof.Rules.{Rules}
use evm_assigner.Eof.Complete.{validate_eof_headers_iff}
use evm_assigner.Eof.Readers.{read_valid_eof1_header_lem}
use evm_assigner.Eof.Marks.{validate_rjump_destinations-Starts}
use evm_assigner.Eof.Total.{validate_eof-terminates, validate_instructions-Rules}

-- Two code sections: CALLF 1, STOP and PUSH0, POP, RETF; no data.
abbrev call_container : List ℕ
call_container =
    0xef ∷ 0x00 ∷ 0x01 ∷ 0x01 ∷ 0x00 ∷ 0x08 ∷ 0x02 ∷ 0x00 ∷ 0x02 ∷ 0x00 ∷ 0x04 ∷ 0x00 ∷ 0x03 ∷ 0x04
    ∷ 0x00 ∷ 0x00 ∷ 0x00 ∷ 0x00 ∷ 0x80 ∷ 0x00 ∷ 0x00 ∷ 0x00 ∷ 0x00 ∷ 0x00 ∷ 0x01 ∷ 0xe3 ∷ 0x00
    ∷ 0x01 ∷ 0x00 ∷ 0x5f ∷ 0x50 ∷ 0xe4 ∷ []

abbrev call_headers : EofSectionHeaders
call_headers = record { type_sizes = 8 ∷ []; all_code_sizes = 4 ∷ 3 ∷ []; data_sizes = 0 ∷ [] }

abbrev call_header : Eof1Header
call_header = record {
  version = 1;
  code_sizes = 4 ∷ 3 ∷ [];
  code_offsets = 25 ∷ 29 ∷ [];
  data_size = 0;
  types =
      record { inputs = 0; outputs = 0x80; max_stack_height = 0 }
      ∷ record { inputs = 0; outputs = 0; max_stack_height = 1 }
      ∷ [];
}

-- RJUMPI over a JUMPDEST, and STOP.
abbrev jump_code : List ℕ
jump_code = 0x5f ∷ 0xe1 ∷ 0x00 ∷ 0x01 ∷ 0x5b ∷ 0x00 ∷ []

headers_accepted : validate_eof_headers call_container ≡ valid call_headers
unfolding validate_eof_headers read_headers read_section_id read_section_size read_code_sizes
    check_bodies
headers_accepted = refl

accepted : validate_eof1 prague call_container ≡ some (valid call_header)
unfolding validate_eof1 read_header validate_types read_types check_types eof_header_size
    code_offsets_from validate_sections validate_section validate_eof_headers read_headers
    read_section_id read_section_size read_code_sizes check_bodies validate_instructions
    scan_instructions validate_instruction validate_operands get_code traits get_baseline_cost_table
    eof_cost_tables gas_costs decode validate_rjump_destinations scan_jumps instruction_destinations
    check_rjump_destination check_table none_immediate validate_max_stack_height visit_all visit
    height_effect validate_next validate_successor validate_jumps validate_targets max_element
    any_unvisited check_heights ◌-ℤ◌ ◌+ℤ◌
accepted = refl

code_accepted : validate_instructions prague call_header 0 call_container ≡ valid tt
unfolding validate_instructions scan_instructions validate_instruction validate_operands get_code
    traits get_baseline_cost_table eof_cost_tables gas_costs decode
code_accepted = refl

validate_eof_prague : validate_eof prague call_container ≡ some success
unfolding validate_eof is_eof_container get_eof_version validate_eof1 read_header validate_types
    read_types check_types eof_header_size code_offsets_from validate_sections validate_section
    validate_eof_headers read_headers read_section_id read_section_size read_code_sizes check_bodies
    validate_instructions scan_instructions validate_instruction validate_operands get_code traits
    get_baseline_cost_table eof_cost_tables gas_costs decode validate_rjump_destinations scan_jumps
    instruction_destinations check_rjump_destination check_table none_immediate
    validate_max_stack_height visit_all visit height_effect validate_next validate_successor
    validate_jumps validate_targets max_element any_unvisited check_heights ◌-ℤ◌ ◌+ℤ◌
validate_eof_prague = refl

validate_eof_cancun : validate_eof cancun call_container ≡ some eof_version_unknown
unfolding validate_eof is_eof_container get_eof_version
validate_eof_cancun = refl

validate_eof_legacy : validate_eof prague (0x60 ∷ 0x00 ∷ []) ≡ some invalid_prefix
unfolding validate_eof is_eof_container get_eof_version
validate_eof_legacy = refl

jumps_accepted : validate_rjump_destinations jump_code ≡ true
unfolding validate_rjump_destinations scan_jumps instruction_destinations check_rjump_destination
    check_table none_immediate traits ◌+ℤ◌
jumps_accepted = refl

-- A jump into the immediate of a PUSH1.
into_immediate : validate_rjump_destinations (0xe0 ∷ 0x00 ∷ 0x01 ∷ 0x60 ∷ 0x00 ∷ 0x00 ∷ []) ≡ false
unfolding validate_rjump_destinations scan_jumps instruction_destinations check_rjump_destination
    check_table none_immediate traits ◌+ℤ◌
into_immediate = refl

-- The number of items that a JUMPF from a function with 100 outputs to one with 100 inputs and no
-- output requires, as the code computes it.
wrapped_requirement : to_int8 (pos 200) ≡ ℤ.negsuc 55
unfolding ◌+ℤ◌ ◌-ℤ◌
wrapped_requirement = refl

validate_eof_headers_iff_example :
    (validate_eof_headers call_container ≡ valid call_headers)
    ↔ IsContainer call_container call_headers
validate_eof_headers_iff_example = validate_eof_headers_iff call_container call_headers

read_valid_eof1_header_example :
    (read_valid_eof1_header call_container ≡ some call_header)
    × (headers : EofSectionHeaders) × (validate_eof_headers call_container ≡ valid headers)
    × (eof_header_size headers + front headers.type_sizes ≤ length call_container)
read_valid_eof1_header_example =
    read_valid_eof1_header_lem prague call_container call_header accepted

validate_eof-terminates_example :
    (error : EofValidationError) × (validate_eof prague call_container ≡ some error)
validate_eof-terminates_example = validate_eof-terminates prague call_container

validate_instructions-Rules_example :
    Rules
      (get_baseline_cost_table prague 1)
      call_header.types
      call_header.data_size
      (get_code call_header call_container 0)
      0
unfolding get_code
validate_instructions-Rules_example =
    validate_instructions-Rules prague call_header 0 call_container 0 code_accepted
      (here 0 (omega arith))

second_start : Starts jump_code 0 1
unfolding traits
second_start = later 0 1 (omega arith) (here 1 (omega arith))

validate_rjump_destinations-Starts_example :
    (is_neg (destination jump_code 2 4) ≡ false)
    × Starts jump_code 0 (pos_part (destination jump_code 2 4))
validate_rjump_destinations-Starts_example =
    validate_rjump_destinations-Starts jump_code 1 2 4 jumps_accepted second_start
      (jump_offset (inr refl))
