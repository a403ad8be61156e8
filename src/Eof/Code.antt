-- ===== src/Eof/Code.antt =====
-- `validate_instructions` of lib/assigner/evmone/eof.cpp: the instructions of a code section, one
-- after the other.
use evm_assigner.Base.{
  ℕ, zero, suc, ◌+◌, ◌-◌, ◌*◌, ℤ, neg_part, pos_part, Bool, true, false, not, ◌&&◌, ◌||◌, ◌==◌, ltb,
  leb, if◌then◌else◌, List, length, get_or,
}
use evm_assigner.Revision.{Revision}
use evm_assigner.Gas.Table.{get_baseline_cost_table}
use evm_assigner.Traits.{traits}
use evm_assigner.Eof.{
  Validated, valid, ◌>>=◌, ◌>>◌, fail_if, EofCodeType, default_type, Eof1Header, get_code,
  read_uint16_be, non_returning_function, undefined_instruction, truncated_instruction,
  invalid_code_section_index, callf_to_non_returning_function, invalid_dataloadn_index,
  invalid_non_returning_flag,
}

abbrev pub op_rjump_byte : ℕ
op_rjump_byte = 0xe0

abbrev pub op_rjumpi_byte : ℕ
op_rjumpi_byte = 0xe1

abbrev pub op_rjumpv_byte : ℕ
op_rjumpv_byte = 0xe2

abbrev pub op_callf_byte : ℕ
op_callf_byte = 0xe3

abbrev pub op_retf_byte : ℕ
op_retf_byte = 0xe4

abbrev pub op_jumpf_byte : ℕ
op_jumpf_byte = 0xe5

abbrev pub op_dataloadn_byte : ℕ
op_dataloadn_byte = 0xe9

-- The test `cost == instr::undefined`, which is -1.
abbrev pub is_undefined : ℤ → Bool
is_undefined cost = pos_part cost == 0 && neg_part cost == 1

abbrev pub type_of : List EofCodeType → ℕ → EofCodeType
type_of types fid = get_or types fid default_type

module _ (cost_table : ℕ → ℤ) (types : List EofCodeType) (data_size : ℕ) (code : List ℕ) where
  -- What is special of an instruction: the last byte of it, and whether the function is returning
  -- after it.
  unfoldable pub validate_operands : ℕ → ℕ → Bool → Validated (ℕ × Bool)
  validate_operands op i is_returning =
      let count = get_or code (i + 1) 0 + 1 in
      let fid = read_uint16_be code (i + 1) in
      if op == op_rjumpv_byte
      then (do
        fail_if (leb (length code) (i + (1 + count * 2))) truncated_instruction
        valid (i + (1 + count * 2), is_returning))
      else if op == op_callf_byte
      then (do
        fail_if (leb (length types) fid) invalid_code_section_index
        fail_if ((type_of types fid).outputs == non_returning_function)
            callf_to_non_returning_function
        valid (i + 2, is_returning))
      else if op == op_retf_byte
      then valid (i, true)
      else if op == op_jumpf_byte
      then (do
        fail_if (leb (length types) fid) invalid_code_section_index
        valid (
          i + 2,
          (if (type_of types fid).outputs == non_returning_function then is_returning else true),
        ))
      else if op == op_dataloadn_byte
      then (do
        fail_if (ltb data_size 32 || ltb (data_size - 32) fid) invalid_dataloadn_index
        valid (i + 2, is_returning))
      else valid (i + (traits op).immediate_size, is_returning)

  -- The instruction at `i`.
  unfoldable pub validate_instruction : ℕ → Bool → Validated (ℕ × Bool)
  validate_instruction i is_returning =
      let op = get_or code i 0 in
      do
        fail_if (is_undefined (cost_table op)) undefined_instruction
        fail_if (leb (length code) (i + (traits op).immediate_size)) truncated_instruction
        validate_operands op i is_returning

  -- The loop; every round moves `i` forward, so the size of the code is enough fuel.
  unfoldable pub scan_instructions : ℕ → ℕ → Bool → Validated Bool
  scan_instructions zero i is_returning = valid is_returning
  scan_instructions (suc fuel) i is_returning =
      if leb (length code) i
      then valid is_returning
      else (validate_instruction i is_returning >>= λ next.
          scan_instructions fuel (next.0 + 1) next.1)

-- `success` of the source is `valid`.
unfoldable pub validate_instructions : Revision → Eof1Header → ℕ → List ℕ → Validated (Unit {0})
validate_instructions rev header code_idx container =
    let code = get_code header container code_idx in
    let declared_returning =
      not ((type_of header.types code_idx).outputs == non_returning_function) in
    do
      is_returning ←
          scan_instructions (get_baseline_cost_table rev 1) header.types header.data_size code
            (length code) 0 false
      fail_if (if is_returning then not declared_returning else declared_returning)
          invalid_non_returning_flag
