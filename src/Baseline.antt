-- ===== src/Baseline.antt =====
-- lib/assigner/evmone/baseline.cpp and baseline.hpp: the analysis of legacy code, and the checks
-- before every instruction.
pub mod Requirements
pub mod Jumpdests
mod Tests
use evm_assigner.Base.{
  ℕ, zero, suc, ◌+◌, ◌-◌, ◌≤◌, ℤ, pos, ◌-ℤ◌, is_neg, ltb_ℤ, Bool, true, false, ◌&&◌, ◌==◌, leb, ltb,
  if◌then◌else◌, List, [], ◌∷◌, ◌++◌, replicate, length, get_or, Option, some, ◌||◌, not,
}
use evm_assigner.Revision.{Revision, rank, frontier, prague}
use evm_assigner.Eof.{Eof1Header, substr, last_or_zero, map_some, is_eof_container}
use evm_assigner.Eof.ReadHeader.{read_valid_eof1_header}
use evm_assigner.Gas.{gas_costs, has_const_gas_cost}
use evm_assigner.Traits.{Traits, traits}
use evm_assigner.State.{
  StatusCode, success, undefined_instruction, stack_overflow, stack_underflow, out_of_gas,
  stack_limit,
}

-- The comparison as `int8_t`: the bytes from 0x80 on are negative.
abbrev pub is_push : ℕ → Bool
is_push op = leb 0x60 op && ltb op 0x80

-- The map from a byte on, with as many bytes of push data still to skip.
unfoldable pub jumpdests_from : ℕ → List ℕ → List Bool
jumpdests_from skip [] = []
jumpdests_from (suc skip) (op ∷ code) = false ∷ jumpdests_from skip code
jumpdests_from zero (op ∷ code) =
    if is_push op
    then false ∷ jumpdests_from (op - 0x5f) code
    else (op == 0x5b) ∷ jumpdests_from 0 code

unfoldable pub analyze_jumpdests : List ℕ → List Bool
analyze_jumpdests code = jumpdests_from 0 code

-- 32 bytes for the data of a last PUSH32 and one for a STOP.
abbrev pub padding : ℕ
padding = 32 + 1

unfoldable pub pad_code : List ℕ → List ℕ
pad_code code = code ++ replicate padding 0x00

-- The executable code with the padding behind it, of which `code_size` bytes are executable, the
-- map of jump destinations, and the EOF header.
pub record CodeAnalysis : Type 0 where
  pub executable_code : List ℕ
  pub code_size : ℕ
  pub jumpdest_map : List Bool
  pub eof_header : Eof1Header

-- The header of legacy code, as it is initialised.
abbrev pub default_header : Eof1Header
default_header = record {
  version = 0;
  code_sizes = [];
  code_offsets = [];
  data_size = 0;
  types = [];
}

unfoldable pub analyze_legacy : List ℕ → CodeAnalysis
unfolding analyze_jumpdests pad_code
analyze_legacy code = record {
  executable_code = pad_code code;
  code_size = length code;
  jumpdest_map = analyze_jumpdests code;
  eof_header = default_header;
}

-- All code sections, from the start of the first one to the end of the last one.
abbrev pub eof_analysis : List ℕ → Eof1Header → CodeAnalysis
eof_analysis container header =
    let code_sections_offset = get_or header.code_offsets 0 0 in
    let code_sections_end = last_or_zero header.code_offsets + last_or_zero header.code_sizes in
    record {
      executable_code =
          substr container code_sections_offset (code_sections_end - code_sections_offset);
      code_size = code_sections_end - code_sections_offset;
      jumpdest_map = [];
      eof_header = header;
    }

-- `none` where the reader of the header leaves the container.
unfoldable pub analyze_eof1 : List ℕ → Option CodeAnalysis
analyze_eof1 container = map_some (eof_analysis container) (read_valid_eof1_header container)

unfoldable pub analyze : Revision → List ℕ → Option CodeAnalysis
analyze rev code =
    if ltb (rank rev) (rank prague) || not (is_eof_container code)
    then some (analyze_legacy code)
    else analyze_eof1 code

-- The cost that is charged: the first revision's where all have it, else that of the table.
abbrev pub base_cost : (ℕ → ℤ) → ℕ → ℤ
base_cost cost_table op = if has_const_gas_cost op then gas_costs frontier op else cost_table op

abbrev overflows : ℕ → ℕ → Bool
overflows stack_top op = ltb_ℤ (pos 0) (traits op).stack_height_change && stack_top == stack_limit

abbrev underflows : ℕ → ℕ → Bool
underflows stack_top op =
    ltb 0 (traits op).stack_height_required && leb stack_top ((traits op).stack_height_required - 1)

-- The status and the gas left, for a stack of `stack_top` items.
unfoldable pub check_requirements : (ℕ → ℤ) → ℤ → ℕ → ℕ → StatusCode × ℤ
check_requirements cost_table gas_left stack_top op =
    let gas = gas_left -ℤ base_cost cost_table op in
    if (if has_const_gas_cost op then false else is_neg (cost_table op))
    then (undefined_instruction, gas_left)
    else if overflows stack_top op
    then (stack_overflow, gas_left)
    else if underflows stack_top op
    then (stack_underflow, gas_left)
    else if is_neg gas
    then (out_of_gas, gas)
    else (success, gas)
