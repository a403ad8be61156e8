-- ===== src/Gas/Table.antt =====
-- lib/assigner/evmone/baseline_instruction_table.cpp: the cost tables of a revision for legacy
-- code and for EOF code.
use evm_assigner.Base.{ℕ, ℤ, ◌==◌, ◌||◌, ◌&&◌, Bool, if◌then◌else◌}
use evm_assigner.Revision.{Revision, rank}
use evm_assigner.Gas.{gas_costs, undefined}

abbrev is_prague : Revision → Bool
is_prague rev = rank rev == 13

-- OP_RJUMP, OP_RJUMPI, OP_RJUMPV, OP_CALLF, OP_RETF, OP_JUMPF and the OP_DATA instructions.
abbrev pub is_eof_only : ℕ → Bool
is_eof_only op =
    op == 0xe0
    || op == 0xe1
    || op == 0xe2
    || op == 0xe3
    || op == 0xe4
    || op == 0xe5
    || op == 0xe8
    || op == 0xe9
    || op == 0xea
    || op == 0xeb

-- OP_JUMP, OP_JUMPI, OP_PC, OP_CALLCODE and OP_SELFDESTRUCT.
abbrev pub is_legacy_only : ℕ → Bool
is_legacy_only op = op == 0x56 || op == 0x57 || op == 0x58 || op == 0xf2 || op == 0xff

unfoldable pub legacy_cost_tables : Revision → ℕ → ℤ
legacy_cost_tables rev op = if is_prague rev && is_eof_only op then undefined else gas_costs rev op

unfoldable pub eof_cost_tables : Revision → ℕ → ℤ
eof_cost_tables rev op = if is_prague rev && is_legacy_only op then undefined else gas_costs rev op

unfoldable pub get_baseline_cost_table : Revision → ℕ → ℕ → ℤ
get_baseline_cost_table rev eof_version =
    if eof_version == 0 then legacy_cost_tables rev else eof_cost_tables rev
