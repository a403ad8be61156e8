-- ===== src/Gas.antt =====
-- `gas_costs` of lib/assigner/evmone/instructions_traits.hpp: the base cost of every opcode in
-- every revision. A revision that assigns nothing to an opcode has the cost of the one before.
pub mod Table
pub mod Since
pub mod Storage
mod Tests
use evm_assigner.Base.{
  ℕ, ◌+◌, ◌*◌, ℤ, pos, negsuc, pos_part, neg_part, Bool, true, false, ◌&&◌, ◌==◌, if◌then◌else◌,
  List, [], ◌∷◌, Option, none, some,
}
use evm_assigner.Opcode.{
  Opcode, decode, op_add, op_addmod, op_address, op_and, op_balance, op_basefee, op_blobbasefee,
  op_blobhash, op_blockhash, op_byte, op_call, op_callcode, op_calldatacopy, op_calldataload,
  op_calldatasize, op_caller, op_callf, op_callvalue, op_chainid, op_codecopy, op_codesize,
  op_coinbase, op_create, op_create2, op_datacopy, op_dataload, op_dataloadn, op_datasize,
  op_delegatecall, op_div, op_dup, op_dup_top, op_dupn, op_eq, op_exp, op_extcodecopy,
  op_extcodehash, op_extcodesize, op_gas, op_gaslimit, op_gasprice, op_gt, op_invalid, op_iszero,
  op_jump, op_jumpdest, op_jumpf, op_jumpi, op_keccak256, op_log, op_lt, op_mcopy, op_mload,
  op_mload16, op_mload32, op_mload64, op_mload8, op_mod, op_msize, op_mstore, op_mstore16,
  op_mstore32, op_mstore64, op_mstore8, op_mul, op_mulmod, op_not, op_number, op_or, op_origin,
  op_pc, op_pop, op_prevrandao, op_printf, op_push, op_push0, op_retf, op_return, op_returndatacopy,
  op_returndatasize, op_revert, op_rjump, op_rjumpi, op_rjumpv, op_sar, op_sdiv, op_selfbalance,
  op_selfdestruct, op_sgt, op_shl, op_shr, op_signextend, op_sload, op_slt, op_smod, op_sstore,
  op_staticcall, op_stop, op_sub, op_swap, op_swap_top, op_swapn, op_timestamp, op_tload, op_tstore,
  op_xor,
}
use evm_assigner.Revision.{
  Revision, later_revisions, frontier, homestead, tangerine_whistle, spurious_dragon, byzantium,
  constantinople, petersburg, istanbul, berlin, london, paris, shanghai, cancun, prague,
}

-- The mark of an instruction that a revision does not have.
abbrev pub undefined : ℤ
undefined = negsuc 0

abbrev pub cold_sload_cost : ℕ
cold_sload_cost = 2100

abbrev pub cold_account_access_cost : ℕ
cold_account_access_cost = 2600

abbrev pub warm_storage_read_cost : ℕ
warm_storage_read_cost = 100

abbrev pub additional_cold_account_access_cost : ℕ
additional_cold_account_access_cost = 2500

frontier_costs : Opcode → ℤ
frontier_costs op_stop = pos 0
frontier_costs op_add = pos 3
frontier_costs op_mul = pos 5
frontier_costs op_sub = pos 3
frontier_costs op_div = pos 5
frontier_costs op_sdiv = pos 5
frontier_costs op_mod = pos 5
frontier_costs op_smod = pos 5
frontier_costs op_addmod = pos 8
frontier_costs op_mulmod = pos 8
frontier_costs op_exp = pos 10
frontier_costs op_signextend = pos 5
frontier_costs op_lt = pos 3
frontier_costs op_gt = pos 3
frontier_costs op_slt = pos 3
frontier_costs op_sgt = pos 3
frontier_costs op_eq = pos 3
frontier_costs op_iszero = pos 3
frontier_costs op_and = pos 3
frontier_costs op_or = pos 3
frontier_costs op_xor = pos 3
frontier_costs op_not = pos 3
frontier_costs op_byte = pos 3
frontier_costs op_keccak256 = pos 30
frontier_costs op_address = pos 2
frontier_costs op_balance = pos 20
frontier_costs op_origin = pos 2
frontier_costs op_caller = pos 2
frontier_costs op_callvalue = pos 2
frontier_costs op_calldataload = pos 3
frontier_costs op_calldatasize = pos 2
frontier_costs op_calldatacopy = pos 3
frontier_costs op_codesize = pos 2
frontier_costs op_codecopy = pos 3
frontier_costs op_gasprice = pos 2
frontier_costs op_extcodesize = pos 20
frontier_costs op_extcodecopy = pos 20
frontier_costs op_blockhash = pos 20
frontier_costs op_coinbase = pos 2
frontier_costs op_timestamp = pos 2
frontier_costs op_number = pos 2
frontier_costs op_prevrandao = pos 2
frontier_costs op_gaslimit = pos 2
frontier_costs op_pop = pos 2
frontier_costs op_mload = pos 3
frontier_costs op_mload8 = pos 3
frontier_costs op_mload16 = pos 3
frontier_costs op_mload32 = pos 3
frontier_costs op_mload64 = pos 3
frontier_costs op_mstore = pos 3
frontier_costs op_mstore8 = pos 3
frontier_costs op_mstore16 = pos 3
frontier_costs op_mstore32 = pos 3
frontier_costs op_mstore64 = pos 3
frontier_costs op_sload = pos 50
frontier_costs op_sstore = pos 0
frontier_costs op_jump = pos 8
frontier_costs op_jumpi = pos 10
frontier_costs op_pc = pos 2
frontier_costs op_msize = pos 2
frontier_costs op_gas = pos 2
frontier_costs op_jumpdest = pos 1
frontier_costs op_shr = pos 3
frontier_costs op_push0 = pos 2
frontier_costs op_dup_top = pos 3
frontier_costs op_swap_top = pos 3
frontier_costs op_printf = pos 3
frontier_costs op_create = pos 32000
frontier_costs op_call = pos 40
frontier_costs op_callcode = pos 40
frontier_costs op_return = pos 0
frontier_costs op_invalid = pos 0
frontier_costs op_selfdestruct = pos 0
frontier_costs (op_push n) = pos 3
frontier_costs (op_dup n) = pos 3
frontier_costs (op_swap n) = pos 3
-- OP_LOG1 is assigned again after the loop over the family.
frontier_costs (op_log n) = if n == 1 then pos 0 else pos ((n + 1) * 375)
frontier_costs o = undefined

homestead_costs : Opcode → ℤ
homestead_costs op_delegatecall = pos 40
homestead_costs o = frontier_costs o

tangerine_whistle_costs : Opcode → ℤ
tangerine_whistle_costs op_balance = pos 400
tangerine_whistle_costs op_extcodesize = pos 700
tangerine_whistle_costs op_extcodecopy = pos 700
tangerine_whistle_costs op_sload = pos 200
tangerine_whistle_costs op_call = pos 700
tangerine_whistle_costs op_callcode = pos 700
tangerine_whistle_costs op_delegatecall = pos 700
tangerine_whistle_costs op_selfdestruct = pos 5000
tangerine_whistle_costs o = homestead_costs o

spurious_dragon_costs : Opcode → ℤ
spurious_dragon_costs o = tangerine_whistle_costs o

byzantium_costs : Opcode → ℤ
byzantium_costs op_returndatasize = pos 2
byzantium_costs op_returndatacopy = pos 3
byzantium_costs op_staticcall = pos 700
byzantium_costs op_revert = pos 0
byzantium_costs o = spurious_dragon_costs o

constantinople_costs : Opcode → ℤ
constantinople_costs op_shl = pos 3
constantinople_costs op_shr = pos 3
constantinople_costs op_sar = pos 3
constantinople_costs op_extcodehash = pos 400
constantinople_costs op_create2 = pos 32000
constantinople_costs o = byzantium_costs o

petersburg_costs : Opcode → ℤ
petersburg_costs o = constantinople_costs o

istanbul_costs : Opcode → ℤ
istanbul_costs op_balance = pos 700
istanbul_costs op_chainid = pos 2
istanbul_costs op_extcodehash = pos 700
istanbul_costs op_selfbalance = pos 5
istanbul_costs op_sload = pos 800
istanbul_costs o = petersburg_costs o

berlin_costs : Opcode → ℤ
berlin_costs op_extcodesize = pos warm_storage_read_cost
berlin_costs op_extcodecopy = pos warm_storage_read_cost
berlin_costs op_extcodehash = pos warm_storage_read_cost
berlin_costs op_balance = pos warm_storage_read_cost
berlin_costs op_call = pos warm_storage_read_cost
berlin_costs op_callcode = pos warm_storage_read_cost
berlin_costs op_delegatecall = pos warm_storage_read_cost
berlin_costs op_staticcall = pos warm_storage_read_cost
berlin_costs op_sload = pos warm_storage_read_cost
berlin_costs o = istanbul_costs o

london_costs : Opcode → ℤ
london_costs op_basefee = pos 2
london_costs o = berlin_costs o

paris_costs : Opcode → ℤ
paris_costs o = london_costs o

shanghai_costs : Opcode → ℤ
shanghai_costs op_push0 = pos 2
shanghai_costs o = paris_costs o

cancun_costs : Opcode → ℤ
cancun_costs op_blobhash = pos 3
cancun_costs op_blobbasefee = pos 2
cancun_costs op_tload = pos warm_storage_read_cost
cancun_costs op_tstore = pos warm_storage_read_cost
cancun_costs op_mcopy = pos 3
cancun_costs o = shanghai_costs o

prague_costs : Opcode → ℤ
prague_costs op_dupn = pos 3
prague_costs op_swapn = pos 3
prague_costs op_rjump = pos 2
prague_costs op_rjumpi = pos 4
prague_costs op_rjumpv = pos 4
prague_costs op_callf = pos 5
prague_costs op_retf = pos 3
prague_costs op_jumpf = pos 5
prague_costs op_dataload = pos 4
prague_costs op_dataloadn = pos 3
prague_costs op_datasize = pos 2
prague_costs op_datacopy = pos 3
prague_costs o = cancun_costs o

opcode_costs : Revision → Opcode → ℤ
opcode_costs frontier o = frontier_costs o
opcode_costs homestead o = homestead_costs o
opcode_costs tangerine_whistle o = tangerine_whistle_costs o
opcode_costs spurious_dragon o = spurious_dragon_costs o
opcode_costs byzantium o = byzantium_costs o
opcode_costs constantinople o = constantinople_costs o
opcode_costs petersburg o = petersburg_costs o
opcode_costs istanbul o = istanbul_costs o
opcode_costs berlin o = berlin_costs o
opcode_costs london o = london_costs o
opcode_costs paris o = paris_costs o
opcode_costs shanghai o = shanghai_costs o
opcode_costs cancun o = cancun_costs o
opcode_costs prague o = prague_costs o

-- The table, by the byte of the instruction.
unfoldable pub gas_costs : Revision → ℕ → ℤ
unfolding opcode_costs frontier_costs homestead_costs tangerine_whistle_costs spurious_dragon_costs
    byzantium_costs constantinople_costs petersburg_costs istanbul_costs berlin_costs london_costs
    paris_costs shanghai_costs cancun_costs prague_costs decode
gas_costs rev op = elim (decode op) [ none ↦ undefined | some o ↦ opcode_costs rev o ]

-- The test on `int16_t`.
abbrev pub same_cost : ℤ → ℤ → Bool
same_cost a b = (pos_part a == pos_part b) && (neg_part a == neg_part b)

unfoldable all_same : ℤ → ℕ → List Revision → Bool
all_same g op [] = true
all_same g op (r ∷ revs) = same_cost (gas_costs r op) g && all_same g op revs

-- Whether no later revision changes the cost of the first one.
unfoldable pub has_const_gas_cost : ℕ → Bool
unfolding all_same
has_const_gas_cost op = all_same (gas_costs frontier op) op later_revisions
