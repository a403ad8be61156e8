-- ===== src/Traits.antt =====
-- `traits` of lib/assigner/evmone/instructions_traits.hpp: what is known of every instruction in
-- whatever revision. The name, which only messages show, is left out.
use evm_assigner.Base.{ap, ◌≡◌, ℕ, ◌+◌, ℤ, pos, negsuc, Bool, true, false, Option, none, some}
use evm_assigner.Opcode.{
  Opcode, decode, op_add, op_addmod, op_address, op_and, op_balance, op_basefee, op_blobbasefee,
  op_blobhash, op_blockhash, op_byte, op_call, op_callcode, op_calldatacopy, op_calldataload,
  op_calldatasize, op_caller, op_callf, op_callvalue, op_chainid, op_codecopy, op_codesize,
  op_coinbase, op_create, op_create2, op_datacopy, op_dataload, op_dataloadn, op_datasize,
  op_delegatecall, op_div, op_dup, op_dup_top, op_dupn, op_eq, op_exp, op_extcodecopy,
  op_extcodehash, op_extcodesize, op_gas, op_gaslimit, op_gasprice, op_gt, op_invalid, op_iszero,
  op_jump, op_jumpdest, op_jumpf, op_jumpi, op_keccak256, op_log, op_lt, op_mcopy, op_mload,
  op_mload16, op_mload32, op_mload64, op_mload8, op_mod, op_msize, op_mstore, op_mstore16,
  op_mstore32, op_mstore64, op_mstore8, op_mul, op_mulmod, op_not, op_number, op_or, op_origin,
  op_pc, op_pop, op_prevrandao, op_printf, op_push, op_push0, op_retf, op_return, op_returndatacopy,
  op_returndatasize, op_revert, op_rjump, op_rjumpi, op_rjumpv, op_sar, op_sdiv, op_selfbalance,
  op_selfdestruct, op_sgt, op_shl, op_shr, op_signextend, op_sload, op_slt, op_smod, op_sstore,
  op_staticcall, op_stop, op_sub, op_swap, op_swap_top, op_swapn, op_timestamp, op_tload, op_tstore,
  op_xor,
}
use evm_assigner.Revision.{
  Revision, frontier, homestead, byzantium, constantinople, istanbul, london, shanghai, cancun,
  prague,
}

pub record Traits : Type 0 where
  pub immediate_size : ℕ
  pub is_terminating : Bool
  pub stack_height_required : ℕ
  pub stack_height_change : ℤ
  pub since : Option Revision

abbrev entry : ℕ → Bool → ℕ → ℤ → Revision → Traits
entry immediate_size is_terminating stack_height_required stack_height_change since = record {
  immediate_size = immediate_size;
  is_terminating = is_terminating;
  stack_height_required = stack_height_required;
  stack_height_change = stack_height_change;
  since = some since;
}

-- The entry that no assignment touches.
abbrev default_entry : Traits
default_entry = record {
  immediate_size = 0;
  is_terminating = false;
  stack_height_required = 0;
  stack_height_change = pos 0;
  since = none;
}

opcode_traits : Opcode → Traits
opcode_traits op_stop = entry 0 true 0 (pos 0) frontier
opcode_traits op_add = entry 0 false 2 (negsuc 0) frontier
opcode_traits op_mul = entry 0 false 2 (negsuc 0) frontier
opcode_traits op_sub = entry 0 false 2 (negsuc 0) frontier
opcode_traits op_div = entry 0 false 2 (negsuc 0) frontier
opcode_traits op_sdiv = entry 0 false 2 (negsuc 0) frontier
opcode_traits op_mod = entry 0 false 2 (negsuc 0) frontier
opcode_traits op_smod = entry 0 false 2 (negsuc 0) frontier
opcode_traits op_addmod = entry 0 false 3 (negsuc 1) frontier
opcode_traits op_mulmod = entry 0 false 3 (negsuc 1) frontier
opcode_traits op_exp = entry 0 false 2 (negsuc 0) frontier
opcode_traits op_signextend = entry 0 false 2 (negsuc 0) frontier
opcode_traits op_lt = entry 0 false 2 (negsuc 0) frontier
opcode_traits op_gt = entry 0 false 2 (negsuc 0) frontier
opcode_traits op_slt = entry 0 false 2 (negsuc 0) frontier
opcode_traits op_sgt = entry 0 false 2 (negsuc 0) frontier
opcode_traits op_eq = entry 0 false 2 (negsuc 0) frontier
opcode_traits op_iszero = entry 0 false 1 (pos 0) frontier
opcode_traits op_and = entry 0 false 2 (negsuc 0) frontier
opcode_traits op_or = entry 0 false 2 (negsuc 0) frontier
opcode_traits op_xor = entry 0 false 2 (negsuc 0) frontier
opcode_traits op_not = entry 0 false 1 (pos 0) frontier
opcode_traits op_byte = entry 0 false 2 (negsuc 0) frontier
opcode_traits op_shl = entry 0 false 2 (negsuc 0) constantinople
opcode_traits op_shr = entry 0 false 2 (negsuc 0) constantinople
opcode_traits op_sar = entry 0 false 2 (negsuc 0) constantinople
opcode_traits op_keccak256 = entry 0 false 2 (negsuc 0) frontier
opcode_traits op_address = entry 0 false 0 (pos 1) frontier
opcode_traits op_balance = entry 0 false 1 (pos 0) frontier
opcode_traits op_origin = entry 0 false 0 (pos 1) frontier
opcode_traits op_caller = entry 0 false 0 (pos 1) frontier
opcode_traits op_callvalue = entry 0 false 0 (pos 1) frontier
opcode_traits op_calldataload = entry 0 false 1 (pos 0) frontier
opcode_traits op_calldatasize = entry 0 false 0 (pos 1) frontier
opcode_traits op_calldatacopy = entry 0 false 3 (negsuc 2) frontier
opcode_traits op_codesize = entry 0 false 0 (pos 1) frontier
opcode_traits op_codecopy = entry 0 false 3 (negsuc 2) frontier
opcode_traits op_gasprice = entry 0 false 0 (pos 1) frontier
opcode_traits op_extcodesize = entry 0 false 1 (pos 0) frontier
opcode_traits op_extcodecopy = entry 0 false 4 (negsuc 3) frontier
opcode_traits op_returndatasize = entry 0 false 0 (pos 1) byzantium
opcode_traits op_returndatacopy = entry 0 false 3 (negsuc 2) byzantium
opcode_traits op_extcodehash = entry 0 false 1 (pos 0) constantinople
opcode_traits op_blockhash = entry 0 false 1 (pos 0) frontier
opcode_traits op_coinbase = entry 0 false 0 (pos 1) frontier
opcode_traits op_timestamp = entry 0 false 0 (pos 1) frontier
opcode_traits op_number = entry 0 false 0 (pos 1) frontier
opcode_traits op_prevrandao = entry 0 false 0 (pos 1) frontier
opcode_traits op_gaslimit = entry 0 false 0 (pos 1) frontier
opcode_traits op_chainid = entry 0 false 0 (pos 1) istanbul
opcode_traits op_selfbalance = entry 0 false 0 (pos 1) istanbul
opcode_traits op_basefee = entry 0 false 0 (pos 1) london
opcode_traits op_blobhash = entry 0 false 1 (pos 0) cancun
opcode_traits op_blobbasefee = entry 0 false 0 (pos 1) cancun
opcode_traits op_pop = entry 0 false 1 (negsuc 0) frontier
opcode_traits op_mload = entry 0 false 1 (pos 0) frontier
opcode_traits op_mload8 = entry 0 false 1 (pos 0) frontier
opcode_traits op_mload16 = entry 0 false 1 (pos 0) frontier
opcode_traits op_mload32 = entry 0 false 1 (pos 0) frontier
opcode_traits op_mload64 = entry 0 false 1 (pos 0) frontier
opcode_traits op_mstore = entry 0 false 2 (negsuc 1) frontier
opcode_traits op_mstore8 = entry 0 false 2 (negsuc 1) frontier
opcode_traits op_mstore16 = entry 0 false 2 (negsuc 1) frontier
opcode_traits op_mstore32 = entry 0 false 2 (negsuc 1) frontier
opcode_traits op_mstore64 = entry 0 false 2 (negsuc 1) frontier
opcode_traits op_sload = entry 0 false 1 (pos 0) frontier
opcode_traits op_sstore = entry 0 false 2 (negsuc 1) frontier
opcode_traits op_jump = entry 0 false 1 (negsuc 0) frontier
opcode_traits op_jumpi = entry 0 false 2 (negsuc 1) frontier
opcode_traits op_pc = entry 0 false 0 (pos 1) frontier
opcode_traits op_msize = entry 0 false 0 (pos 1) frontier
opcode_traits op_gas = entry 0 false 0 (pos 1) frontier
opcode_traits op_jumpdest = entry 0 false 0 (pos 0) frontier
opcode_traits op_rjump = entry 2 false 0 (pos 0) prague
opcode_traits op_rjumpi = entry 2 false 1 (negsuc 0) prague
opcode_traits op_rjumpv = entry 1 false 1 (negsuc 0) prague
opcode_traits op_tload = entry 0 false 1 (pos 0) cancun
opcode_traits op_tstore = entry 0 false 2 (negsuc 1) cancun
opcode_traits op_push0 = entry 0 false 0 (pos 1) shanghai
opcode_traits op_dup_top = entry 0 false 1 (pos 0) frontier
opcode_traits op_swap_top = entry 0 false 1 (negsuc 0) frontier
opcode_traits op_printf = entry 0 false 0 (pos 0) frontier
opcode_traits op_dupn = entry 1 false 0 (pos 1) prague
opcode_traits op_swapn = entry 1 false 0 (pos 0) prague
opcode_traits op_mcopy = entry 0 false 3 (negsuc 2) cancun
opcode_traits op_dataload = entry 0 false 1 (pos 0) prague
opcode_traits op_dataloadn = entry 2 false 0 (pos 1) prague
opcode_traits op_datasize = entry 0 false 0 (pos 1) prague
opcode_traits op_datacopy = entry 0 false 3 (negsuc 2) prague
opcode_traits op_create = entry 0 false 3 (negsuc 1) frontier
opcode_traits op_call = entry 0 false 7 (negsuc 5) frontier
opcode_traits op_callcode = entry 0 false 7 (negsuc 5) frontier
opcode_traits op_return = entry 0 true 2 (negsuc 1) frontier
opcode_traits op_delegatecall = entry 0 false 6 (negsuc 4) homestead
opcode_traits op_create2 = entry 0 false 4 (negsuc 2) constantinople
opcode_traits op_staticcall = entry 0 false 6 (negsuc 4) byzantium
opcode_traits op_callf = entry 2 false 0 (pos 0) prague
opcode_traits op_retf = entry 0 true 0 (pos 0) prague
opcode_traits op_jumpf = entry 2 true 0 (pos 0) prague
opcode_traits op_revert = entry 0 true 2 (negsuc 1) byzantium
opcode_traits op_invalid = entry 0 true 0 (pos 0) frontier
opcode_traits op_selfdestruct = entry 0 true 1 (negsuc 0) frontier
opcode_traits (op_push n) = entry n false 0 (pos 1) frontier
opcode_traits (op_dup n) = entry 0 false n (pos 1) frontier
opcode_traits (op_swap n) = entry 0 false (n + 1) (pos 0) frontier
opcode_traits (op_log n) = entry 0 false (n + 2) (negsuc (n + 1)) frontier

-- The table, by the byte of the instruction.
unfoldable pub traits : ℕ → Traits
unfolding opcode_traits decode
traits op = elim (decode op) [ none ↦ default_entry | some o ↦ opcode_traits o ]

pub traits-none : (b : ℕ) → decode b ≡ none → traits b ≡ default_entry
unfolding traits
traits-none b e = ap (λ o. elim o [ none ↦ default_entry | some p ↦ opcode_traits p ]) e
