-- ===== src/Interpreter/Opcodes.antt =====
-- MAP_OPCODES of lib/assigner/evmone/instructions_xmacro.hpp: the implementation of every opcode.
use evm_assigner.Base.{ℕ, ◌==◌, if◌then◌else◌, List, none, some}
use evm_assigner.Intx.{Intx}
use evm_assigner.Opcode.{
  Opcode, decode, op_stop, op_add, op_mul, op_sub, op_div, op_sdiv, op_mod, op_smod, op_addmod,
  op_mulmod, op_exp, op_signextend, op_lt, op_gt, op_slt, op_sgt, op_eq, op_iszero, op_and, op_or,
  op_xor, op_not, op_byte, op_shl, op_shr, op_sar, op_keccak256, op_address, op_balance, op_origin,
  op_caller, op_callvalue, op_calldataload, op_calldatasize, op_calldatacopy, op_codesize,
  op_codecopy, op_gasprice, op_extcodesize, op_extcodecopy, op_returndatasize, op_returndatacopy,
  op_extcodehash, op_blockhash, op_coinbase, op_timestamp, op_number, op_prevrandao, op_gaslimit,
  op_chainid, op_selfbalance, op_basefee, op_blobhash, op_blobbasefee, op_pop, op_mload, op_mstore,
  op_mstore8, op_sload, op_sstore, op_jump, op_jumpi, op_pc, op_msize, op_gas, op_jumpdest,
  op_tload, op_tstore, op_mcopy, op_push0, op_dup_top, op_swap_top, op_printf, op_mstore16,
  op_mstore32, op_mstore64, op_mload8, op_mload16, op_mload32, op_mload64, op_rjump, op_rjumpi,
  op_rjumpv, op_callf, op_retf, op_jumpf, op_dupn, op_swapn, op_dataload, op_dataloadn, op_datasize,
  op_datacopy, op_create, op_call, op_callcode, op_return, op_delegatecall, op_create2,
  op_staticcall, op_revert, op_invalid, op_selfdestruct, op_push, op_dup, op_swap, op_log,
}
use evm_assigner.Host.{HostInterface, Message, Result}
use evm_assigner.Interpreter.Instruction.{
  Instruction, stack_only, plain, charging, moving, ending, missing, plain_state, charging_state,
  ending_state, moving_state, advancing_state,
}
use evm_assigner.Instructions.{
  add, mul, sub, div, sdiv_, mod_, smod_, addmod_, mulmod_, exp, signextend, lt, gt, slt, sgt, eq,
  iszero, and_, or_, xor_, not_, byte, shl, shr, sar,
}
use evm_assigner.Instructions.Stack.{push0, pc, msize, push, dup, swap, dup_top, swap_top}
use evm_assigner.Instructions.MemoryAccess.{mload, mstore, jump, jumpi}
use evm_assigner.Instructions.Environment.{
  address, origin, caller, callvalue, calldataload, calldatasize, codesize, gasprice,
  returndatasize, blockhash, coinbase, timestamp, number, prevrandao, gaslimit, chainid,
  selfbalance, basefee, blobhash, blobbasefee,
}
use evm_assigner.Instructions.Copy.{keccak256, calldatacopy, codecopy, returndatacopy}
use evm_assigner.Instructions.Accounts.{balance, extcodesize, extcodehash, extcodecopy}
use evm_assigner.Instructions.Storage.{gas, tload, tstore, sload, sstore, selfdestruct}
use evm_assigner.Instructions.EofCode.{
  rjump, rjumpi, rjumpv, dupn, swapn, callf, retf, jumpf, dataload, dataloadn, datasize, datacopy,
}
use evm_assigner.Instructions.Blocks.{mcopy, return_, revert_, stop, invalid, log}
use evm_assigner.Instructions.Calls.{call_, callcode_, delegatecall_, staticcall}
use evm_assigner.Instructions.Creation.{create_, create2_}

module _ {W : Type 0} ⦃host : HostInterface W⦄ ⦃intx : Intx⦄ (keccak : List ℕ → ℕ)
    (host_call : W → Message → Result × W) where
  unfoldable pub instruction_of : Opcode → Instruction W
  instruction_of op_stop = ending_state stop
  instruction_of op_add = plain_state add
  instruction_of op_mul = plain_state mul
  instruction_of op_sub = plain_state sub
  instruction_of op_div = plain_state div
  instruction_of op_sdiv = plain_state sdiv_
  instruction_of op_mod = plain_state mod_
  instruction_of op_smod = plain_state smod_
  instruction_of op_addmod = plain_state addmod_
  instruction_of op_mulmod = plain_state mulmod_
  instruction_of op_exp = charging_state exp
  instruction_of op_signextend = plain_state signextend
  instruction_of op_lt = plain_state lt
  instruction_of op_gt = plain_state gt
  instruction_of op_slt = plain_state slt
  instruction_of op_sgt = plain_state sgt
  instruction_of op_eq = plain_state eq
  instruction_of op_iszero = plain_state iszero
  instruction_of op_and = plain_state and_
  instruction_of op_or = plain_state or_
  instruction_of op_xor = plain_state xor_
  instruction_of op_not = plain_state not_
  instruction_of op_byte = plain_state byte
  instruction_of op_shl = plain_state shl
  instruction_of op_shr = plain_state shr
  instruction_of op_sar = plain_state sar
  instruction_of op_keccak256 = charging_state (keccak256 keccak)
  instruction_of op_address = plain address
  instruction_of op_balance = charging balance
  instruction_of op_origin = plain origin
  instruction_of op_caller = plain caller
  instruction_of op_callvalue = plain callvalue
  instruction_of op_calldataload = plain calldataload
  instruction_of op_calldatasize = plain calldatasize
  instruction_of op_calldatacopy = charging calldatacopy
  instruction_of op_codesize = plain codesize
  instruction_of op_codecopy = charging codecopy
  instruction_of op_gasprice = plain gasprice
  instruction_of op_extcodesize = charging extcodesize
  instruction_of op_extcodecopy = charging extcodecopy
  instruction_of op_returndatasize = plain returndatasize
  instruction_of op_returndatacopy = charging returndatacopy
  instruction_of op_extcodehash = charging extcodehash
  instruction_of op_blockhash = plain blockhash
  instruction_of op_coinbase = plain coinbase
  instruction_of op_timestamp = plain timestamp
  instruction_of op_number = plain number
  instruction_of op_prevrandao = plain prevrandao
  instruction_of op_gaslimit = plain gaslimit
  instruction_of op_chainid = plain chainid
  instruction_of op_selfbalance = plain selfbalance
  instruction_of op_basefee = plain basefee
  instruction_of op_blobhash = plain blobhash
  instruction_of op_blobbasefee = plain blobbasefee
  instruction_of op_pop = stack_only
  instruction_of op_mload = charging_state mload
  instruction_of op_mstore = charging_state (mstore 32)
  instruction_of op_mstore8 = charging_state (mstore 1)
  instruction_of op_sload = charging sload
  instruction_of op_sstore = charging sstore
  instruction_of op_jump = moving_state jump
  instruction_of op_jumpi = moving_state jumpi
  instruction_of op_pc = advancing_state pc
  instruction_of op_msize = plain_state msize
  instruction_of op_gas = charging gas
  instruction_of op_jumpdest = stack_only
  instruction_of op_tload = plain tload
  instruction_of op_tstore = charging tstore
  instruction_of op_mcopy = charging_state mcopy
  instruction_of op_push0 = plain_state push0
  instruction_of op_dup_top = plain_state dup_top
  instruction_of op_swap_top = plain_state swap_top
  instruction_of op_printf = missing
  instruction_of op_mstore16 = charging_state (mstore 2)
  instruction_of op_mstore32 = charging_state (mstore 4)
  instruction_of op_mstore64 = charging_state (mstore 8)
  instruction_of op_mload8 = charging_state mload
  instruction_of op_mload16 = charging_state mload
  instruction_of op_mload32 = charging_state mload
  instruction_of op_mload64 = charging_state mload
  instruction_of op_rjump = moving_state (λ top. rjump)
  instruction_of op_rjumpi = moving_state rjumpi
  instruction_of op_rjumpv = moving_state rjumpv
  instruction_of op_callf = moving callf
  instruction_of op_retf = moving (λ top env pc. retf env)
  instruction_of op_jumpf = moving jumpf
  instruction_of op_dupn = moving_state dupn
  instruction_of op_swapn = moving_state swapn
  instruction_of op_dataload = plain dataload
  instruction_of op_dataloadn = moving dataloadn
  instruction_of op_datasize = plain datasize
  instruction_of op_datacopy = charging datacopy
  instruction_of op_create = charging (create_ host_call)
  instruction_of op_call = charging (call_ host_call)
  instruction_of op_callcode = charging (callcode_ host_call)
  instruction_of op_return = ending return_
  instruction_of op_delegatecall = charging (delegatecall_ host_call)
  instruction_of op_create2 = charging (create2_ host_call)
  instruction_of op_staticcall = charging (staticcall host_call)
  instruction_of op_revert = ending revert_
  instruction_of op_invalid = ending_state invalid
  instruction_of op_selfdestruct = ending selfdestruct
  instruction_of (op_push n) = advancing_state (push n)
  instruction_of (op_dup n) = plain_state (dup n)
  instruction_of (op_swap n) = plain_state (swap n)
  instruction_of (op_log n) = if n == 1 then plain_state log else missing

  -- The `switch` over the byte of the opcode.
  unfoldable pub instruction_at : ℕ → Instruction W
  instruction_at op = elim (decode op) [ none ↦ missing | some opcode ↦ instruction_of opcode ]
