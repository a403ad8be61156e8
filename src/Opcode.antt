-- ===== src/Opcode.antt =====
-- lib/assigner/evmone/instructions_opcodes.hpp: the opcodes and their bytes. The families PUSH1 to
-- PUSH32, DUP1 to DUP16, SWAP1 to SWAP16 and LOG0 to LOG4 are one constructor each, with the
-- number; OP_DUP and OP_SWAP, which take it from the stack, are `op_dup_top` and `op_swap_top`.
pub mod Codes
use evm_assigner.Base.{
  ℕ, ◌+◌, ◌-◌, ◌&&◌, ◌==◌, leb, if◌then◌else◌, Option, none, some, List, [], ◌∷◌,
}

pub data Opcode : Type 0 where
  op_stop op_add op_mul op_sub op_div op_sdiv op_mod op_smod op_addmod op_mulmod op_exp : Opcode
  op_signextend op_lt op_gt op_slt op_sgt op_eq op_iszero op_and op_or op_xor op_not : Opcode
  op_byte op_shl op_shr op_sar op_keccak256 op_address op_balance op_origin op_caller : Opcode
  op_callvalue op_calldataload op_calldatasize op_calldatacopy op_codesize op_codecopy : Opcode
  op_gasprice op_extcodesize op_extcodecopy op_returndatasize op_returndatacopy : Opcode
  op_extcodehash op_blockhash op_coinbase op_timestamp op_number op_prevrandao : Opcode
  op_gaslimit op_chainid op_selfbalance op_basefee op_blobhash op_blobbasefee op_pop : Opcode
  op_mload op_mstore op_mstore8 op_sload op_sstore op_jump op_jumpi op_pc op_msize : Opcode
  op_gas op_jumpdest op_tload op_tstore op_mcopy op_push0 op_dup_top op_swap_top : Opcode
  op_printf op_mstore16 op_mstore32 op_mstore64 op_mload8 op_mload16 op_mload32 : Opcode
  op_mload64 op_rjump op_rjumpi op_rjumpv op_callf op_retf op_jumpf op_dupn op_swapn : Opcode
  op_dataload op_dataloadn op_datasize op_datacopy op_create op_call op_callcode : Opcode
  op_return op_delegatecall op_create2 op_staticcall op_revert op_invalid : Opcode
  op_selfdestruct : Opcode
  op_push op_dup op_swap op_log : ℕ → Opcode

-- The byte of an opcode, its value in the enumeration.
unfoldable pub opcode_byte : Opcode → ℕ
opcode_byte op_stop = 0x00
opcode_byte op_add = 0x01
opcode_byte op_mul = 0x02
opcode_byte op_sub = 0x03
opcode_byte op_div = 0x04
opcode_byte op_sdiv = 0x05
opcode_byte op_mod = 0x06
opcode_byte op_smod = 0x07
opcode_byte op_addmod = 0x08
opcode_byte op_mulmod = 0x09
opcode_byte op_exp = 0x0a
opcode_byte op_signextend = 0x0b
opcode_byte op_lt = 0x10
opcode_byte op_gt = 0x11
opcode_byte op_slt = 0x12
opcode_byte op_sgt = 0x13
opcode_byte op_eq = 0x14
opcode_byte op_iszero = 0x15
opcode_byte op_and = 0x16
opcode_byte op_or = 0x17
opcode_byte op_xor = 0x18
opcode_byte op_not = 0x19
opcode_byte op_byte = 0x1a
opcode_byte op_shl = 0x1b
opcode_byte op_shr = 0x1c
opcode_byte op_sar = 0x1d
opcode_byte op_keccak256 = 0x20
opcode_byte op_address = 0x30
opcode_byte op_balance = 0x31
opcode_byte op_origin = 0x32
opcode_byte op_caller = 0x33
opcode_byte op_callvalue = 0x34
opcode_byte op_calldataload = 0x35
opcode_byte op_calldatasize = 0x36
opcode_byte op_calldatacopy = 0x37
opcode_byte op_codesize = 0x38
opcode_byte op_codecopy = 0x39
opcode_byte op_gasprice = 0x3a
opcode_byte op_extcodesize = 0x3b
opcode_byte op_extcodecopy = 0x3c
opcode_byte op_returndatasize = 0x3d
opcode_byte op_returndatacopy = 0x3e
opcode_byte op_extcodehash = 0x3f
opcode_byte op_blockhash = 0x40
opcode_byte op_coinbase = 0x41
opcode_byte op_timestamp = 0x42
opcode_byte op_number = 0x43
opcode_byte op_prevrandao = 0x44
opcode_byte op_gaslimit = 0x45
opcode_byte op_chainid = 0x46
opcode_byte op_selfbalance = 0x47
opcode_byte op_basefee = 0x48
opcode_byte op_blobhash = 0x49
opcode_byte op_blobbasefee = 0x4a
opcode_byte op_pop = 0x50
opcode_byte op_mload = 0x51
opcode_byte op_mstore = 0x52
opcode_byte op_mstore8 = 0x53
opcode_byte op_sload = 0x54
opcode_byte op_sstore = 0x55
opcode_byte op_jump = 0x56
opcode_byte op_jumpi = 0x57
opcode_byte op_pc = 0x58
opcode_byte op_msize = 0x59
opcode_byte op_gas = 0x5a
opcode_byte op_jumpdest = 0x5b
opcode_byte op_tload = 0x5c
opcode_byte op_tstore = 0x5d
opcode_byte op_mcopy = 0x5e
opcode_byte op_push0 = 0x5f
opcode_byte op_dup_top = 0xa7
opcode_byte op_swap_top = 0xa6
opcode_byte op_printf = 0xa5
opcode_byte op_mstore16 = 0xb0
opcode_byte op_mstore32 = 0xb1
opcode_byte op_mstore64 = 0xb2
opcode_byte op_mload8 = 0xc0
opcode_byte op_mload16 = 0xc1
opcode_byte op_mload32 = 0xc2
opcode_byte op_mload64 = 0xc3
opcode_byte op_rjump = 0xe0
opcode_byte op_rjumpi = 0xe1
opcode_byte op_rjumpv = 0xe2
opcode_byte op_callf = 0xe3
opcode_byte op_retf = 0xe4
opcode_byte op_jumpf = 0xe5
opcode_byte op_dupn = 0xe6
opcode_byte op_swapn = 0xe7
opcode_byte op_dataload = 0xe8
opcode_byte op_dataloadn = 0xe9
opcode_byte op_datasize = 0xea
opcode_byte op_datacopy = 0xeb
opcode_byte op_create = 0xf0
opcode_byte op_call = 0xf1
opcode_byte op_callcode = 0xf2
opcode_byte op_return = 0xf3
opcode_byte op_delegatecall = 0xf4
opcode_byte op_create2 = 0xf5
opcode_byte op_staticcall = 0xfa
opcode_byte op_revert = 0xfd
opcode_byte op_invalid = 0xfe
opcode_byte op_selfdestruct = 0xff
opcode_byte (op_push n) = 0x5f + n
opcode_byte (op_dup n) = 0x7f + n
opcode_byte (op_swap n) = 0x8f + n
opcode_byte (op_log n) = 0xa0 + n

abbrev plain_opcodes : List Opcode
plain_opcodes =
    op_stop ∷ op_add ∷ op_mul ∷ op_sub ∷ op_div ∷ op_sdiv ∷ op_mod ∷ op_smod ∷ op_addmod ∷ op_mulmod
    ∷ op_exp ∷ op_signextend ∷ op_lt ∷ op_gt ∷ op_slt ∷ op_sgt ∷ op_eq ∷ op_iszero ∷ op_and ∷ op_or
    ∷ op_xor ∷ op_not ∷ op_byte ∷ op_shl ∷ op_shr ∷ op_sar ∷ op_keccak256 ∷ op_address ∷ op_balance
    ∷ op_origin ∷ op_caller ∷ op_callvalue ∷ op_calldataload ∷ op_calldatasize ∷ op_calldatacopy
    ∷ op_codesize ∷ op_codecopy ∷ op_gasprice ∷ op_extcodesize ∷ op_extcodecopy ∷ op_returndatasize
    ∷ op_returndatacopy ∷ op_extcodehash ∷ op_blockhash ∷ op_coinbase ∷ op_timestamp ∷ op_number
    ∷ op_prevrandao ∷ op_gaslimit ∷ op_chainid ∷ op_selfbalance ∷ op_basefee ∷ op_blobhash
    ∷ op_blobbasefee ∷ op_pop ∷ op_mload ∷ op_mstore ∷ op_mstore8 ∷ op_sload ∷ op_sstore ∷ op_jump
    ∷ op_jumpi ∷ op_pc ∷ op_msize ∷ op_gas ∷ op_jumpdest ∷ op_tload ∷ op_tstore ∷ op_mcopy
    ∷ op_push0 ∷ op_dup_top ∷ op_swap_top ∷ op_printf ∷ op_mstore16 ∷ op_mstore32 ∷ op_mstore64
    ∷ op_mload8 ∷ op_mload16 ∷ op_mload32 ∷ op_mload64 ∷ op_rjump ∷ op_rjumpi ∷ op_rjumpv ∷ op_callf
    ∷ op_retf ∷ op_jumpf ∷ op_dupn ∷ op_swapn ∷ op_dataload ∷ op_dataloadn ∷ op_datasize
    ∷ op_datacopy ∷ op_create ∷ op_call ∷ op_callcode ∷ op_return ∷ op_delegatecall ∷ op_create2
    ∷ op_staticcall ∷ op_revert ∷ op_invalid ∷ op_selfdestruct ∷ []

find_byte : ℕ → List Opcode → Option Opcode
find_byte b [] = none
find_byte b (o ∷ opcodes) =
    let rest = find_byte b opcodes in if opcode_byte o == b then some o else rest

-- The opcode of a byte, `none` where the enumeration has none.
unfoldable pub decode : ℕ → Option Opcode
unfolding find_byte opcode_byte
decode b =
    if leb 0x60 b && leb b 0x7f
    then some (op_push (b - 0x5f))
    else if leb 0x80 b && leb b 0x8f
    then some (op_dup (b - 0x7f))
    else if leb 0x90 b && leb b 0x9f
    then some (op_swap (b - 0x8f))
    else if leb 0xa0 b && leb b 0xa4
    then some (op_log (b - 0xa0))
    else find_byte b plain_opcodes
