-- ===== src/Interpreter/Counting/Opcodes.antt =====
-- What the instruction of every opcode logs.
use evm_assigner.Base.{ℕ, ℤ, Bool-cases, inl, inr, true, false, ◌==◌, List, none, some}
use evm_assigner.Intx.{Intx}
use evm_assigner.Opcode.{
  Opcode, decode, op_stop, op_add, op_mul, op_sub, op_div, op_sdiv, op_mod, op_smod, op_addmod,
  op_mulmod, op_exp, op_signextend, op_lt, op_gt, op_slt, op_sgt, op_eq, op_iszero, op_and, op_or,
  op_xor, op_not, op_byte, op_shl, op_shr, op_sar, op_keccak256, op_address, op_balance, op_origin,
  op_caller, op_callvalue, op_calldataload, op_calldatasize, op_calldatacopy, op_codesize,
  op_codecopy, op_gasprice, op_extcodesize, op_extcodecopy, op_returndatasize, op_returndatacopy,
  op_extcodehash, op_blockhash, op_coinbase, op_timestamp, op_number, op_prevrandao, op_gaslimit,
  op_chainid, op_selfbalance, op_basefee, op_blobhash, op_blobbasefee, op_mload, op_mstore,
  op_mstore8, op_sload, op_sstore, op_jump, op_jumpi, op_pc, op_msize, op_gas, op_tload, op_tstore,
  op_mcopy, op_push0, op_dup_top, op_swap_top, op_mstore16, op_mstore32, op_mstore64, op_mload8,
  op_mload16, op_mload32, op_mload64, op_rjump, op_rjumpi, op_rjumpv, op_callf, op_retf, op_jumpf,
  op_dupn, op_swapn, op_dataload, op_dataloadn, op_datasize, op_datacopy, op_create, op_call,
  op_callcode, op_return, op_delegatecall, op_create2, op_staticcall, op_revert, op_invalid,
  op_selfdestruct, op_push, op_dup, op_swap, op_log,
}
use evm_assigner.State.{success, revert}
use evm_assigner.Host.{HostInterface, Environment, Message, Result}
use evm_assigner.Instructions.Environment.{
  address, basefee, blobbasefee, blobhash, blockhash, calldataload, calldatasize, caller, callvalue,
  chainid, codesize, coinbase, gaslimit, gasprice, number, origin, prevrandao, returndatasize,
  selfbalance, timestamp,
}
use evm_assigner.Instructions.Storage.{tload}
use evm_assigner.Instructions.Accounts.{balance, extcodehash, extcodesize}
use evm_assigner.Instructions.Blocks.{invalid, log, return_, revert_, stop, stop_impl}
use evm_assigner.Instructions.Calls.{CallOpcode, call_, callcode_, delegatecall_, staticcall}
use evm_assigner.Instructions.Creation.{create2_, create_}
use evm_assigner.Interpreter.Instruction.{Instruction, plain, charging, moving, ending, missing}
use evm_assigner.Interpreter.Opcodes.{instruction_of, instruction_at}
use evm_assigner.Interpreter.Counting.{
  Follows, CountedEnvironment, CountedResult, CountedJump, push_item-Counted,
}
use evm_assigner.Interpreter.Counting.Stacks.{
  addmod_-Counted, binary-Counted, dup-Counted, dup_top-Counted, dupn-CountedMove,
  exp-CountedOutcome, jump-CountedMove, jumpi-CountedMove, keccak256-CountedOutcome,
  mcopy-CountedOutcome, mload-CountedOutcome, mstore-CountedOutcome, mulmod_-Counted, pc-Counted,
  push-Counted, rjump-CountedMove, rjumpi-CountedMove, rjumpv-CountedMove, swap-Counted,
  swap_top-Counted, swapn-CountedMove, unary-Counted,
}
use evm_assigner.Interpreter.Counting.Hosts.{
  ask_account-Counted, extcodecopy-Counted, gas-Counted, push_known-Counted, replace_top-Counted,
  return_impl-Counted, selfdestruct-Counted, sload-Counted, sstore-Counted, tstore-Counted,
}
use evm_assigner.Interpreter.Counting.Callers.{
  call_impl-Counted, calldatacopy-Counted, callf-Counted, codecopy-Counted, create_impl-Counted,
  datacopy-Counted, dataload-Counted, dataloadn-Counted, datasize-Counted, jumpf-Counted,
  retf-Counted, returndatacopy-Counted,
}
use evm_assigner.State.{ExecutionState}

abbrev pub IsCounting : ExecutionState → {W : Type 0} → Instruction W → Type 0
IsCounting start {W} (plain f) =
    (top : ℕ) (env : Environment W) → Follows start env.state → CountedEnvironment start (f top env)
IsCounting start {W} (charging f) =
    (top : ℕ) (g : ℤ) (env : Environment W)
    → Follows start env.state
    → CountedResult start (f top g env)
IsCounting start {W} (moving f) =
    (top : ℕ) (env : Environment W) (pos : ℕ)
    → Follows start env.state
    → CountedJump start (f top env pos)
IsCounting start {W} (ending f) =
    (top : ℕ) (g : ℤ) (env : Environment W)
    → Follows start env.state
    → CountedResult start (f top g env)
IsCounting start _ = Unit {0}

module _ (start : ExecutionState) {W : Type 0} ⦃host : HostInterface W⦄ ⦃intx : Intx⦄
    (keccak : List ℕ → ℕ) (host_call : W → Message → Result × W) where
  instruction_of-IsCounting : (o : Opcode) → IsCounting start (instruction_of keccak host_call o)
  unfolding instruction_of address balance basefee blobbasefee blobhash blockhash call_ callcode_
      calldataload calldatasize caller callvalue chainid codesize coinbase create2_ create_
      delegatecall_ extcodehash extcodesize gaslimit gasprice invalid log number origin prevrandao
      return_ returndatasize revert_ selfbalance staticcall stop stop_impl timestamp tload
  instruction_of-IsCounting op_stop = λ top g env h. record { counted = h }
  instruction_of-IsCounting op_add =
      λ top env h. record { counted = binary-Counted top env.state h _ }
  instruction_of-IsCounting op_mul =
      λ top env h. record { counted = binary-Counted top env.state h _ }
  instruction_of-IsCounting op_sub =
      λ top env h. record { counted = binary-Counted top env.state h _ }
  instruction_of-IsCounting op_div =
      λ top env h. record { counted = binary-Counted top env.state h _ }
  instruction_of-IsCounting op_sdiv =
      λ top env h. record { counted = binary-Counted top env.state h _ }
  instruction_of-IsCounting op_mod =
      λ top env h. record { counted = binary-Counted top env.state h _ }
  instruction_of-IsCounting op_smod =
      λ top env h. record { counted = binary-Counted top env.state h _ }
  instruction_of-IsCounting op_addmod =
      λ top env h. record { counted = addmod_-Counted top env.state h }
  instruction_of-IsCounting op_mulmod =
      λ top env h. record { counted = mulmod_-Counted top env.state h }
  instruction_of-IsCounting op_exp =
      λ top g env h. record { counted = (exp-CountedOutcome top env.state h g).counted }
  instruction_of-IsCounting op_signextend =
      λ top env h. record { counted = binary-Counted top env.state h _ }
  instruction_of-IsCounting op_lt =
      λ top env h. record { counted = binary-Counted top env.state h _ }
  instruction_of-IsCounting op_gt =
      λ top env h. record { counted = binary-Counted top env.state h _ }
  instruction_of-IsCounting op_slt =
      λ top env h. record { counted = binary-Counted top env.state h _ }
  instruction_of-IsCounting op_sgt =
      λ top env h. record { counted = binary-Counted top env.state h _ }
  instruction_of-IsCounting op_eq =
      λ top env h. record { counted = binary-Counted top env.state h _ }
  instruction_of-IsCounting op_iszero =
      λ top env h. record { counted = unary-Counted top env.state h _ }
  instruction_of-IsCounting op_and =
      λ top env h. record { counted = binary-Counted top env.state h _ }
  instruction_of-IsCounting op_or =
      λ top env h. record { counted = binary-Counted top env.state h _ }
  instruction_of-IsCounting op_xor =
      λ top env h. record { counted = binary-Counted top env.state h _ }
  instruction_of-IsCounting op_not =
      λ top env h. record { counted = unary-Counted top env.state h _ }
  instruction_of-IsCounting op_byte =
      λ top env h. record { counted = binary-Counted top env.state h _ }
  instruction_of-IsCounting op_shl =
      λ top env h. record { counted = binary-Counted top env.state h _ }
  instruction_of-IsCounting op_shr =
      λ top env h. record { counted = binary-Counted top env.state h _ }
  instruction_of-IsCounting op_sar =
      λ top env h. record { counted = binary-Counted top env.state h _ }
  instruction_of-IsCounting op_keccak256 = λ top g env h. record {
    counted = (keccak256-CountedOutcome top env.state h keccak g).counted;
  }
  instruction_of-IsCounting op_address = λ top env h. push_known-Counted _ top env h
  instruction_of-IsCounting op_balance =
      λ top g env h. ask_account-Counted host.get_balance top g env h
  instruction_of-IsCounting op_origin = λ top env h. push_known-Counted _ top env h
  instruction_of-IsCounting op_caller = λ top env h. push_known-Counted _ top env h
  instruction_of-IsCounting op_callvalue = λ top env h. push_known-Counted _ top env h
  instruction_of-IsCounting op_calldataload = λ top env h. replace_top-Counted _ top env h
  instruction_of-IsCounting op_calldatasize = λ top env h. push_known-Counted _ top env h
  instruction_of-IsCounting op_calldatacopy = λ top g env h. calldatacopy-Counted top env h g
  instruction_of-IsCounting op_codesize = λ top env h. push_known-Counted _ top env h
  instruction_of-IsCounting op_codecopy = λ top g env h. codecopy-Counted top env h g
  instruction_of-IsCounting op_gasprice = λ top env h. push_known-Counted _ top env h
  instruction_of-IsCounting op_extcodesize =
      λ top g env h. ask_account-Counted host.get_code_size top g env h
  instruction_of-IsCounting op_extcodecopy = λ top g env h. extcodecopy-Counted top g env h
  instruction_of-IsCounting op_returndatasize = λ top env h. push_known-Counted _ top env h
  instruction_of-IsCounting op_returndatacopy = λ top g env h. returndatacopy-Counted top env h g
  instruction_of-IsCounting op_extcodehash =
      λ top g env h. ask_account-Counted host.get_code_hash top g env h
  instruction_of-IsCounting op_blockhash = λ top env h. replace_top-Counted _ top env h
  instruction_of-IsCounting op_coinbase = λ top env h. push_known-Counted _ top env h
  instruction_of-IsCounting op_timestamp = λ top env h. push_known-Counted _ top env h
  instruction_of-IsCounting op_number = λ top env h. push_known-Counted _ top env h
  instruction_of-IsCounting op_prevrandao = λ top env h. push_known-Counted _ top env h
  instruction_of-IsCounting op_gaslimit = λ top env h. push_known-Counted _ top env h
  instruction_of-IsCounting op_chainid = λ top env h. push_known-Counted _ top env h
  instruction_of-IsCounting op_selfbalance = λ top env h. push_known-Counted _ top env h
  instruction_of-IsCounting op_basefee = λ top env h. push_known-Counted _ top env h
  instruction_of-IsCounting op_blobhash = λ top env h. replace_top-Counted _ top env h
  instruction_of-IsCounting op_blobbasefee = λ top env h. push_known-Counted _ top env h
  instruction_of-IsCounting op_mload =
      λ top g env h. record { counted = (mload-CountedOutcome top env.state h g).counted }
  instruction_of-IsCounting op_mstore =
      λ top g env h. record { counted = (mstore-CountedOutcome top env.state h 32 g).counted }
  instruction_of-IsCounting op_mstore8 =
      λ top g env h. record { counted = (mstore-CountedOutcome top env.state h 1 g).counted }
  instruction_of-IsCounting op_sload = λ top g env h. sload-Counted top g env h
  instruction_of-IsCounting op_sstore = λ top g env h. sstore-Counted top g env h
  instruction_of-IsCounting op_jump =
      λ top env pc h. record { counted = (jump-CountedMove top env.state h pc).counted }
  instruction_of-IsCounting op_jumpi =
      λ top env pc h. record { counted = (jumpi-CountedMove top env.state h pc).counted }
  instruction_of-IsCounting op_pc =
      λ top env pos h. record { counted = pc-Counted top env.state h pos }
  instruction_of-IsCounting op_msize =
      λ top env h. record { counted = push_item-Counted _ top env.state h }
  instruction_of-IsCounting op_gas = λ top g env h. gas-Counted top g env h
  instruction_of-IsCounting op_tload = λ top env h. replace_top-Counted _ top env h
  instruction_of-IsCounting op_tstore = λ top g env h. tstore-Counted top g env h
  instruction_of-IsCounting op_mcopy =
      λ top g env h. record { counted = (mcopy-CountedOutcome top env.state h g).counted }
  instruction_of-IsCounting op_push0 =
      λ top env h. record { counted = push_item-Counted _ top env.state h }
  instruction_of-IsCounting op_dup_top =
      λ top env h. record { counted = dup_top-Counted top env.state h }
  instruction_of-IsCounting op_swap_top =
      λ top env h. record { counted = swap_top-Counted top env.state h }
  instruction_of-IsCounting op_mstore16 =
      λ top g env h. record { counted = (mstore-CountedOutcome top env.state h 2 g).counted }
  instruction_of-IsCounting op_mstore32 =
      λ top g env h. record { counted = (mstore-CountedOutcome top env.state h 4 g).counted }
  instruction_of-IsCounting op_mstore64 =
      λ top g env h. record { counted = (mstore-CountedOutcome top env.state h 8 g).counted }
  instruction_of-IsCounting op_mload8 =
      λ top g env h. record { counted = (mload-CountedOutcome top env.state h g).counted }
  instruction_of-IsCounting op_mload16 =
      λ top g env h. record { counted = (mload-CountedOutcome top env.state h g).counted }
  instruction_of-IsCounting op_mload32 =
      λ top g env h. record { counted = (mload-CountedOutcome top env.state h g).counted }
  instruction_of-IsCounting op_mload64 =
      λ top g env h. record { counted = (mload-CountedOutcome top env.state h g).counted }
  instruction_of-IsCounting op_rjump =
      λ top env pc h. record { counted = (rjump-CountedMove top env.state h pc).counted }
  instruction_of-IsCounting op_rjumpi =
      λ top env pc h. record { counted = (rjumpi-CountedMove top env.state h pc).counted }
  instruction_of-IsCounting op_rjumpv =
      λ top env pc h. record { counted = (rjumpv-CountedMove top env.state h pc).counted }
  instruction_of-IsCounting op_callf = λ top env pc h. callf-Counted top env h pc
  instruction_of-IsCounting op_retf = λ top env pc h. retf-Counted top env h
  instruction_of-IsCounting op_jumpf = λ top env pc h. jumpf-Counted top env h pc
  instruction_of-IsCounting op_dupn =
      λ top env pc h. record { counted = (dupn-CountedMove top env.state h pc).counted }
  instruction_of-IsCounting op_swapn =
      λ top env pc h. record { counted = (swapn-CountedMove top env.state h pc).counted }
  instruction_of-IsCounting op_dataload = λ top env h. dataload-Counted top env h
  instruction_of-IsCounting op_dataloadn = λ top env pc h. dataloadn-Counted top env h pc
  instruction_of-IsCounting op_datasize = λ top env h. datasize-Counted top env h
  instruction_of-IsCounting op_datacopy = λ top g env h. datacopy-Counted top env h g
  instruction_of-IsCounting op_create =
      λ top g env h. create_impl-Counted host_call false top g env h
  instruction_of-IsCounting op_call =
      λ top g env h. call_impl-Counted host_call CallOpcode.op_call top g env h
  instruction_of-IsCounting op_callcode =
      λ top g env h. call_impl-Counted host_call CallOpcode.op_callcode top g env h
  instruction_of-IsCounting op_return = λ top g env h. return_impl-Counted success top g env h
  instruction_of-IsCounting op_delegatecall =
      λ top g env h. call_impl-Counted host_call CallOpcode.op_delegatecall top g env h
  instruction_of-IsCounting op_create2 =
      λ top g env h. create_impl-Counted host_call true top g env h
  instruction_of-IsCounting op_staticcall =
      λ top g env h. call_impl-Counted host_call CallOpcode.op_staticcall top g env h
  instruction_of-IsCounting op_revert = λ top g env h. return_impl-Counted revert top g env h
  instruction_of-IsCounting op_invalid = λ top g env h. record { counted = h }
  instruction_of-IsCounting op_selfdestruct = λ top g env h. selfdestruct-Counted top g env h
  instruction_of-IsCounting (op_push n) =
      λ top env pos h. record { counted = push-Counted top env.state h n pos }
  instruction_of-IsCounting (op_dup n) =
      λ top env h. record { counted = dup-Counted top env.state h n }
  instruction_of-IsCounting (op_swap n) =
      λ top env h. record { counted = swap-Counted top env.state h n }
  instruction_of-IsCounting (op_log n) = elim (Bool-cases (n == 1)) [
    | inl one ↦ rw one (λ top env h. record { counted = h })
    | inr other ↦ rw other tt
  ]
  instruction_of-IsCounting _ = tt

  pub instruction_at-IsCounting : (op : ℕ) → IsCounting start (instruction_at keccak host_call op)
  unfolding instruction_at
  instruction_at-IsCounting op =
      elim (decode op)
        as (λ o.
          IsCounting start
            (elim o [ none ↦ missing | some opcode ↦ instruction_of keccak host_call opcode ])) [
              | none ↦ tt
              | some o ↦ instruction_of-IsCounting o
            ]
