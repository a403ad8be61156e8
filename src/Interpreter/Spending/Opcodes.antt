-- ===== src/Interpreter/Spending/Opcodes.antt =====
-- The gas that the instruction of every opcode leaves.
use evm_assigner.Base.{
  refl, ℕ, ℤ, ◌≤ℤ◌, ◌≡◌, ◌==◌, Bool-cases, ◌⊎◌, inl, inr, Bool, true, false, is_neg, List, none,
  some,
}
use evm_assigner.Intx.{Intx}
use evm_assigner.Opcode.{
  Opcode, decode, op_stop, op_exp, op_keccak256, op_balance, op_calldatacopy, op_codecopy,
  op_extcodesize, op_extcodecopy, op_returndatacopy, op_extcodehash, op_mload, op_mstore,
  op_mstore8, op_sload, op_sstore, op_gas, op_tstore, op_mcopy, op_mstore16, op_mstore32,
  op_mstore64, op_mload8, op_mload16, op_mload32, op_mload64, op_datacopy, op_create, op_call,
  op_callcode, op_return, op_delegatecall, op_create2, op_staticcall, op_revert, op_invalid,
  op_selfdestruct, op_log,
}
use evm_assigner.Instructions.Copy.{Outcome}
use evm_assigner.State.{success, revert}
use evm_assigner.Host.{HostInterface, Environment, Message, Result}
use evm_assigner.Instructions.Accounts.{balance, extcodesize, extcodehash}
use evm_assigner.Instructions.Blocks.{return_, revert_, stop, stop_impl, invalid}
use evm_assigner.Instructions.Calls.{CallOpcode, call_, callcode_, delegatecall_, staticcall}
use evm_assigner.Instructions.Creation.{create_, create2_}
use evm_assigner.Interpreter.Instruction.{Instruction, charging, ending, missing}
use evm_assigner.Interpreter.Opcodes.{instruction_of, instruction_at}
use evm_assigner.Interpreter.Spending.{≤ℤ_refl}
use evm_assigner.Interpreter.Spending.Ranges.{
  keccak256-Falls, mcopy-Falls, mload-Falls, mstore-Falls, calldatacopy-Falls, codecopy-Falls,
  returndatacopy-Falls, datacopy-Falls, return_impl-Falls,
}
use evm_assigner.Interpreter.Spending.Hosts.{
  exp-Falls, ask_account-Falls, extcodecopy-Falls, gas-Falls, tstore-Falls, sload-Falls,
  sstore-Falls, selfdestruct-Falls,
}
use evm_assigner.Interpreter.Spending.Callers.{
  HostRaises, FallsOr, call_impl-FallsOr, create_impl-FallsOr,
}

-- The calls and the creations.
abbrev pub is_caller : Opcode → Bool
is_caller op_create = true
is_caller op_call = true
is_caller op_callcode = true
is_caller op_delegatecall = true
is_caller op_create2 = true
is_caller op_staticcall = true
is_caller _ = false

-- The number of a call or of a creation.
abbrev pub is_caller_at : ℕ → Bool
is_caller_at op = elim (decode op) [ none ↦ false | some o ↦ is_caller o ]

-- An instruction leaves no more gas than it found, or something raises it.
abbrev pub IsSpending : {W : Type 0} → Type 0 → Instruction W → Type 0
IsSpending {W} Raises (charging f) =
    (top : ℕ) (g : ℤ) (env : Environment W) → is_neg g ≡ false → ((f top g env).1.0 ≤ℤ g) ⊎ Raises
IsSpending {W} Raises (ending f) =
    (top : ℕ) (g : ℤ) (env : Environment W) → is_neg g ≡ false → ((f top g env).1.0 ≤ℤ g) ⊎ Raises
IsSpending _ _ = Unit {0}

module _ {W : Type 0} ⦃host : HostInterface W⦄ ⦃intx : Intx⦄ (keccak : List ℕ → ℕ)
    (host_call : W → Message → Result × W) where
  -- The host of a call or of a creation raises the gas.
  abbrev pub CallRaises : Bool → Type 0
  CallRaises caller = (caller ≡ true) × HostRaises host_call

  from_call :
      {S : Type 0} (g : ℤ) (o : Outcome S)
      → FallsOr (HostRaises host_call) g o
      → (o.1.0 ≤ℤ g) ⊎ CallRaises true
  from_call g o h = elim h.falls_or [ inl le ↦ inl le | inr raised ↦ inr (refl, raised) ]

  instruction_of-IsSpending :
      (o : Opcode) → IsSpending (CallRaises (is_caller o)) (instruction_of keccak host_call o)
  unfolding instruction_of balance extcodesize extcodehash return_ revert_ stop invalid stop_impl
      call_ callcode_ delegatecall_ staticcall create_ create2_
  instruction_of-IsSpending op_stop = λ top g env paid. inl (≤ℤ_refl g)
  instruction_of-IsSpending op_exp = λ top g env paid. inl ((exp-Falls top g env.state).falls)
  instruction_of-IsSpending op_keccak256 =
      λ top g env paid. inl ((keccak256-Falls top g env.state keccak).falls)
  instruction_of-IsSpending op_balance =
      λ top g env paid. inl ((ask_account-Falls top g env host.get_balance).falls)
  instruction_of-IsSpending op_calldatacopy =
      λ top g env paid. inl ((calldatacopy-Falls top g env).falls)
  instruction_of-IsSpending op_codecopy = λ top g env paid. inl ((codecopy-Falls top g env).falls)
  instruction_of-IsSpending op_extcodesize =
      λ top g env paid. inl ((ask_account-Falls top g env host.get_code_size).falls)
  instruction_of-IsSpending op_extcodecopy =
      λ top g env paid. inl ((extcodecopy-Falls top g env).falls)
  instruction_of-IsSpending op_returndatacopy =
      λ top g env paid. inl ((returndatacopy-Falls top g env).falls)
  instruction_of-IsSpending op_extcodehash =
      λ top g env paid. inl ((ask_account-Falls top g env host.get_code_hash).falls)
  instruction_of-IsSpending op_mload = λ top g env paid. inl ((mload-Falls top g env.state).falls)
  instruction_of-IsSpending op_mstore =
      λ top g env paid. inl ((mstore-Falls top g env.state 32).falls)
  instruction_of-IsSpending op_mstore8 =
      λ top g env paid. inl ((mstore-Falls top g env.state 1).falls)
  instruction_of-IsSpending op_sload = λ top g env paid. inl ((sload-Falls top g env).falls)
  instruction_of-IsSpending op_sstore = λ top g env paid. inl ((sstore-Falls top g env).falls)
  instruction_of-IsSpending op_gas = λ top g env paid. inl ((gas-Falls top g env).falls)
  instruction_of-IsSpending op_tstore = λ top g env paid. inl ((tstore-Falls top g env paid).falls)
  instruction_of-IsSpending op_mcopy = λ top g env paid. inl ((mcopy-Falls top g env.state).falls)
  instruction_of-IsSpending op_mstore16 =
      λ top g env paid. inl ((mstore-Falls top g env.state 2).falls)
  instruction_of-IsSpending op_mstore32 =
      λ top g env paid. inl ((mstore-Falls top g env.state 4).falls)
  instruction_of-IsSpending op_mstore64 =
      λ top g env paid. inl ((mstore-Falls top g env.state 8).falls)
  instruction_of-IsSpending op_mload8 = λ top g env paid. inl ((mload-Falls top g env.state).falls)
  instruction_of-IsSpending op_mload16 = λ top g env paid. inl ((mload-Falls top g env.state).falls)
  instruction_of-IsSpending op_mload32 = λ top g env paid. inl ((mload-Falls top g env.state).falls)
  instruction_of-IsSpending op_mload64 = λ top g env paid. inl ((mload-Falls top g env.state).falls)
  instruction_of-IsSpending op_datacopy = λ top g env paid. inl ((datacopy-Falls top g env).falls)
  instruction_of-IsSpending op_create =
      λ top g env paid. from_call g _ (create_impl-FallsOr g host_call false top env)
  instruction_of-IsSpending op_call =
      λ top g env paid. from_call g _ (call_impl-FallsOr g host_call CallOpcode.op_call top env)
  instruction_of-IsSpending op_callcode =
      λ top g env paid. from_call g _ (call_impl-FallsOr g host_call CallOpcode.op_callcode top env)
  instruction_of-IsSpending op_return =
      λ top g env paid. inl ((return_impl-Falls top g env success).falls)
  instruction_of-IsSpending op_delegatecall = λ top g env paid.
      from_call g _ (call_impl-FallsOr g host_call CallOpcode.op_delegatecall top env)
  instruction_of-IsSpending op_create2 =
      λ top g env paid. from_call g _ (create_impl-FallsOr g host_call true top env)
  instruction_of-IsSpending op_staticcall = λ top g env paid.
      from_call g _ (call_impl-FallsOr g host_call CallOpcode.op_staticcall top env)
  instruction_of-IsSpending op_revert =
      λ top g env paid. inl ((return_impl-Falls top g env revert).falls)
  instruction_of-IsSpending op_invalid = λ top g env paid. inl (≤ℤ_refl g)
  instruction_of-IsSpending op_selfdestruct =
      λ top g env paid. inl ((selfdestruct-Falls top g env).falls)
  instruction_of-IsSpending (op_log n) = elim (Bool-cases (n == 1)) [
    | inl one ↦ rw one tt
    | inr other ↦ rw other tt
  ]
  instruction_of-IsSpending _ = tt

  pub instruction_at-IsSpending :
      (op : ℕ) → IsSpending (CallRaises (is_caller_at op)) (instruction_at keccak host_call op)
  unfolding instruction_at
  instruction_at-IsSpending op =
      elim (decode op)
        as (λ o.
          IsSpending (CallRaises (elim o [ none ↦ false | some opcode ↦ is_caller opcode ]))
            (elim o [ none ↦ missing | some opcode ↦ instruction_of keccak host_call opcode ])) [
              | none ↦ tt
              | some o ↦ instruction_of-IsSpending o
            ]
