-- ===== src/Instructions/Accounts.antt =====
-- The instructions of lib/assigner/evmone/instructions.hpp that ask the host about an account:
-- BALANCE, EXTCODESIZE, EXTCODEHASH and EXTCODECOPY.
use evm_assigner.Base.{
  ℕ, ℤ, pos, ◌-ℤ◌, is_neg, Bool, true, false, not, ltb, leb, if◌then◌else◌, min,
}
use evm_assigner.Revision.{rank, berlin}
use evm_assigner.Gas.{additional_cold_account_access_cost}
use evm_assigner.Intx.{Intx}
use evm_assigner.Memory.{Memory, check_memory_range, copy_cost, max_buffer_size}
use evm_assigner.Word.{to_uint64, to_address}
use evm_assigner.State.{ExecutionState, success, out_of_gas, item, set_item, log_stack}
use evm_assigner.Host.{HostInterface, Environment, AccessStatus, access_cold, access_warm}
use evm_assigner.Instructions.Copy.{Outcome, log_reads, copy_bytes}

abbrev pub is_cold : AccessStatus → Bool
is_cold access_cold = true
is_cold access_warm = false

module _ {W : Type 0} ⦃host : HostInterface W⦄ where
  -- The access of an account from BERLIN on: whether the gas does not suffice, the gas left, and
  -- the host after the access.
  unfoldable pub charge_account : ℕ → ℤ → Environment W → Bool × (ℤ × Environment W)
  charge_account addr gas_left env =
      let access = host.access_account env.world addr in
      let accessed = record env { world = access.1 } in
      let gas = gas_left -ℤ pos additional_cold_account_access_cost in
      if not (leb (rank berlin) (rank env.state.rev))
      then (false, (gas_left, env))
      else if is_cold access.0
      then (is_neg gas, (gas, accessed))
      else (false, (gas_left, accessed))

  module _ ⦃intx : Intx⦄ where
    -- An instruction that puts what the host knows of an account in the place of its address.
    unfoldable pub ask_account : (W → ℕ → ℕ) → ℕ → ℤ → Environment W → Outcome (Environment W)
    ask_account answer top gas_left env =
        let s = log_stack env.state top 1 0 false in
        let addr = to_address (item s top 0) in
        let charged = charge_account addr gas_left (record env { state = s }) in
        let after = charged.1.1 in
        let answered = log_stack (set_item s top 0 (answer after.world addr)) top 1 0 true in
        if charged.0
        then (out_of_gas, charged.1)
        else (success, (charged.1.0, record after { state = answered }))

    unfoldable pub balance : ℕ → ℤ → Environment W → Outcome (Environment W)
    balance = ask_account host.get_balance

    unfoldable pub extcodesize : ℕ → ℤ → Environment W → Outcome (Environment W)
    extcodesize = ask_account host.get_code_size

    unfoldable pub extcodehash : ℕ → ℤ → Environment W → Outcome (Environment W)
    extcodehash = ask_account host.get_code_hash

    -- The bytes that the host copies, and zeros for the rest of the range; nothing is logged.
    unfoldable pub copy_account_code : ℕ → ExecutionState → Environment W → Environment W
    copy_account_code top s env =
        let size = to_uint64 (item s top 3) 0 in
        let src = min max_buffer_size (to_uint64 (item s top 2) 0) in
        let bytes = host.copy_code env.world (to_address (item s top 0)) src size in
        let memory = copy_bytes env.state.memory (to_uint64 (item s top 1) 0) size bytes in
        if ltb 0 size then record env { state = record env.state { memory = memory } } else env

    -- EXTCODECOPY behind the memory check, whose outcome is `r`.
    unfoldable pub extcodecopy_checked :
        ℕ → ExecutionState → Bool × (ℤ × Memory) → Environment W → Outcome (Environment W)
    extcodecopy_checked top s r env =
        let grown = record env { state = record s { memory = r.1.1 } } in
        let gas = r.1.0 -ℤ pos (copy_cost (to_uint64 (item s top 3) 0)) in
        let charged = charge_account (to_address (item s top 0)) gas grown in
        if not r.0
        then (out_of_gas, (r.1.0, grown))
        else if is_neg gas
        then (out_of_gas, (gas, grown))
        else if charged.0
        then (out_of_gas, charged.1)
        else (success, (charged.1.0, copy_account_code top s charged.1.1))

    unfoldable pub extcodecopy : ℕ → ℤ → Environment W → Outcome (Environment W)
    extcodecopy top gas_left env =
        let s = log_reads top 4 env.state in
        extcodecopy_checked top s
          (check_memory_range gas_left s.memory (item s top 1) (item s top 3)) env
