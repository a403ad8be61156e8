-- ===== src/Instructions/Storage.antt =====
-- The instructions of lib/assigner/evmone/instructions.hpp on storage: TLOAD, TSTORE, SLOAD,
-- SSTORE and SELFDESTRUCT, and GAS.
use evm_assigner.Base.{
  ℕ, ◌+◌, ◌-◌, ℤ, pos, pos_part, ◌+ℤ◌, ◌-ℤ◌, ltb_ℤ, is_neg, Bool, true, false, not, ◌&&◌, ◌||◌,
  ◌==◌, leb, if◌then◌else◌, length,
}
use evm_assigner.Revision.{Revision, rank, berlin, istanbul, tangerine_whistle, london}
use evm_assigner.Gas.{cold_sload_cost, warm_storage_read_cost, cold_account_access_cost}
use evm_assigner.Gas.Storage.{sstore_costs}
use evm_assigner.Intx.{Intx}
use evm_assigner.Word.{to_address}
use evm_assigner.Rw.{storage_operation}
use evm_assigner.State.{
  success, out_of_gas, static_mode_violation, item, set_item, push_back, log_stack,
}
use evm_assigner.Host.{HostInterface, Environment, in_static_mode}
use evm_assigner.Instructions.Stack.{push_item}
use evm_assigner.Instructions.Copy.{Outcome, log_reads}
use evm_assigner.Instructions.Environment.{replace_top}
use evm_assigner.Instructions.Accounts.{is_cold}

module _ {W : Type 0} where
  abbrev pub since : Revision → Environment W → Bool
  since revision env = leb (rank revision) (rank env.state.rev)

  -- The gas left, which is not negative, is pushed.
  unfoldable pub gas : ℕ → ℤ → Environment W → Outcome (Environment W)
  gas top gas_left env =
      (success, (gas_left, record env { state = push_item (pos_part gas_left) top env.state }))

  module _ ⦃host : HostInterface W⦄ where
    unfoldable pub tload : ℕ → Environment W → Environment W
    tload top env = replace_top (host.get_transient_storage env.world env.msg.recipient) top env

    unfoldable pub tstore : ℕ → ℤ → Environment W → Outcome (Environment W)
    tstore top gas_left env =
        let s = log_reads top 2 env.state in
        if in_static_mode env then (static_mode_violation, (pos 0, env)) else (
          success,
          (
            gas_left,
            record env {
              state = s;
              world =
                  host.set_transient_storage env.world env.msg.recipient (item s top 0)
                    (item s top 1);
            },
          ),
        )

    -- The access to a storage slot from BERLIN on: whether it is cold, and the host after it.
    unfoldable pub touch_storage : ℕ → Environment W → Bool × Environment W
    touch_storage key env =
        let access = host.access_storage env.world env.msg.recipient key in
        if since berlin env
        then (is_cold access.0, record env { world = access.1 })
        else (false, env)

    -- SLOAD behind the charge for the access.
    unfoldable pub sload_charged : ℕ → ℤ → Environment W → Outcome (Environment W)
    sload_charged top gas_left env =
        let s = env.state in
        let key = item s top 0 in
        let value = host.get_storage env.world env.msg.recipient key in
        let read = push_back s (
          storage_operation s.call_id env.msg.recipient key (length s.rw_trace) false value
            value) in
        (
          success,
          (gas_left, record env { state = log_stack (set_item read top 0 value) top 1 0 true }),
        )

    unfoldable pub sload : ℕ → ℤ → Environment W → Outcome (Environment W)
    sload top gas_left env =
        let s = log_stack env.state top 1 0 false in
        let touched = touch_storage (item s top 0) (record env { state = s }) in
        let gas = gas_left -ℤ pos (cold_sload_cost - warm_storage_read_cost) in
        if touched.0
        then (if is_neg gas
            then (out_of_gas, (gas, touched.1))
            else sload_charged top gas touched.1)
        else sload_charged top gas_left touched.1

    -- SSTORE behind the access: the operation is logged, the host stores, and the cost is taken.
    unfoldable pub sstore_accessed : ℕ → ℤ → ℕ → Environment W → Outcome (Environment W)
    sstore_accessed top gas_left gas_cost_cold env =
        let s = env.state in
        let key = item s top 0 in
        let value = item s top 1 in
        let logged = push_back s (
          storage_operation s.call_id env.msg.recipient key (length s.rw_trace) true value
            (host.get_storage env.world env.msg.recipient key)) in
        let stored = host.set_storage env.world env.msg.recipient key value in
        let cost = sstore_costs s.rev stored.0 in
        let gas = gas_left -ℤ pos (cost.gas_cost + gas_cost_cold) in
        let env' = record env { state = logged; world = stored.1 } in
        if is_neg gas
        then (out_of_gas, (gas, env'))
        else (success, (gas, record env' { gas_refund = env.gas_refund +ℤ cost.gas_refund }))

    unfoldable pub sstore : ℕ → ℤ → Environment W → Outcome (Environment W)
    sstore top gas_left env =
        let s = log_reads top 2 env.state in
        let touched = touch_storage (item s top 0) (record env { state = s }) in
        if in_static_mode env
        then (static_mode_violation, (gas_left, env))
        else if since istanbul env && not (ltb_ℤ (pos 2300) gas_left)
        then (out_of_gas, (gas_left, env))
        else sstore_accessed top gas_left (if touched.0 then cold_sload_cost else 0) touched.1

    module _ ⦃intx : Intx⦄ where
      -- The host destructs the account; the refund ends with LONDON.
      unfoldable pub destruct : ℕ → ℤ → Environment W → Outcome (Environment W)
      destruct beneficiary gas_left env =
          let destructed = host.selfdestruct env.world env.msg.recipient beneficiary in
          let env' = record env { world = destructed.1 } in
          if destructed.0 && not (since london env)
          then (success, (gas_left, record env' { gas_refund = env.gas_refund +ℤ pos 24000 }))
          else (success, (gas_left, env'))

      -- The cost of a transfer to an account that does not exist.
      unfoldable pub charge_transfer : ℕ → ℤ → Environment W → Outcome (Environment W)
      charge_transfer beneficiary gas_left env =
          let gas = gas_left -ℤ pos 25000 in
          let sends =
            rank env.state.rev == rank tangerine_whistle
            || not (host.get_balance env.world env.msg.recipient == 0) in
          if since tangerine_whistle env && sends && not (host.account_exists env.world beneficiary)
          then (if is_neg gas then (out_of_gas, (gas, env)) else destruct beneficiary gas env)
          else destruct beneficiary gas_left env

      unfoldable pub selfdestruct : ℕ → ℤ → Environment W → Outcome (Environment W)
      selfdestruct top gas_left env =
          let s = log_stack env.state top 1 0 false in
          let logged = record env { state = s } in
          let beneficiary = to_address (item s top 0) in
          let access = host.access_account env.world beneficiary in
          let accessed = record logged { world = access.1 } in
          let gas = gas_left -ℤ pos cold_account_access_cost in
          if in_static_mode env
          then (static_mode_violation, (gas_left, env))
          else if not (since berlin env)
          then charge_transfer beneficiary gas_left logged
          else if not (is_cold access.0)
          then charge_transfer beneficiary gas_left accessed
          else if is_neg gas
          then (out_of_gas, (gas, accessed))
          else charge_transfer beneficiary gas accessed
