-- ===== src/Instructions/Environment.antt =====
-- The instructions of lib/assigner/evmone/instructions.hpp that push what the machine knows of the
-- message, the transaction and the block. `top` is the height of the top item before.
use evm_assigner.Base.{
  ℕ, ◌+◌, ◌-◌, pos, ◌-ℤ◌, ltb_ℤ, not, ◌&&◌, ltb, if◌then◌else◌, true, false, List, ◌++◌, length,
  get_or, take, drop, replicate, min,
}
use evm_assigner.Intx.{Intx}
use evm_assigner.Word.{of_bytes, to_uint64}
use evm_assigner.State.{item, set_item, log_stack}
use evm_assigner.Host.{HostInterface, Environment, to_int64, int64_to_uint64}
use evm_assigner.Instructions.Stack.{push_item}

module _ ⦃intx : Intx⦄ where
  -- The 32 bytes of a list from `index` on, with zeros behind its end.
  unfoldable pub load_data : List ℕ → ℕ → ℕ
  load_data input index =
      let begin = to_uint64 index 0 in
      let copied = min (begin + 32) (length input) - begin in
      if ltb (length input) begin
      then 0
      else of_bytes (take copied (drop begin input) ++ replicate (32 - copied) 0) 32

module _ {W : Type 0} where
  -- A push of `v`, with its write logged.
  unfoldable pub push_known : ℕ → ℕ → Environment W → Environment W
  push_known v top env = record env { state = push_item v top env.state }

  -- `stack[0] = f(stack[0])`, with the read and the write logged.
  unfoldable pub replace_top : (ℕ → ℕ) → ℕ → Environment W → Environment W
  replace_top f top env =
      let s = log_stack env.state top 1 0 false in
      record env { state = log_stack (set_item s top 0 (f (item s top 0))) top 1 0 true }

  unfoldable pub address : ℕ → Environment W → Environment W
  address top env = push_known env.msg.recipient top env

  unfoldable pub origin : ℕ → Environment W → Environment W
  origin top env = push_known env.tx_context.tx_origin top env

  unfoldable pub caller : ℕ → Environment W → Environment W
  caller top env = push_known env.msg.sender top env

  unfoldable pub callvalue : ℕ → Environment W → Environment W
  callvalue top env = push_known env.msg.value top env

  unfoldable pub calldatasize : ℕ → Environment W → Environment W
  calldatasize top env = push_known (length env.msg.input_data) top env

  unfoldable pub codesize : ℕ → Environment W → Environment W
  codesize top env = push_known (length env.original_code) top env

  unfoldable pub gasprice : ℕ → Environment W → Environment W
  gasprice top env = push_known env.tx_context.tx_gas_price top env

  unfoldable pub basefee : ℕ → Environment W → Environment W
  basefee top env = push_known env.tx_context.block_base_fee top env

  unfoldable pub blobbasefee : ℕ → Environment W → Environment W
  blobbasefee top env = push_known env.tx_context.blob_base_fee top env

  unfoldable pub returndatasize : ℕ → Environment W → Environment W
  returndatasize top env = push_known (length env.return_data) top env

  unfoldable pub coinbase : ℕ → Environment W → Environment W
  coinbase top env = push_known env.tx_context.block_coinbase top env

  unfoldable pub timestamp : ℕ → Environment W → Environment W
  timestamp top env = push_known (int64_to_uint64 env.tx_context.block_timestamp) top env

  unfoldable pub number : ℕ → Environment W → Environment W
  number top env = push_known (int64_to_uint64 env.tx_context.block_number) top env

  unfoldable pub prevrandao : ℕ → Environment W → Environment W
  prevrandao top env = push_known env.tx_context.block_prev_randao top env

  unfoldable pub gaslimit : ℕ → Environment W → Environment W
  gaslimit top env = push_known (int64_to_uint64 env.tx_context.block_gas_limit) top env

  unfoldable pub chainid : ℕ → Environment W → Environment W
  chainid top env = push_known env.tx_context.chain_id top env

  unfoldable pub selfbalance : ⦃host : HostInterface W⦄ → ℕ → Environment W → Environment W
  selfbalance ⦃host⦄ top env = push_known (host.get_balance env.world env.msg.recipient) top env

  module _ ⦃intx : Intx⦄ where
    unfoldable pub calldataload : ℕ → Environment W → Environment W
    calldataload top env = replace_top (load_data env.msg.input_data) top env

    unfoldable pub blobhash : ℕ → Environment W → Environment W
    blobhash top env =
        let hashes = env.tx_context.blob_hashes in
        replace_top
          (λ index.
            if ltb (to_uint64 index 0) (length hashes)
            then get_or hashes (to_uint64 index 0) 0
            else 0)
          top env

    -- The hash of a block among the last 256, else 0.
    unfoldable pub header_of_block : ⦃host : HostInterface W⦄ → Environment W → ℕ → ℕ
    header_of_block ⦃host⦄ env number =
        let upper_bound = env.tx_context.block_number in
        let lower = upper_bound -ℤ pos 256 in
        let lower_bound = if ltb_ℤ lower (pos 0) then pos 0 else lower in
        let n = to_int64 (to_uint64 number 0) in
        if ltb_ℤ n upper_bound && not (ltb_ℤ n lower_bound)
        then host.get_block_hash env.world n
        else 0

    unfoldable pub blockhash : ⦃host : HostInterface W⦄ → ℕ → Environment W → Environment W
    blockhash top env = replace_top (header_of_block env) top env
