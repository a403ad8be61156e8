-- ===== src/Instructions/Blocks.antt =====
-- The instructions of lib/assigner/evmone/instructions.hpp on ranges of the memory that stay inside
-- the machine: MSTORE8, MCOPY, and RETURN and REVERT; STOP, INVALID, and the empty LOG.
use evm_assigner.Base.{
  ℕ, ◌%◌, ◌^◌, ℤ, pos, ◌-ℤ◌, is_neg, Bool, true, not, ltb, ◌==◌, if◌then◌else◌, [], ◌∷◌,
}
use evm_assigner.Intx.{Intx}
use evm_assigner.Memory.{Memory, check_memory, check_memory_range, copy_cost}
use evm_assigner.Word.{to_uint64}
use evm_assigner.State.{
  ExecutionState, StatusCode, success, revert, out_of_gas, invalid_instruction, item,
}
use evm_assigner.Host.{Environment}
use evm_assigner.Instructions.MemoryAccess.{memory_bytes, store_bytes, log_bytes}
use evm_assigner.Instructions.Copy.{Outcome, log_reads}

module _ ⦃intx : Intx⦄ where
  -- The check lets through addresses below 2 ^ 33, of which `int` keeps those below 2 ^ 31; the
  -- trace has eight writes.
  unfoldable pub mstore8 : ℕ → ℤ → ExecutionState → Outcome ExecutionState
  mstore8 top gas_left state =
      let s = log_reads top 2 state in
      let index = item s top 0 in
      let r = check_memory gas_left s.memory index 1 in
      let grown = record s { memory = r.1.1 } in
      let addr = to_uint64 index 0 in
      let stored = record grown {
        memory = store_bytes grown.memory addr (to_uint64 (item s top 1) 0 % 2 ^ 8 ∷ []);
      } in
      if not r.0
      then (out_of_gas, (r.1.0, grown))
      else (success, (r.1.0, log_bytes addr 8 true stored))

  -- MCOPY behind the memory check, whose outcome is `r`; no memory operation is logged.
  unfoldable pub mcopy_checked : ℕ → ExecutionState → Bool × (ℤ × Memory) → Outcome ExecutionState
  mcopy_checked top s r =
      let dst = to_uint64 (item s top 0) 0 in
      let src = to_uint64 (item s top 1) 0 in
      let size = to_uint64 (item s top 2) 0 in
      let grown = record s { memory = r.1.1 } in
      let gas = r.1.0 -ℤ pos (copy_cost size) in
      let moved = record grown {
        memory = store_bytes grown.memory dst (memory_bytes grown.memory src size);
      } in
      if not r.0
      then (out_of_gas, (r.1.0, grown))
      else if is_neg gas
      then (out_of_gas, (gas, grown))
      else (success, (gas, moved))

  unfoldable pub mcopy : ℕ → ℤ → ExecutionState → Outcome ExecutionState
  mcopy top gas_left state =
      let s = log_reads top 3 state in
      let farther = if ltb (item s top 0) (item s top 1) then item s top 1 else item s top 0 in
      mcopy_checked top s (check_memory_range gas_left s.memory farther (item s top 2))

  module _ {W : Type 0} where
    -- `return_impl` with the status of RETURN or of REVERT.
    unfoldable pub return_impl : StatusCode → ℕ → ℤ → Environment W → Outcome (Environment W)
    return_impl status top gas_left env =
        let s = log_reads top 2 env.state in
        let r = check_memory_range gas_left s.memory (item s top 0) (item s top 1) in
        let grown = record env { state = record s { memory = r.1.1 } } in
        let size = to_uint64 (item s top 1) 0 in
        if not r.0 then (out_of_gas, (r.1.0, grown)) else (
          status,
          (
            r.1.0,
            record grown {
              output_size = size;
              output_offset = if size == 0 then env.output_offset else to_uint64 (item s top 0) 0;
            },
          ),
        )

    unfoldable pub return_ : ℕ → ℤ → Environment W → Outcome (Environment W)
    return_ = return_impl success

    unfoldable pub revert_ : ℕ → ℤ → Environment W → Outcome (Environment W)
    revert_ = return_impl revert

unfoldable pub stop_impl : StatusCode → ℕ → ℤ → ExecutionState → Outcome ExecutionState
stop_impl status top gas_left state = (status, (gas_left, state))

unfoldable pub stop : ℕ → ℤ → ExecutionState → Outcome ExecutionState
stop = stop_impl success

unfoldable pub invalid : ℕ → ℤ → ExecutionState → Outcome ExecutionState
invalid = stop_impl invalid_instruction

unfoldable pub log : ℕ → ExecutionState → ExecutionState
log top state = state
