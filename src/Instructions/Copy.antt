-- ===== src/Instructions/Copy.antt =====
-- The instructions of lib/assigner/evmone/instructions.hpp that copy bytes into the memory, and
-- keccak256. The hash is not in the repository: it is a parameter.
use evm_assigner.Base.{
  ℕ, zero, suc, ◌+◌, ◌-◌, ◌*◌, ◌%◌, ◌^◌, ℤ, pos, ◌-ℤ◌, is_neg, Bool, true, false, not, ◌==◌, ltb,
  if◌then◌else◌, List, length, take, drop, replicate, min,
}
use evm_assigner.Intx.{Intx}
use evm_assigner.Memory.{Memory, check_memory_range, copy_cost, num_words}
use evm_assigner.Word.{to_uint64}
use evm_assigner.Rw.{memory_operation}
use evm_assigner.State.{
  ExecutionState, StatusCode, success, out_of_gas, invalid_memory_access, item, set_item, push_back,
  log_stack,
}
use evm_assigner.Host.{Environment}
use evm_assigner.Instructions.MemoryAccess.{memory_bytes, store_bytes, log_bytes}

-- What an instruction with a result returns: the status, the gas left and the state.
abbrev pub Outcome : Type 0 → Type 0
Outcome S = StatusCode × (ℤ × S)

-- The reads of `n` items from the `k`-th up to the top item.
unfoldable pub log_reads : ℕ → ℕ → ExecutionState → ExecutionState
log_reads top zero s = s
log_reads top (suc n) s = log_reads top n (log_stack s top (suc n) n false)

-- Bytes at `dst`, and zeros behind them for a range of `s` bytes.
abbrev pub copy_bytes : Memory → ℕ → ℕ → List ℕ → Memory
copy_bytes memory dst s bytes =
    store_bytes (store_bytes memory dst bytes) (dst + length bytes) (replicate (s - length bytes) 0)

abbrev with_memory : ExecutionState → Memory → ExecutionState
with_memory state memory = record state { memory = memory }

module _ ⦃intx : Intx⦄ where
  -- A `memory_operation` at `index + j`, added as words, with the byte at `dst + j`, for `n` bytes
  -- from the `j`-th.
  unfoldable pub log_indexed : ℕ → ℕ → ℕ → ℕ → Bool → ExecutionState → ExecutionState
  log_indexed index dst j zero is_write s = s
  log_indexed index dst j (suc n) is_write s = log_indexed index dst (suc j) n is_write (
      push_back s (
        memory_operation s.call_id (intx.add index j) (length s.rw_trace) is_write
          (s.memory.bytes (dst + j))))

  -- The place in a source from which is copied.
  abbrev pub source_index : List ℕ → ℕ → ℕ
  source_index source index =
      if ltb (length source) (to_uint64 index 0) then length source else to_uint64 index 0

  -- CALLDATACOPY and CODECOPY behind the memory check, whose outcome is `r`.
  unfoldable pub copy_checked :
      List ℕ → ℕ → ExecutionState → Bool × (ℤ × Memory) → Outcome ExecutionState
  copy_checked source top s r =
      let mem_index = item s top 0 in
      let size = to_uint64 (item s top 2) 0 in
      let grown = with_memory s r.1.1 in
      let dst = to_uint64 mem_index 0 in
      let src = source_index source (item s top 1) in
      let copy_size = min size (length source - src) in
      let gas = r.1.0 -ℤ pos (copy_cost size) in
      let copied =
        with_memory grown (copy_bytes grown.memory dst size (take copy_size (drop src source))) in
      if not r.0
      then (out_of_gas, (r.1.0, grown))
      else if is_neg gas
      then (out_of_gas, (gas, grown))
      else (success, (gas, log_indexed mem_index dst 0 copy_size true copied))

  unfoldable pub copy_from : List ℕ → ℕ → ℤ → ExecutionState → Outcome ExecutionState
  copy_from source top gas_left state =
      let s = log_reads top 3 state in
      copy_checked source top s (check_memory_range gas_left s.memory (item s top 0) (item s top 2))

  -- RETURNDATACOPY behind the memory check, whose outcome is `r`.
  unfoldable pub returndatacopy_checked :
      List ℕ → ℕ → ExecutionState → Bool × (ℤ × Memory) → Outcome ExecutionState
  returndatacopy_checked return_data top s r =
      let dst = to_uint64 (item s top 0) 0 in
      let src = to_uint64 (item s top 1) 0 in
      let size = to_uint64 (item s top 2) 0 in
      let grown = with_memory s r.1.1 in
      let gas = r.1.0 -ℤ pos (copy_cost size) in
      let copied =
        with_memory grown (store_bytes grown.memory dst (take size (drop src return_data))) in
      if not r.0
      then (out_of_gas, (r.1.0, grown))
      else if ltb (length return_data) src
      then (invalid_memory_access, (r.1.0, grown))
      else if ltb (length return_data) ((src + size) % 2 ^ 64)
      then (invalid_memory_access, (r.1.0, grown))
      else if is_neg gas
      then (out_of_gas, (gas, grown))
      else (success, (gas, log_bytes dst size true copied))

  -- KECCAK256 behind the memory check, whose outcome is `r`. The trace has 32 reads for every size
  -- but 0.
  unfoldable pub keccak256_checked :
      (List ℕ → ℕ) → ℕ → ExecutionState → Bool × (ℤ × Memory) → Outcome ExecutionState
  keccak256_checked keccak top s r =
      let index = item s top 0 in
      let i = to_uint64 index 0 in
      let size = to_uint64 (item s top 1) 0 in
      let grown = with_memory s r.1.1 in
      let gas = r.1.0 -ℤ pos (num_words size * 6) in
      let read = if size == 0 then grown else log_indexed index i 0 32 false grown in
      let hashed = set_item read (top - 1) 0 (keccak (memory_bytes grown.memory i size)) in
      if not r.0
      then (out_of_gas, (r.1.0, grown))
      else if is_neg gas
      then (out_of_gas, (gas, grown))
      else (success, (gas, log_stack hashed (top - 1) 1 0 true))

  unfoldable pub keccak256 : (List ℕ → ℕ) → ℕ → ℤ → ExecutionState → Outcome ExecutionState
  keccak256 keccak top gas_left state =
      let s = log_reads top 2 state in
      keccak256_checked keccak top s
        (check_memory_range gas_left s.memory (item s top 0) (item s top 1))

  module _ {W : Type 0} where
    abbrev on_state : Environment W → Outcome ExecutionState → Outcome (Environment W)
    on_state env r = (r.0, (r.1.0, record env { state = r.1.1 }))

    unfoldable pub calldatacopy : ℕ → ℤ → Environment W → Outcome (Environment W)
    calldatacopy top gas_left env =
        on_state env (copy_from env.msg.input_data top gas_left env.state)

    unfoldable pub codecopy : ℕ → ℤ → Environment W → Outcome (Environment W)
    codecopy top gas_left env = on_state env (copy_from env.original_code top gas_left env.state)

    unfoldable pub returndatacopy : ℕ → ℤ → Environment W → Outcome (Environment W)
    returndatacopy top gas_left env =
        let s = log_reads top 3 env.state in
        on_state env (
          returndatacopy_checked env.return_data top s
            (check_memory_range gas_left s.memory (item s top 0) (item s top 2)))
