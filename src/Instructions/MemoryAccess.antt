-- ===== src/Instructions/MemoryAccess.antt =====
-- The instructions of lib/assigner/evmone/instructions.hpp on the memory, and the jumps.
use evm_assigner.Base.{
  ℕ, zero, suc, ◌+◌, ◌-◌, leb, ltb, ◌&&◌, if◌then◌else◌, Bool, true, false, ℤ, List, [], ◌∷◌,
  get_or, length, Option, none, some, not, ◌||◌,
}
use evm_assigner.Intx.{Intx}
use evm_assigner.Memory.{Memory, check_memory}
use evm_assigner.Word.{of_bytes, store, to_uint64, word_size_bytes}
use evm_assigner.State.{
  ExecutionState, StatusCode, success, out_of_gas, bad_jump_destination, item, set_item, log_stack,
  log_memory,
}

-- The bytes of the memory from an address on.
abbrev pub memory_bytes : Memory → ℕ → ℕ → List ℕ
memory_bytes memory addr zero = []
memory_bytes memory addr (suc n) = memory.bytes addr ∷ memory_bytes memory (suc addr) n

-- Bytes written from an address on.
abbrev pub store_bytes : Memory → ℕ → List ℕ → Memory
store_bytes memory addr bytes = record memory {
  bytes = λ i.
      if leb addr i && ltb i (addr + length bytes)
      then get_or bytes (i - addr) 0
      else memory.bytes i;
}

-- A `memory_operation` for each of `n` bytes.
unfoldable pub log_bytes : ℕ → ℕ → Bool → ExecutionState → ExecutionState
log_bytes addr zero is_write state = state
log_bytes addr (suc n) is_write state =
    log_bytes (suc addr) n is_write (log_memory state addr is_write)

abbrev with_memory : ExecutionState → Memory → ExecutionState
with_memory state memory = record state { memory = memory }

module _ ⦃intx : Intx⦄ where
  -- `mload<T>` behind its memory check, whose outcome is `r`.
  unfoldable pub mload_checked :
      ℕ → ExecutionState → ℕ → Bool × (ℤ × Memory) → StatusCode × (ℤ × ExecutionState)
  unfolding log_bytes
  mload_checked top s₁ index r =
      let s₂ = with_memory s₁ r.1.1 in
      let addr = to_uint64 index 0 in
      let s₃ =
        set_item s₂ top 0
          (of_bytes (memory_bytes s₂.memory addr word_size_bytes) word_size_bytes) in
      let s₄ = log_bytes addr word_size_bytes false s₃ in
      if not r.0 then (out_of_gas, (r.1.0, s₂)) else (success, (r.1.0, log_stack s₄ top 1 0 true))

  -- `mload<T>`, the same for every `T`.
  unfoldable pub mload : ℕ → ℤ → ExecutionState → StatusCode × (ℤ × ExecutionState)
  unfolding mload_checked
  mload top gas_left state =
      let s₁ = log_stack state top 1 0 false in
      let index = item s₁ top 0 in
      mload_checked top s₁ index (check_memory gas_left s₁.memory index word_size_bytes)

  -- `mstore<T>`, where `T` has `n` bytes; the check and the trace are of 32 bytes for every `T`.
  unfoldable pub mstore : ℕ → ℕ → ℤ → ExecutionState → StatusCode × (ℤ × ExecutionState)
  unfolding log_bytes
  mstore n top gas_left state =
      let s₁ = log_stack state top 2 1 false in
      let s₂ = log_stack s₁ top 1 0 false in
      let index = item s₂ top 0 in
      let r = check_memory gas_left s₂.memory index word_size_bytes in
      let s₃ = with_memory s₂ r.1.1 in
      let addr = to_uint64 index 0 in
      let s₄ = with_memory s₃ (store_bytes s₃.memory addr (store n (item s₃ (top - 1) 0))) in
      if not r.0
      then (out_of_gas, (r.1.0, s₃))
      else (success, (r.1.0, log_bytes addr word_size_bytes true s₄))

  -- `jump_impl`: the offset to continue at, or none, and the status.
  unfoldable pub jump_impl : ExecutionState → ℕ → Option ℕ × ExecutionState
  jump_impl state dst =
      if leb (length state.jumpdest_map) (to_uint64 dst 0)
        || not (get_or state.jumpdest_map (to_uint64 dst 0) false)
      then (none, record state { status = bad_jump_destination })
      else (some (to_uint64 dst 0), state)

  unfoldable pub jump : ℕ → ExecutionState → ℕ → Option ℕ × ExecutionState
  unfolding jump_impl
  jump top state pos = let s = log_stack state top 1 0 false in jump_impl s (item s top 0)

  -- The condition is the low word alone.
  unfoldable pub jumpi : ℕ → ExecutionState → ℕ → Option ℕ × ExecutionState
  unfolding jump_impl
  jumpi top state pos =
      let s₁ = log_stack state top 2 1 false in
      let s₂ = log_stack s₁ top 1 0 false in
      if ltb 0 (to_uint64 (item s₂ (top - 1) 0) 0)
      then jump_impl s₂ (item s₂ top 0)
      else (some (pos + 1), s₂)
