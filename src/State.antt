-- ===== src/State.antt =====
-- `ExecutionState` of lib/assigner/evmone/execution_state.hpp and `StackTop` of
-- lib/assigner/evmone/instructions.hpp: what the instructions read and change. The stack space is
-- a function of the height of a slot above `bottom()`, so that the slots of the stack are 1 to
-- 1024, and `m_top` is the height of the top item.
pub mod Trace
pub mod Replay
use evm_assigner.Base.{
  ℕ, ◌+◌, ◌-◌, ◌*◌, ◌/◌, ◌%◌, ◌^◌, ◌==◌, if◌then◌else◌, Bool, List, [], ◌∷◌, ◌++◌, length,
}
use evm_assigner.Memory.{Memory}
use evm_assigner.Revision.{Revision}
use evm_assigner.Rw.{RwOperation, stack_operation, memory_operation}

-- evmc_status_code of lib/assigner/evmc/evmc.h.
pub data StatusCode : Type 0 where
  success failure revert out_of_gas invalid_instruction undefined_instruction : StatusCode
  stack_overflow stack_underflow bad_jump_destination invalid_memory_access : StatusCode
  call_depth_exceeded static_mode_violation precompile_failure : StatusCode
  contract_validation_failure argument_out_of_range wasm_unreachable_instruction : StatusCode
  wasm_trap insufficient_balance internal_error rejected out_of_memory : StatusCode

pub record ExecutionState : Type 0 where
  pub memory : Memory
  pub rev : Revision
  pub status : StatusCode
  pub call_id : ℕ
  pub rw_trace : List RwOperation
  -- The code analysis: the executable code with its padding, and the map of jump destinations.
  pub executable_code : List ℕ
  pub jumpdest_map : List Bool
  pub stack_space : ℕ → ℕ

abbrev pub stack_limit : ℕ
stack_limit = 1024

-- `stack[k]`, below a top item at height `top`.
abbrev pub item : ExecutionState → ℕ → ℕ → ℕ
item state top k = state.stack_space (top - k)

-- `stack[k] = v`.
abbrev pub set_item : ExecutionState → ℕ → ℕ → ℕ → ExecutionState
set_item state top k v = record state {
  stack_space = λ i. if i == top - k then v else state.stack_space i;
}

-- `stack.size(bottom) - d` as the `uint16_t` that `stack_operation` takes.
abbrev pub stack_address : ℕ → ℕ → ℕ
stack_address top d = (top + 2 ^ 16 - d) % 2 ^ 16

-- `state.rw_trace.push_back(...)`.
abbrev pub push_back : ExecutionState → RwOperation → ExecutionState
push_back state operation = record state { rw_trace = state.rw_trace ++ operation ∷ [] }

-- A `stack_operation` at `stack.size(bottom) - d` with the value of `stack[k]`.
unfoldable pub log_stack : ExecutionState → ℕ → ℕ → ℕ → Bool → ExecutionState
log_stack state top d k is_write = push_back state (
    stack_operation state.call_id (stack_address top d) (length state.rw_trace) is_write
      (item state top k))

-- A `memory_operation` at `address` with the byte there.
unfoldable pub log_memory : ExecutionState → ℕ → Bool → ExecutionState
log_memory state address is_write = push_back state (
    memory_operation state.call_id address (length state.rw_trace) is_write
      (state.memory.bytes address))
