-- ===== src/Instructions/Load.antt =====
-- What MLOAD (lib/assigner/evmone/instructions.hpp) leaves in the memory and on the stack.
use evm_assigner.Base.{ℕ, ◌+◌, ◌-◌, ◌≡◌, ◌∙◌, arith, ℤ, Bool, false, is_neg, if◌then◌else◌, ◌==◌}
use evm_assigner.Intx.{Intx, IsIntx, be_value}
use evm_assigner.Memory.{Memory, check_memory}
use evm_assigner.Memory.Grow.{
  IsMemory, IsGrown, Checked, too_far, out_of_gas, passed, check_memory-Checked,
}
use evm_assigner.Word.{of_bytes, to_uint64}
use evm_assigner.State.{ExecutionState, success, item, log_stack, log_memory}
use evm_assigner.Instructions.MemoryAccess.{memory_bytes, mload, mload_checked}

at_top : (top v w : ℕ) → (if top == top - 0 then v else w) ≡ v
at_top top v w = ground arith

module _ ⦃intx : Intx⦄ where
  -- The memory is grown for the word, and the word of the memory is on the stack.
  pub record IsLoaded (top : ℕ) (gas : ℤ) (state : ExecutionState) (gas' : ℤ)
      (state' : ExecutionState) : Type 0 where
    pub grown : IsGrown state.memory gas state'.memory gas' (to_uint64 (item state top 0) 0 + 32)
    pub loaded :
        state'.stack_space top
        ≡ be_value (memory_bytes state'.memory (to_uint64 (item state top 0) 0) 32)

module _ ⦃intx : Intx⦄ (laws : IsIntx intx) where
  word_of_memory :
      (memory : Memory) (addr : ℕ)
      → of_bytes (memory_bytes memory addr 32) 32 ≡ be_value (memory_bytes memory addr 32)
  unfolding of_bytes
  word_of_memory memory addr = laws.load_lem (memory_bytes memory addr 32)

  Checked-IsLoaded :
      (top : ℕ) (gas : ℤ) (state : ExecutionState) (c : Bool × (ℤ × Memory))
      → Checked state.memory gas (to_uint64 (item state top 0) 0) 32 c
      → (mload_checked top (log_stack state top 1 0 false) (item state top 0) c).0 ≡ success
      → IsLoaded top gas state
          (mload_checked top (log_stack state top 1 0 false) (item state top 0) c).1.0
          (mload_checked top (log_stack state top 1 0 false) (item state top 0) c).1.1
  unfolding mload_checked log_stack log_memory
  Checked-IsLoaded top gas state _ (too_far h) e = absurd (cc)
  Checked-IsLoaded top gas state _ (out_of_gas gas' n longer paid) e = absurd (cc)
  Checked-IsLoaded top gas state _ (passed gas' memory' enough grown) e = record {
    grown = grown;
    loaded = at_top top _ _ ∙ word_of_memory memory' (to_uint64 (item state top 0) 0);
  }

  -- With gas that is not negative and a well-formed memory, an MLOAD that reports success has grown
  -- the memory to the end of the word at its index, with the old bytes kept, zeros behind them and
  -- the gas paid, and leaves on the stack the big-endian number of the 32 bytes there.
  pub mload-IsLoaded :
      (top : ℕ) (gas : ℤ) (state : ExecutionState)
      → IsMemory state.memory
      → is_neg gas ≡ false
      → (mload top gas state).0 ≡ success
      → IsLoaded top gas state (mload top gas state).1.0 (mload top gas state).1.1
  unfolding mload log_stack
  mload-IsLoaded top gas state valid paid h =
      Checked-IsLoaded top gas state (check_memory gas state.memory (item state top 0) 32)
        (check_memory-Checked laws gas state.memory (item state top 0) 32 valid (omega arith) paid)
        h
