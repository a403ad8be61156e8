-- ===== src/Instructions/Tests.antt =====
-- The theorems on instructions at a state with two items, 3 on top of 5.
use evm_assigner.Base.{
  pos, ◌-ℤ◌, zero, suc, drop, replicate, ℕ, ◌≡◌, refl, arith, true, false, ◌==◌, if◌then◌else◌,
  List, [], ◌∷◌, get_elem?, some,
}
use evm_assigner.Samples.{sample_intx, sample_intx-IsIntx}
use evm_assigner.Word.Bytes.{IsBytes}
use evm_assigner.Instructions.PushData.{push-stack_list}
use evm_assigner.Word.{to_uint64}
use evm_assigner.Memory.{empty_memory, check_memory, grow_memory}
use evm_assigner.Revision.{london}
use evm_assigner.Rw.{stack_operation}
use evm_assigner.State.{ExecutionState, success, log_stack}
use evm_assigner.State.Replay.{Replays}
use evm_assigner.Baseline.{analyze_jumpdests, jumpdests_from}
use evm_assigner.Baseline.Jumpdests.{InstructionAt}
use evm_assigner.Instructions.{addmod_, add}
use evm_assigner.Instructions.Access.{stack_list}
use evm_assigner.Instructions.Binary.{
  addmod_operations, addmod_-Replays, binary-stack_list, binary-Replays,
}
use evm_assigner.Instructions.Stack.{push, push_item, dup}
use evm_assigner.Instructions.Moves.{push_item-stack_list, dup-Replays}
use evm_assigner.Instructions.MemoryAccess.{jump_impl, mload, mload_checked}
use evm_assigner.Instructions.Load.{IsLoaded, mload-IsLoaded}
use evm_assigner.Memory.Grow.{IsMemory}
use evm_assigner.Instructions.Jumps.{jump_impl-InstructionAt}

abbrev sample_code : List ℕ
sample_code = 0x60 ∷ 0x5b ∷ 0x5b ∷ []

abbrev sample_state : ExecutionState
sample_state = record {
  memory = empty_memory;
  rev = london;
  status = success;
  call_id = 1;
  rw_trace = [];
  executable_code = sample_code;
  jumpdest_map = analyze_jumpdests sample_code;
  stack_space = λ i. if i == 2 then 3 else 5;
}

binary-stack_list_example : stack_list (add ⦃intx = sample_intx⦄ 2 sample_state) 1 ≡ 8 ∷ []
binary-stack_list_example =
    binary-stack_list (λ x v. sample_intx.add v x) sample_state 3 5 [] 0 refl

binary-Replays_example :
    Replays
      (stack_operation 1 0 0 false 5
        ∷ stack_operation 1 1 1 false 3
        ∷ stack_operation 1 0 2 true 8
        ∷ [])
      sample_state
      (add ⦃intx = sample_intx⦄ 2 sample_state)
binary-Replays_example =
    binary-Replays (λ x v. sample_intx.add v x) 2 sample_state (omega arith) (omega arith)

push_item-stack_list_example : stack_list (push_item 9 2 sample_state) 3 ≡ 9 ∷ 3 ∷ 5 ∷ []
push_item-stack_list_example = push_item-stack_list 9 2 sample_state

dup-Replays_example :
    Replays
      (stack_operation 1 0 0 false 5 ∷ stack_operation 1 2 1 true 5 ∷ [])
      sample_state
      (dup ⦃intx = sample_intx⦄ 2 2 sample_state)
dup-Replays_example =
    dup-Replays ⦃intx = sample_intx⦄ 2 2 sample_state (omega arith) (omega arith) (omega arith)

jump_impl-InstructionAt_example :
    (2 ≡ to_uint64 ⦃intx = sample_intx⦄ 2 0)
    × (sample_state ≡ sample_state)
    × InstructionAt sample_code 2
    × (get_elem? sample_code 2 ≡ some 0x5b)
jump_impl-InstructionAt_example =
    jump_impl-InstructionAt ⦃intx = sample_intx⦄ sample_state sample_state sample_code 2 2 refl
      (unfold jump_impl analyze_jumpdests jumpdests_from in refl)

abbrev three_items : ExecutionState
three_items = record sample_state { stack_space = λ i. if i == 3 then 7 else 2 }

addmod_-Replays_example :
    Replays
      (addmod_operations ⦃intx = sample_intx⦄ 3 three_items)
      three_items
      (addmod_ ⦃intx = sample_intx⦄ 3 three_items)
addmod_-Replays_example =
    addmod_-Replays ⦃intx = sample_intx⦄ 3 three_items (omega arith) (omega arith)

-- PUSH2 0x0102, with its padding.
abbrev push_code : List ℕ
push_code = 0x61 ∷ 0x01 ∷ 0x02 ∷ replicate 33 0

abbrev push_state : ExecutionState
push_state = record sample_state { executable_code = push_code }

push_code-IsBytes : IsBytes (drop 1 push_code)
push_code-IsBytes = (omega arith, (omega arith, zeros 33))
  where
    zeros : (n : ℕ) → IsBytes (replicate n 0)
    zeros zero = tt
    zeros (suc n) = (omega arith, zeros n)

push-stack_list_example :
    ((push ⦃intx = sample_intx⦄ 2 2 push_state 0).0 ≡ 3)
    × (stack_list (push ⦃intx = sample_intx⦄ 2 2 push_state 0).1 3 ≡ 0x0102 ∷ 3 ∷ 5 ∷ [])
push-stack_list_example =
    push-stack_list ⦃intx = sample_intx⦄ sample_intx-IsIntx 2 2 0 push_state (omega arith)
      (omega arith) push_code-IsBytes

sample_memory-IsMemory : IsMemory sample_state.memory
sample_memory-IsMemory = record { fits = omega arith; whole_words = refl; bounded = omega arith }

mload-IsLoaded_example :
    IsLoaded ⦃intx = sample_intx⦄ 2
      (pos 1000)
      sample_state
      (mload ⦃intx = sample_intx⦄ 2 (pos 1000) sample_state).1.0
      (mload ⦃intx = sample_intx⦄ 2 (pos 1000) sample_state).1.1
mload-IsLoaded_example =
    mload-IsLoaded ⦃intx = sample_intx⦄ sample_intx-IsIntx 2 (pos 1000) sample_state
      sample_memory-IsMemory refl
      (unfold mload mload_checked log_stack check_memory grow_memory ◌-ℤ◌ in refl)
