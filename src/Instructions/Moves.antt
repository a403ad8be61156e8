-- ===== src/Instructions/Moves.antt =====
-- What PUSH and DUP (lib/assigner/evmone/instructions.hpp) leave on the stack and in the trace.
use evm_assigner.Base.{
  ℕ, zero, suc, ◌+◌, ◌-◌, ◌≤◌, ◌<◌, ◌≡◌, ap₂, arith, true, false, ◌∷◌, List, [], length, refl,
}
use evm_assigner.Intx.{Intx}
use evm_assigner.Rw.{RwOperation, stack_operation}
use evm_assigner.State.{ExecutionState, item, log_stack}
use evm_assigner.State.Replay.{Replays, Replays-trans, next_id, read-Replays, write-Replays}
use evm_assigner.Instructions.Access.{stack_list, stack_list-congr}
use evm_assigner.Instructions.Stack.{push_item, dup}

-- On a stack that is not full, pushing an item appends one write, of the item at the slot above the
-- top one, which replays the change of the stack.
push_item-Replays :
    (v top : ℕ) (state : ExecutionState)
    → top < 1024
    → Replays
        (stack_operation state.call_id top (length state.rw_trace) true v ∷ [])
        state
        (push_item v top state)
unfolding push_item
push_item-Replays v top state room =
    write-Replays state (top + 1) 0 (length state.rw_trace) top v v (omega arith) (omega arith) refl
      (omega arith) refl

pub push_item-stack_list :
    (v n : ℕ) (state : ExecutionState)
    → stack_list (push_item v n state) (suc n) ≡ v ∷ stack_list state n
unfolding push_item log_stack
push_item-stack_list v n state =
    ap₂ ◌∷◌ (ground arith) (stack_list-congr (push_item v n state) state n (λ i le. ground arith))

-- A read of the item and a write of it at the slot above the top one.
abbrev pub dup_operations : ℕ → ℕ → ExecutionState → List RwOperation
dup_operations n top state =
    let v = item state top (n - 1) in
    stack_operation state.call_id (top - n) (length state.rw_trace) false v
    ∷ stack_operation state.call_id top (suc (length state.rw_trace)) true v
    ∷ []

sub_one : (n : ℕ) → suc n - 1 ≡ n
sub_one n = omega arith

-- DUP1 to DUP16, on a stack that has the item and is not full, appends two operations to the trace,
-- numbered on: a read of the item at its slot and a write of it at the slot above the top one;
-- replayed from the old stack, they pass and give the new one.
pub dup-Replays :
    ⦃intx : Intx⦄ (n top : ℕ) (state : ExecutionState)
    → 1 ≤ n
    → n ≤ top
    → top < 1024
    → Replays (dup_operations n top state) state (dup n top state)
unfolding dup push_item log_stack
dup-Replays (suc n) top state low deep room =
    let m = length state.rw_trace in
    rw (sub_one n) (
      Replays-trans _ _ _ _ _
        (read-Replays state top n m (top - suc n) _ (omega arith) (omega arith) refl refl refl)
        (write-Replays _ (top + 1) 0 (suc m) top _ _ (omega arith) (omega arith)
          (next_id state.rw_trace _ m refl) (omega arith) refl))
dup-Replays zero top state low deep room = absurd (omega arith)
