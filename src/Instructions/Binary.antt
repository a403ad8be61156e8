-- ===== src/Instructions/Binary.antt =====
-- The instructions of one, two and three operands: the stack they leave, and their trace.
use evm_assigner.Base.{
  ℕ, suc, refl, length, [], ◌-◌, ◌≤◌, ◌≡◌, ap, ap₂, ◌∙◌, arith, List, ◌∷◌, false, true,
}
use mathlib.Core.List.{head-eq_of_cons-eq, tail-eq_of_cons-eq}
use evm_assigner.Rw.{RwOperation, stack_operation}
use evm_assigner.State.{ExecutionState, item, log_stack}
use evm_assigner.State.Replay.{Replays, Replays-trans, next_id, read-Replays, write-Replays}
use evm_assigner.Intx.{Intx}
use evm_assigner.Instructions.{addmod, binary, unary, addmod_}
use evm_assigner.Instructions.Access.{stack_list, stack_list-congr}

-- An instruction of two operands takes the two top items off the stack, as a list, and puts the
-- result on it; the items below stay.
pub binary-stack_list :
    (f : ℕ → ℕ → ℕ) (state : ExecutionState) (x v : ℕ) (rest : List ℕ) (n : ℕ)
    → stack_list state (suc (suc n)) ≡ x ∷ v ∷ rest
    → stack_list (binary f (suc (suc n)) state) (suc n) ≡ f x v ∷ rest
unfolding binary log_stack
binary-stack_list f state x v rest n h = ap₂ ◌∷◌ (ground (arith, top_item, next_item)) (
    stack_list-congr (binary f (suc (suc n)) state) state n (λ i le. ground arith)
    ∙ tail-eq_of_cons-eq (tail-eq_of_cons-eq h))
  where
    top_item : state.stack_space (suc (suc n) - 0) ≡ x
    top_item = ap state.stack_space (omega arith) ∙ head-eq_of_cons-eq h

    next_item : state.stack_space (suc (suc n) - 1 - 0) ≡ v
    next_item = ap state.stack_space (omega arith) ∙ head-eq_of_cons-eq (tail-eq_of_cons-eq h)

-- Two reads and a write, from the second item down to the new top.
abbrev pub binary_operations : (ℕ → ℕ → ℕ) → ℕ → ExecutionState → List RwOperation
binary_operations f top state =
    let n = length state.rw_trace in
    let x = item state top 0 in
    let y = item state top 1 in
    stack_operation state.call_id (top - 2) n false y
    ∷ stack_operation state.call_id (top - 1) (suc n) false x
    ∷ stack_operation state.call_id (top - 2) (suc (suc n)) true (f x y)
    ∷ []

-- On a stack of 2 to 1024 items, an instruction of the shape `binary` appends three operations to
-- the trace, numbered on: a read of the second item at its slot, a read of the top item at its
-- slot, and a write of the result at the slot of the second item; replayed from the old stack, they
-- pass and give the new one.
pub binary-Replays :
    (f : ℕ → ℕ → ℕ) (top : ℕ) (state : ExecutionState)
    → 2 ≤ top
    → top ≤ 1024
    → Replays (binary_operations f top state) state (binary f top state)
unfolding binary log_stack
binary-Replays f top state low high =
    let n = length state.rw_trace in
    let one = next_id state.rw_trace _ n refl in
    let two = next_id _ _ (suc n) one in
    Replays-trans _ _ _ _ _
      (read-Replays state top 1 n (top - 2) _ (omega arith) high refl refl refl)
      (Replays-trans _ _ _ _ _
        (read-Replays _ top 0 (suc n) (top - 1) _ (omega arith) high one refl refl)
        (write-Replays _ (top - 1) 0 (suc (suc n)) (top - 2) _ _ (omega arith) (omega arith) two
          (omega arith) (ap (f (item state top 0)) second)))
  where
    second : state.stack_space (top - 1 - 0) ≡ item state top 1
    second = ap state.stack_space (omega arith)

-- On a stack of 1 to 1024 items, an instruction of one operand appends a read and a write of the
-- top slot, which replay its change of the stack.
unary-Replays :
    (f : ℕ → ℕ) (top : ℕ) (state : ExecutionState)
    → 1 ≤ top
    → top ≤ 1024
    → Replays
        (stack_operation state.call_id (top - 1) (length state.rw_trace) false (item state top 0)
          ∷ stack_operation state.call_id
              (top - 1)
              (suc (length state.rw_trace))
              true
              (f (item state top 0))
          ∷ [])
        state
        (unary f top state)
unfolding unary log_stack
unary-Replays f top state low high =
    let n = length state.rw_trace in
    Replays-trans _ _ _ _ _
      (read-Replays state top 0 n (top - 1) _ (omega arith) high refl refl refl)
      (write-Replays _ top 0 (suc n) (top - 1) _ _ (omega arith) high
        (next_id state.rw_trace _ n refl) refl refl)

module _ ⦃intx : Intx⦄ where
  -- Three reads, from the third item up, and a write.
  abbrev pub addmod_operations : ℕ → ExecutionState → List RwOperation
  addmod_operations top state =
      let n = length state.rw_trace in
      let x = item state top 0 in
      let y = item state top 1 in
      let m = item state top 2 in
      stack_operation state.call_id (top - 3) n false m
      ∷ stack_operation state.call_id (top - 2) (suc n) false y
      ∷ stack_operation state.call_id (top - 1) (suc (suc n)) false x
      ∷ stack_operation state.call_id (top - 3) (suc (suc (suc n))) true (addmod x y m)
      ∷ []

  -- On a stack of 3 to 1024 items, ADDMOD appends four operations to the trace, numbered on: reads
  -- of the third, second and top item at their slots, and a write of the result at the slot of the
  -- third; replayed from the old stack, they pass and give the new one.
  pub addmod_-Replays :
      (top : ℕ) (state : ExecutionState)
      → 3 ≤ top
      → top ≤ 1024
      → Replays (addmod_operations top state) state (addmod_ top state)
  unfolding addmod_ log_stack
  addmod_-Replays top state low high =
      let n = length state.rw_trace in
      let one = next_id state.rw_trace _ n refl in
      let two = next_id _ _ (suc n) one in
      let three = next_id _ _ (suc (suc n)) two in
      Replays-trans _ _ _ _ _
        (read-Replays state top 2 n (top - 3) _ (omega arith) high refl refl refl)
        (Replays-trans _ _ _ _ _
          (read-Replays _ top 1 (suc n) (top - 2) _ (omega arith) high one refl refl)
          (Replays-trans _ _ _ _ _
            (read-Replays _ top 0 (suc (suc n)) (top - 1) _ (omega arith) high two refl refl)
            (write-Replays _ (top - 2) 0 (suc (suc (suc n))) (top - 3) _ _ (omega arith)
              (omega arith) three (omega arith) (ap₂ (addmod (item state top 0)) second third))))
    where
      second : state.stack_space (top - 1 - 0) ≡ item state top 1
      second = ap state.stack_space (omega arith)

      third : state.stack_space (top - 2 - 0) ≡ item state top 2
      third = ap state.stack_space (omega arith)
