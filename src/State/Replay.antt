-- ===== src/State/Replay.antt =====
-- The stack operations of a trace against the stack: how a reader of the trace alone follows the
-- stack.
use evm_assigner.Base.{
  ℕ, suc, sym, ◌-◌, ◌≤◌, ◌<◌, ◌≡◌, refl, ap, ◌∙◌, fun_ext, arith, Bool, true, false, List, length,
  length-append, [], ◌∷◌, ◌++◌, Option, none, some, ◌==◌, if◌then◌else◌,
}
use mathlib.Core.Option.{some-injective}
use mathlib.Core.List.{append_assoc}
use evm_assigner.Rw.{RwOperation, stack_op, stack_operation}
use evm_assigner.State.{ExecutionState, item, set_item, log_stack, stack_address}

-- The contents of the addresses of the trace.
abbrev pub View : Type 0
View = ℕ → ℕ

abbrev write_view : View → ℕ → ℕ → View
write_view view address v = λ a. if a == address then v else view a

-- A write changes the view; a read of another value than the one in the view is refused.
abbrev pub replay_operation : RwOperation → View → Option View
replay_operation a view =
    if a.op == stack_op
    then if a.is_write
      then some (write_view view a.address a.value)
      else if view a.address == a.value
      then some view
      else none
    else some view

abbrev then_replay : Option View → (View → Option View) → Option View
then_replay none rest = none
then_replay (some view) rest = rest view

abbrev pub replay : List RwOperation → View → Option View
replay [] view = some view
replay (a ∷ ops) view = then_replay (replay_operation a view) (replay ops)

-- Address 0 of the trace is the lowest slot.
abbrev pub stack_view : ExecutionState → View
stack_view state = λ a. state.stack_space (suc a)

-- From one state to a later one, the trace grew by just these operations, and they replay the change
-- of the stack.
pub record Replays (operations : List RwOperation) (state state' : ExecutionState) : Type 0 where
  pub appended : state'.rw_trace ≡ state.rw_trace ++ operations
  pub replayed : replay operations (stack_view state) ≡ some (stack_view state')

none-ne-some : (v : View) → none ≡ some v → ⊥
none-ne-some v h = cc

replay-append :
    (ops ops' : List RwOperation) (u v : View)
    → replay ops u ≡ some v
    → replay (ops ++ ops') u ≡ replay ops' v
replay-append [] ops' u v h = ap (replay ops') (some-injective u v h)
replay-append (a ∷ ops) ops' u v h = go (λ w. replay-append ops ops' w v) (replay_operation a u) h
  where
    go :
        ((w : View) → replay ops w ≡ some v → replay (ops ++ ops') w ≡ replay ops' v)
        → (o : Option View) → then_replay o (replay ops) ≡ some v
        → then_replay o (replay (ops ++ ops')) ≡ replay ops' v
    go again none e = absurd (none-ne-some v e)
    go again (some w) e = again w e

pub Replays-trans :
    (ops ops' : List RwOperation) (s₁ s₂ s₃ : ExecutionState)
    → Replays ops s₁ s₂
    → Replays ops' s₂ s₃
    → Replays (ops ++ ops') s₁ s₃
Replays-trans ops ops' s₁ s₂ s₃ h k = record {
  appended = k.appended ∙ ap (λ l. l ++ ops') h.appended ∙ append_assoc s₁.rw_trace ops ops';
  replayed = replay-append ops ops' (stack_view s₁) (stack_view s₂) h.replayed ∙ k.replayed;
}

-- The number of the next operation, behind one more.
pub next_id :
    (ops : List RwOperation) (a : RwOperation) (n : ℕ)
    → length ops ≡ n
    → length (ops ++ a ∷ []) ≡ suc n
next_id ops a n h = omega (arith, h, length-append ops (a ∷ []))

-- The address that is logged for an item of the stack is that of its slot.
stack_address_lem : (top k : ℕ) → k < top → top ≤ 1024 → stack_address top (suc k) ≡ top - suc k
stack_address_lem top k h bound = omega arith

slot_lem : (top k : ℕ) → k < top → suc (top - suc k) ≡ top - k
slot_lem top k h = omega arith

read_agrees :
    (state : ExecutionState) (top k v : ℕ)
    → k < top
    → item state top k ≡ v
    → (stack_view state (top - suc k) == v) ≡ true
read_agrees state top k v h e = ground (arith, ap state.stack_space (slot_lem top k h))

-- A logged read appends one operation: the read of the item at its slot, with the next number.
pub read-Replays :
    (state : ExecutionState) (top k n address v : ℕ)
    → k < top
    → top ≤ 1024
    → length state.rw_trace ≡ n
    → address ≡ top - suc k
    → item state top k ≡ v
    → Replays
        (stack_operation state.call_id address n false v ∷ [])
        state
        (log_stack state top (suc k) k false)
unfolding log_stack
read-Replays state top k n address v h bound numbered at e = record {
  appended = rw (at, stack_address_lem top k h bound, numbered, e) refl;
  replayed = rw at (
      ap (λ (b : Bool). then_replay (if b then some (stack_view state) else none) (replay []))
        (read_agrees state top k v h e));
}

-- A logged write of a new item appends one operation.
pub write-Replays :
    (state : ExecutionState) (top k n address v w : ℕ)
    → k < top
    → top ≤ 1024
    → length state.rw_trace ≡ n
    → address ≡ top - suc k
    → v ≡ w
    → Replays
        (stack_operation state.call_id address n true w ∷ [])
        state
        (log_stack (set_item state top k v) top (suc k) k true)
unfolding log_stack
write-Replays state top k n address v w h bound numbered at e = record {
  appended = rw (at, stack_address_lem top k h bound, numbered, sym e, equal (top - k)) refl;
  replayed = ap some (fun_ext (λ a. ground (arith, at, slot_lem top k h)));
}
  where
    equal : (a : ℕ) → (a == a) ≡ true
    equal a = ground arith
