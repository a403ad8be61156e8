-- ===== src/Interpreter/Nearby.antt =====
-- Where the instructions of legacy code continue.
use evm_assigner.Base.{
  ℕ, ◌+◌, ◌-◌, ◌≤◌, ◌≡◌, arith, Bool, Bool-cases, inl, inr, true, false, ◌||◌, ◌==◌, ltb, leb,
  if◌then◌else◌, Option, none, some, List, length,
}
use mathlib.Core.Path.{subst}
use mathlib.Core.Option.{some-injective}
use evm_assigner.Intx.{Intx}
use evm_assigner.Word.{to_uint64}
use evm_assigner.State.{ExecutionState, log_stack, item}
use evm_assigner.Host.{HostInterface, Environment, Message, Result}
use evm_assigner.Opcode.{
  Opcode, op_jump, op_jumpi, op_pc, op_rjump, op_rjumpi, op_rjumpv, op_callf, op_retf, op_jumpf,
  op_dupn, op_swapn, op_dataloadn, op_push, op_log,
}
use evm_assigner.Instructions.Stack.{pc, push}
use evm_assigner.Instructions.MemoryAccess.{jump_impl, jump, jumpi}
use evm_assigner.Instructions.EofCode.{dupn, swapn, dataloadn}
use evm_assigner.Interpreter.Instruction.{Instruction, moving}
use evm_assigner.Interpreter.Opcodes.{instruction_of}

abbrev pub is_near : ℕ → ℕ → ℕ → Bool
is_near pos pos' size = leb pos' (pos + 33) || ltb pos' size

pub some_near :
    (pos x pos' size : ℕ)
    → some x ≡ some pos'
    → is_near pos x size ≡ true
    → is_near pos pos' size ≡ true
some_near pos x pos' size e h =
    subst (λ (y : ℕ). is_near pos y size ≡ true) (some-injective x pos' e) h

-- Where an outcome of a jump continues.
record Nears (pos size : ℕ) (o : Option ℕ × ExecutionState) : Type 0 where
  pub near : (pos' : ℕ) → o.0 ≡ some pos' → is_near pos pos' size ≡ true

if-Nears :
    (b : Bool) (pos size : ℕ) (x y : Option ℕ × ExecutionState)
    → Nears pos size x
    → Nears pos size y
    → Nears pos size (if b then x else y)
if-Nears true pos size x y h k = h
if-Nears false pos size x y h k = k

none-Nears : (pos size : ℕ) (s : ExecutionState) → Nears pos size (none, s)
none-Nears pos size s = record { near = λ pos' e. absurd cc }

some-Nears :
    (pos size x : ℕ) (s : ExecutionState) → is_near pos x size ≡ true → Nears pos size (some x, s)
some-Nears pos size x s h = record { near = λ pos' e. some_near pos x pos' size e h }

step_near : (pos size n : ℕ) → n ≤ 33 → is_near pos (pos + n) size ≡ true
step_near pos size n h = ground arith

-- By the bytes of the instruction.
one-Nears : (pos size : ℕ) (s : ExecutionState) → Nears pos size (some (pos + 1), s)
one-Nears pos size s = some-Nears pos size (pos + 1) s (step_near pos size 1 (omega arith))

two-Nears : (pos size : ℕ) (s : ExecutionState) → Nears pos size (some (pos + 2), s)
two-Nears pos size s = some-Nears pos size (pos + 2) s (step_near pos size 2 (omega arith))

ruleset nearby = (if-Nears, none-Nears, one-Nears, two-Nears)

module _ ⦃intx : Intx⦄ where
  landing-Nears :
      (pos size dst : ℕ) (valid : Bool) (s s' : ExecutionState)
      → Nears pos size (if leb size dst || valid then (none, s') else (some dst, s))
  landing-Nears pos size dst valid s s' = elim (Bool-cases (leb size dst)) [
    | inl behind ↦ rw behind (none-Nears pos size s')
    | inr inside ↦ rw inside (
        if-Nears valid pos size (none, s') (some dst, s) (none-Nears pos size s')
          (some-Nears pos size dst s (ground arith)))
  ]

  jump_impl-Nears :
      (pos : ℕ) (s : ExecutionState) (dst : ℕ) → Nears pos (length s.jumpdest_map) (jump_impl s dst)
  unfolding jump_impl
  jump_impl-Nears pos s dst = landing-Nears pos (length s.jumpdest_map) (to_uint64 dst 0) _ s _

  jumpi-Nears :
      (top : ℕ) (s : ExecutionState) (pos : ℕ) → Nears pos (length s.jumpdest_map) (jumpi top s pos)
  unfolding jumpi log_stack
  jumpi-Nears top s pos =
      let s₂ = log_stack (log_stack s top 2 1 false) top 1 0 false in
      if-Nears (ltb 0 (to_uint64 (item s₂ (top - 1) 0) 0)) pos (length s.jumpdest_map)
        (jump_impl s₂ (item s₂ top 0)) (some (pos + 1), s₂) (jump_impl-Nears pos s₂ (item s₂ top 0))
        (one-Nears pos (length s.jumpdest_map) s₂)

dupn-Nears : (top : ℕ) (s : ExecutionState) (pos size : ℕ) → Nears pos size (dupn top s pos)
unfolding dupn
dupn-Nears top s pos size = search nearby

swapn-Nears : (top : ℕ) (s : ExecutionState) (pos size : ℕ) → Nears pos size (swapn top s pos)
unfolding swapn
swapn-Nears top s pos size = search nearby

abbrev pub IsNear : {W : Type 0} → Instruction W → Type 0
IsNear {W} (moving f) =
    (top : ℕ) (env : Environment W) (pos pos' : ℕ)
    → (f top env pos).0 ≡ some pos'
    → is_near pos pos' (length env.state.jumpdest_map) ≡ true
IsNear _ = Unit {0}

-- The opcodes of legacy code, as far as they move.
abbrev pub is_legacy : Opcode → Bool
is_legacy op_rjump = false
is_legacy op_rjumpi = false
is_legacy op_rjumpv = false
is_legacy op_callf = false
is_legacy op_retf = false
is_legacy op_jumpf = false
is_legacy (op_push n) = leb n 32
is_legacy _ = true

module _ {W : Type 0} ⦃host : HostInterface W⦄ ⦃intx : Intx⦄ (keccak : List ℕ → ℕ)
    (host_call : W → Message → Result × W) where
  pub instruction_of-IsNear :
      (o : Opcode) → is_legacy o ≡ true → IsNear (instruction_of keccak host_call o)
  unfolding instruction_of jump pc push dataloadn log_stack
  instruction_of-IsNear op_jump legacy = λ top env pos. (jump_impl-Nears pos _ _).near
  instruction_of-IsNear op_jumpi legacy = λ top env pos. (jumpi-Nears top env.state pos).near
  instruction_of-IsNear op_pc legacy = λ top env pos pos' e.
      some_near pos (pos + 1) pos' (length env.state.jumpdest_map) e (ground arith)
  instruction_of-IsNear op_dupn legacy = λ top env pos. (dupn-Nears top env.state pos _).near
  instruction_of-IsNear op_swapn legacy = λ top env pos. (swapn-Nears top env.state pos _).near
  instruction_of-IsNear op_dataloadn legacy = λ top env pos pos' e.
      some_near pos (pos + 3) pos' (length env.state.jumpdest_map) e (ground arith)
  instruction_of-IsNear (op_push n) legacy = λ top env pos pos' e.
      some_near pos (pos + (n + 1)) pos' (length env.state.jumpdest_map) e (ground arith)
  instruction_of-IsNear (op_log n) legacy = elim (Bool-cases (n == 1)) [
    | inl one ↦ rw one tt
    | inr other ↦ rw other tt
  ]
  instruction_of-IsNear op_rjump legacy = absurd cc
  instruction_of-IsNear op_rjumpi legacy = absurd cc
  instruction_of-IsNear op_rjumpv legacy = absurd cc
  instruction_of-IsNear op_callf legacy = absurd cc
  instruction_of-IsNear op_retf legacy = absurd cc
  instruction_of-IsNear op_jumpf legacy = absurd cc
  instruction_of-IsNear _ legacy = tt
