-- ===== src/Interpreter/Undefined.antt =====
-- The opcodes that are not defined end the loop of `dispatch`.
use evm_assigner.Base.{
  ℕ, ◌≡◌, refl, arith, ℤ, Bool-cases, inl, inr, true, false, ◌==◌, none, some, List,
}
use evm_assigner.Intx.{Intx}
use evm_assigner.Opcode.{Opcode, decode, op_printf, op_log}
use evm_assigner.State.{undefined_instruction}
use evm_assigner.Host.{HostInterface, Environment, Message, Result}
use evm_assigner.Interpreter.Instruction.{missing, invoke_instruction, set_status}
use evm_assigner.Interpreter.Opcodes.{instruction_of, instruction_at}
use evm_assigner.Interpreter.Progress.{is_undefined, undefined_at}

module _ {W : Type 0} ⦃host : HostInterface W⦄ ⦃intx : Intx⦄ (keccak : List ℕ → ℕ)
    (host_call : W → Message → Result × W) where
  undefined_ends :
      (o : Opcode) (pc top : ℕ) (g : ℤ) (env : Environment W)
      → is_undefined o ≡ true
      → invoke_instruction (instruction_of keccak host_call o) pc top g env
        ≡ (none, (g, set_status undefined_instruction env))
  unfolding instruction_of invoke_instruction
  undefined_ends op_printf pc top g env h = refl
  undefined_ends (op_log n) pc top g env h = elim (Bool-cases (n == 1)) [
    | inl one ↦ absurd (ground arith)
    | inr other ↦ rw other refl
  ]
  undefined_ends _ pc top g env h = absurd (false-ne-true h)
    where
      false-ne-true : false ≡ true → ⊥
      false-ne-true h = cc

  pub undefined_at_ends :
      (op pc top : ℕ) (g : ℤ) (env : Environment W)
      → undefined_at op ≡ true
      → invoke_instruction (instruction_at keccak host_call op) pc top g env
        ≡ (none, (g, set_status undefined_instruction env))
  unfolding instruction_at invoke_instruction
  undefined_at_ends op pc top g env =
      elim (decode op)
        as (λ d.
          (elim d [ none ↦ true | some o ↦ is_undefined o ]) ≡ true
          → invoke_instruction
              (elim d [ none ↦ missing | some o ↦ instruction_of keccak host_call o ]) pc top g env
            ≡ (none, (g, set_status undefined_instruction env))) [
              | none ↦ λ h. refl
              | some o ↦ undefined_ends o pc top g env
            ]
