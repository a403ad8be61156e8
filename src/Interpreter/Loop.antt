-- ===== src/Interpreter/Loop.antt =====
-- `invoke` and `dispatch` of lib/assigner/evmone/baseline.hpp.
use evm_assigner.Base.{
  ℕ, zero, suc, ℤ, pos, pos_part, ◌+ℤ◌, if◌then◌else◌, Option, none, some, List, get_or,
}
use evm_assigner.Intx.{Intx}
use evm_assigner.Traits.{traits}
use evm_assigner.State.{StatusCode}
use evm_assigner.Host.{HostInterface, Environment, Message, Result, is_success}
use evm_assigner.Baseline.{check_requirements}
use evm_assigner.Interpreter.Instruction.{set_status, invoke_instruction}
use evm_assigner.Interpreter.Opcodes.{instruction_at}

-- The execution position; `none` is the null pointer.
pub record Position : Type 0 where
  pub code_it : Option ℕ
  pub stack_top : ℕ

-- The height of the stack behind an instruction, which the checks keep from becoming negative.
abbrev pub new_stack_top : ℕ → ℕ → ℕ
new_stack_top top op = pos_part (pos top +ℤ (traits op).stack_height_change)

module _ {W : Type 0} ⦃host : HostInterface W⦄ ⦃intx : Intx⦄ (keccak : List ℕ → ℕ)
    (host_call : W → Message → Result × W) (cost_table : ℕ → ℤ) where
  -- `invoke` behind its checks, whose status and gas are given.
  unfoldable pub invoke_checked :
      StatusCode × ℤ → ℕ → ℕ → Environment W → ℕ → Position × (ℤ × Environment W)
  invoke_checked (status, gas) pc top env op =
      let r = invoke_instruction (instruction_at keccak host_call op) pc top gas env in
      if is_success status
      then (record { code_it = r.0; stack_top = new_stack_top top op }, r.1)
      else (record { code_it = none; stack_top = top }, (gas, set_status status env))

  unfoldable pub invoke : ℕ → ℕ → ℤ → Environment W → ℕ → Position × (ℤ × Environment W)
  unfolding invoke_checked
  invoke pc top gas env op = invoke_checked (check_requirements cost_table gas top op) pc top env op

  -- The loop, from a position on; `none` where the fuel does not suffice. An end by an exception
  -- or by a terminating instruction gives the gas and the environment.
  unfoldable pub dispatch_from : ℕ → ℕ → ℕ → ℤ → Environment W → Option (ℤ × Environment W)
  dispatch_from zero pc top gas env = none
  dispatch_from (suc fuel) pc top gas env =
      let next = invoke pc top gas env (get_or env.state.executable_code pc 0) in
      elim next.0.code_it [
        | none ↦ some next.1
        | some pc' ↦ dispatch_from fuel pc' next.0.stack_top next.1.0 next.1.1
      ]

  unfoldable pub dispatch : ℕ → ℤ → Environment W → Option (ℤ × Environment W)
  unfolding dispatch_from
  dispatch fuel gas env = dispatch_from fuel 0 0 gas env
