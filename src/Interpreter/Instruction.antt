-- ===== src/Interpreter/Instruction.antt =====
-- The signatures of instruction implementations, and the `invoke` helpers for each of them
-- (lib/assigner/evmone/baseline.hpp).
use evm_assigner.Base.{ℕ, ◌+◌, ℤ, Bool, true, false, if◌then◌else◌, Option, none, some}
use evm_assigner.State.{ExecutionState, StatusCode, success, revert, undefined_instruction}
use evm_assigner.Host.{Environment, is_success}
use evm_assigner.Instructions.Copy.{Outcome}

-- An implementation, by the type of its function: `void(StackTop)`, `void(StackTop, State)`,
-- `Result(StackTop, gas, State)`, `code_iterator(StackTop, State, code_iterator)` and
-- `TermResult(StackTop, gas, State)`; `missing` is the default of the `switch`.
pub data Instruction (W : Type 0) : Type 0 where
  stack_only : Instruction W
  plain : (ℕ → Environment W → Environment W) → Instruction W
  charging : (ℕ → ℤ → Environment W → Outcome (Environment W)) → Instruction W
  moving : (ℕ → Environment W → ℕ → Option ℕ × Environment W) → Instruction W
  ending : (ℕ → ℤ → Environment W → Outcome (Environment W)) → Instruction W
  missing : Instruction W

-- The statuses with which `evaluate` keeps the gas.
abbrev pub keeps_gas : StatusCode → Bool
keeps_gas success = true
keeps_gas revert = true
keeps_gas _ = false

-- Where the code continues, `none` for the null pointer, the gas left, and the environment.
abbrev pub Invoked : Type 0 → Type 0
Invoked W = Option ℕ × (ℤ × Environment W)

module _ {W : Type 0} where
  abbrev pub with_state : Environment W → ExecutionState → Environment W
  with_state env s = record env { state = s }

  abbrev pub set_status : StatusCode → Environment W → Environment W
  set_status status env = with_state env (record env.state { status = status })

  unfoldable pub invoke_charging : ℕ → Outcome (Environment W) → Invoked W
  invoke_charging pc o =
      if is_success o.0 then (some (pc + 1), o.1) else (none, (o.1.0, set_status o.0 o.1.1))

  -- `invoke` of an implementation at an offset of the code and a height of the stack.
  unfoldable pub invoke_instruction : Instruction W → ℕ → ℕ → ℤ → Environment W → Invoked W
  invoke_instruction stack_only pc top gas env = (some (pc + 1), (gas, env))
  invoke_instruction (plain f) pc top gas env = (some (pc + 1), (gas, f top env))
  invoke_instruction (charging f) pc top gas env = invoke_charging pc (f top gas env)
  invoke_instruction (moving f) pc top gas env = let r = f top env pc in (r.0, (gas, r.1))
  invoke_instruction (ending f) pc top gas env =
      let o = f top gas env in (none, (o.1.0, set_status o.0 o.1.1))
  invoke_instruction missing pc top gas env = (none, (gas, set_status undefined_instruction env))

  -- Implementations that stay inside the execution state.
  abbrev pub plain_state : (ℕ → ExecutionState → ExecutionState) → Instruction W
  plain_state f = plain (λ top env. with_state env (f top env.state))

  abbrev pub outcome_state : Environment W → Outcome ExecutionState → Outcome (Environment W)
  outcome_state env o = (o.0, (o.1.0, with_state env o.1.1))

  abbrev pub charging_state : (ℕ → ℤ → ExecutionState → Outcome ExecutionState) → Instruction W
  charging_state f = charging (λ top gas env. outcome_state env (f top gas env.state))

  abbrev pub ending_state : (ℕ → ℤ → ExecutionState → Outcome ExecutionState) → Instruction W
  ending_state f = ending (λ top gas env. outcome_state env (f top gas env.state))

  abbrev pub moving_state : (ℕ → ExecutionState → ℕ → Option ℕ × ExecutionState) → Instruction W
  moving_state f = moving (λ top env pc. let r = f top env.state pc in (r.0, with_state env r.1))

  -- Those that always continue.
  abbrev pub advancing_state : (ℕ → ExecutionState → ℕ → ℕ × ExecutionState) → Instruction W
  advancing_state f =
      moving (λ top env pc. let r = f top env.state pc in (some r.0, with_state env r.1))
