-- ===== src/Interpreter/Counting/Runs.antt =====
-- What a run of `dispatch` leaves in the trace.
use evm_assigner.Base.{refl, ℕ, ℤ, ◌≡◌, some, List, get_or}
use evm_assigner.Intx.{Intx}
use evm_assigner.Rw.Sort.{All, HasDistinctIds}
use evm_assigner.State.{StatusCode, success}
use evm_assigner.State.Trace.{IsNumbered, IsNumbered-HasDistinctIds}
use evm_assigner.Host.{HostInterface, Environment, Message, Result}
use evm_assigner.Instructions.Copy.{Outcome}
use evm_assigner.Interpreter.Instruction.{
  Instruction, stack_only, plain, charging, moving, ending, missing, invoke_instruction,
  invoke_charging,
}
use evm_assigner.Interpreter.Opcodes.{instruction_at}
use evm_assigner.Interpreter.Loop.{invoke, invoke_checked, dispatch}
use evm_assigner.Interpreter.Induction.{dispatch-ends}
use evm_assigner.Interpreter.Counting.{Follows, CountedResult}
use evm_assigner.Interpreter.Counting.Opcodes.{IsCounting, instruction_at-IsCounting}
use evm_assigner.State.{ExecutionState}

pub starts :
    (s : ExecutionState)
    → IsNumbered 0 s.rw_trace
    → All (λ a. a.id ≡ s.call_id) s.rw_trace
    → Follows s s
starts s numbered same_call = record {
  numbered = numbered;
  same_call = same_call;
  call_kept = refl;
  code_kept = refl;
  map_kept = refl;
}

invoke_charging-Traced :
    {start : ExecutionState} {W : Type 0} (pc : ℕ) (o : Outcome (Environment W))
    → CountedResult start o
    → Follows start (invoke_charging pc o).1.1.state
unfolding invoke_charging
invoke_charging-Traced pc (success, (g, env)) h = h.counted
invoke_charging-Traced pc (_, (g, env)) h = h.counted

invoke_instruction-Traced :
    {start : ExecutionState} {W : Type 0} (i : Instruction W) (pc top : ℕ) (g : ℤ)
    (env : Environment W)
    → IsCounting start i
    → Follows start env.state
    → Follows start (invoke_instruction i pc top g env).1.1.state
unfolding invoke_instruction
invoke_instruction-Traced stack_only pc top g env i h = h
invoke_instruction-Traced (plain f) pc top g env i h = (i top env h).counted
invoke_instruction-Traced (charging f) pc top g env i h =
    invoke_charging-Traced pc (f top g env) (i top g env h)
invoke_instruction-Traced (moving f) pc top g env i h = (i top env pc h).counted
invoke_instruction-Traced (ending f) pc top g env i h = (i top g env h).counted
invoke_instruction-Traced missing pc top g env i h = h

module _ {start : ExecutionState} {W : Type 0} ⦃host : HostInterface W⦄ ⦃intx : Intx⦄
    (keccak : List ℕ → ℕ) (host_call : W → Message → Result × W) (cost_table : ℕ → ℤ) where
  pub invoke_checked-Traced :
      (r : StatusCode × ℤ) (pc top : ℕ) (env : Environment W) (op : ℕ)
      → Follows start env.state
      → Follows start (invoke_checked keccak host_call cost_table r pc top env op).1.1.state
  unfolding invoke_checked
  invoke_checked-Traced (success, g) pc top env op h =
      invoke_instruction-Traced (instruction_at keccak host_call op) pc top g env
        (instruction_at-IsCounting start keccak host_call op) h
  invoke_checked-Traced (_, g) pc top env op h = h

  pub dispatch-Traced :
      (fuel : ℕ) (gas : ℤ) (env : Environment W) (r : ℤ × Environment W)
      → Follows start env.state
      → dispatch keccak host_call cost_table fuel gas env ≡ some r
      → Follows start r.1.state
  unfolding invoke
  dispatch-Traced =
      dispatch-ends keccak host_call cost_table (λ gas env. Follows start env.state)
        (λ gas env. Follows start env.state)
        (λ pc top gas env h.
          let k = invoke_checked-Traced _ pc top env (get_or env.state.executable_code pc 0) h in
          (λ e. k, λ pc' e. k))

module _ {W : Type 0} ⦃host : HostInterface W⦄ ⦃intx : Intx⦄ (keccak : List ℕ → ℕ)
    (host_call : W → Message → Result × W) (cost_table : ℕ → ℤ) where
  -- A run of the interpreter loop that starts with a trace whose rw ids count up from 0 and whose
  -- operations belong to the call, and that ends, leaves a trace whose rw ids count up from 0 and
  -- whose operations belong to the same call, whatever the instructions, the host and the cost
  -- table are; no two operations of it have the same rw id.
  pub dispatch-IsNumbered :
      (fuel : ℕ) (gas : ℤ) (env : Environment W) (r : ℤ × Environment W)
      → IsNumbered 0 env.state.rw_trace
      → All (λ a. a.id ≡ env.state.call_id) env.state.rw_trace
      → dispatch keccak host_call cost_table fuel gas env ≡ some r
      → IsNumbered 0 r.1.state.rw_trace
        × All (λ a. a.id ≡ env.state.call_id) r.1.state.rw_trace
        × HasDistinctIds r.1.state.rw_trace
  dispatch-IsNumbered fuel gas env r numbered same_call e =
      let k : Follows env.state r.1.state =
        dispatch-Traced keccak host_call cost_table fuel gas env r
          (starts env.state numbered same_call) e in
      (k.numbered, k.same_call, IsNumbered-HasDistinctIds 0 r.1.state.rw_trace k.numbered)
