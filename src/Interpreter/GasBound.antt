-- ===== src/Interpreter/GasBound.antt =====
-- The gas in the positions that a run of `dispatch` reaches.
use evm_assigner.Base.{
  ℕ, ◌<◌, ◌≡◌, refl, ap, sym, arith, ℤ, ◌-ℤ◌, ◌≤ℤ◌, -ℤ_parts, ltb_ℤ, is_neg, Bool-cases, ◌⊎◌, inl,
  inr, true, false, if◌then◌else◌, none, some, List, get_or,
}
use mathlib.Core.Path.{subst}
use evm_assigner.Intx.{Intx}
use evm_assigner.Revision.{Revision}
use evm_assigner.Opcode.Codes.{decode-none}
use evm_assigner.Gas.{has_const_gas_cost}
use evm_assigner.Gas.Table.{get_baseline_cost_table}
use evm_assigner.State.{StatusCode, success}
use evm_assigner.Host.{HostInterface, Environment, Message, Result}
use evm_assigner.Baseline.{base_cost, check_requirements}
use evm_assigner.Baseline.Requirements.{success_charges}
use evm_assigner.Interpreter.Instruction.{invoke_instruction}
use evm_assigner.Interpreter.Opcodes.{instruction_at}
use evm_assigner.Interpreter.Loop.{invoke, invoke_checked}
use evm_assigner.Interpreter.Spending.{≤ℤ_trans, ≤ℤ_refl}
use evm_assigner.Interpreter.Spending.Callers.{HostRaises}
use evm_assigner.Interpreter.Spending.Opcodes.{is_caller_at, instruction_at-IsSpending}
use evm_assigner.Interpreter.Progress.{
  undefined_at, progresses, progresses_below, invoke_instruction_falls, none-ne-some,
}
use evm_assigner.Interpreter.Undefined.{undefined_at_ends}
use evm_assigner.Interpreter.Reached.{Reached, begins, continues}
use evm_assigner.Interpreter.Terminates.{RaisesAt}

cost_falls : (gas_left cost : ℤ) → is_neg cost ≡ false → gas_left -ℤ cost ≤ℤ gas_left
cost_falls gas_left cost h = ground (arith, -ℤ_parts gas_left cost)

module _ {W : Type 0} ⦃host : HostInterface W⦄ ⦃intx : Intx⦄ (keccak : List ℕ → ℕ)
    (host_call : W → Message → Result × W) (rev : Revision) (version : ℕ) where
  abbrev table : ℕ → ℤ
  table = get_baseline_cost_table rev version

  -- A round leaves no more gas than it found, or its call has raised the gas.
  abbrev RoundKeeps : ℕ → ℤ → ℤ → Type 0
  RoundKeeps op gas_left gas' =
      (gas' ≤ℤ gas_left)
      ⊎ ((is_caller_at op ≡ true) × (ltb_ℤ gas_left gas' ≡ true) × HostRaises host_call)

  cost_not_neg :
      (op : ℕ)
      → (if has_const_gas_cost op then false else is_neg (table op)) ≡ false
      → undefined_at op ≡ false
      → is_neg (base_cost table op) ≡ false
  unfolding progresses
  cost_not_neg op defined known =
      let fits : op < 256 = ground (arith, decode-none op) in
      let p = progresses_below rev version op fits in ground arith

  continued_keeps :
      (pc pc' top op : ℕ) (gas_left g : ℤ) (env : Environment W)
      → check_requirements table gas_left top op ≡ (success, g)
      → (invoke_instruction (instruction_at keccak host_call op) pc top g env).0 ≡ some pc'
      → RoundKeeps op gas_left
          (invoke_instruction (instruction_at keccak host_call op) pc top g env).1.0
  continued_keeps pc pc' top op gas_left g env checked goes_on =
      elim (Bool-cases (undefined_at op)) [
        | inl unknown ↦ absurd (
            none-ne-some _ pc'
              (ap (λ i. i.0) (undefined_at_ends keccak host_call op pc top g env unknown)) goes_on)
        | inr known ↦
            let i = instruction_at keccak host_call op in
            let gas' = (invoke_instruction i pc top g env).1.0 in
            let (e, paid, defined) = success_charges table gas_left g top op checked in
            let k : g ≤ℤ gas_left =
              subst (λ x. x ≤ℤ gas_left) (sym e)
                (cost_falls gas_left (base_cost table op) (cost_not_neg op defined known)) in
            elim (invoke_instruction_falls i pc top g env
              (instruction_at-IsSpending keccak host_call op) paid) [
                | inl le ↦ inl (≤ℤ_trans gas' g gas_left le k)
                | inr (caller, raised) ↦ elim (Bool-cases (ltb_ℤ gas_left gas')) [
                  | inl more ↦ inr (caller, more, raised)
                  | inr le ↦ inl (ground arith)
                ]
              ]
      ]

  checked_keeps :
      (r : StatusCode × ℤ) (pc pc' top op : ℕ) (gas_left : ℤ) (env : Environment W)
      → check_requirements table gas_left top op ≡ r
      → (invoke_checked keccak host_call table r pc top env op).0.code_it ≡ some pc'
      → RoundKeeps op gas_left (invoke_checked keccak host_call table r pc top env op).1.0
  unfolding invoke_checked
  checked_keeps (success, g) pc pc' top op gas_left env checked goes_on =
      continued_keeps pc pc' top op gas_left g env checked goes_on
  checked_keeps (_, g) pc pc' top op gas_left env checked goes_on =
      absurd (none-ne-some none pc' refl goes_on)

  module _ (gas₀ : ℤ) (env₀ : Environment W) where
    -- In every position that a run of the interpreter loop reaches, from the start of the code and
    -- an empty stack, in every revision, legacy or EOF, the gas is at most the gas of the start; or
    -- else a call or a creation of the run, at a position that it reaches, leaves more gas than it
    -- found, on a host that answers some message with more gas than it has.
    pub Reached-gas :
        (pc top : ℕ) (gas : ℤ) (env : Environment W)
        → Reached keccak host_call table gas₀ env₀ pc top gas env
        → (gas ≤ℤ gas₀) ⊎ RaisesAt keccak host_call table gas₀ env₀
    unfolding invoke
    Reached-gas pc top gas env begins = inl (≤ℤ_refl gas₀)
    Reached-gas pc' top' gas' env' (continues pc top gas env _ _ _ _ before e) =
        let op = get_or env.state.executable_code pc 0 in
        let next = invoke keccak host_call table pc top gas env op in
        elim (Reached-gas pc top gas env before) [
          | inr raises ↦ inr raises
          | inl le ↦
              elim (checked_keeps (check_requirements table gas top op) pc pc' top op gas env refl
                (ap (λ q. q.0.code_it) e)) [
                  | inl kept ↦ inl (
                      subst (λ (x : ℤ). x ≤ℤ gas₀) (ap (λ q. q.1.0) e)
                        (≤ℤ_trans next.1.0 gas gas₀ kept le))
                  | inr (caller, more, raised) ↦ inr record {
                    pc = pc;
                    top = top;
                    gas = gas;
                    env = env;
                    reached = before;
                    caller = caller;
                    more = more;
                    raised = raised;
                  }
                ]
        ]
