-- ===== src/Interpreter/Terminates.antt =====
-- The end of the loop of `dispatch`.
use evm_assigner.Base.{
  ℕ, zero, suc, ◌+◌, ◌*◌, ◌<◌, ◌≡◌, refl, arith, ℤ, pos_part, ap, ltb_ℤ, ◌⊎◌, Bool-cases, inl, inr,
  true, false, ◌==◌, Option, none, some, List, get_or,
}
use evm_assigner.Intx.{Intx}
use evm_assigner.Revision.{Revision}
use evm_assigner.Opcode.{
  Opcode, decode, op_stop, op_return, op_revert, op_invalid, op_selfdestruct, op_printf, op_log,
}
use evm_assigner.Opcode.Codes.{decode-none}
use evm_assigner.Traits.{traits}
use evm_assigner.Gas.Table.{get_baseline_cost_table}
use evm_assigner.State.{StatusCode, success}
use evm_assigner.Host.{HostInterface, Environment, Message, Result}
use evm_assigner.Baseline.{base_cost, check_requirements}
use evm_assigner.Baseline.Requirements.{success_requires, success_charges, change_bounds}
use evm_assigner.Interpreter.Instruction.{missing, invoke_instruction}
use evm_assigner.Interpreter.Opcodes.{instruction_of, instruction_at}
use evm_assigner.Interpreter.Loop.{
  Position, new_stack_top, invoke, invoke_checked, dispatch, dispatch_from,
}
use evm_assigner.Interpreter.Spending.Callers.{HostRaises}
use evm_assigner.Interpreter.Spending.Opcodes.{is_caller_at, instruction_at-IsSpending}
use evm_assigner.Interpreter.Reached.{Reached, begins, continues}
use evm_assigner.Interpreter.Progress.{
  ends, ends_at, progresses, progresses_below, measure_falls, none-ne-some,
  invoke_instruction_falls, caller_takes, measure_falls_by_items,
}

module _ {W : Type 0} ⦃host : HostInterface W⦄ ⦃intx : Intx⦄ (keccak : List ℕ → ℕ)
    (host_call : W → Message → Result × W) where
  ends_null :
      (o : Opcode) (pc top : ℕ) (g : ℤ) (env : Environment W)
      → ends o ≡ true
      → (invoke_instruction (instruction_of keccak host_call o) pc top g env).0 ≡ none
  unfolding instruction_of invoke_instruction
  ends_null op_stop pc top g env h = refl
  ends_null op_return pc top g env h = refl
  ends_null op_revert pc top g env h = refl
  ends_null op_invalid pc top g env h = refl
  ends_null op_selfdestruct pc top g env h = refl
  ends_null op_printf pc top g env h = refl
  ends_null (op_log n) pc top g env h = elim (Bool-cases (n == 1)) [
    | inl one ↦ absurd (ground arith)
    | inr other ↦ rw other refl
  ]
  ends_null _ pc top g env h = absurd (false-ne-true h)
    where
      false-ne-true : false ≡ true → ⊥
      false-ne-true h = cc

  -- An opcode that ends the loop, or a number that is no byte.
  ends_at_null :
      (op pc top : ℕ) (g : ℤ) (env : Environment W)
      → ends_at op ≡ true
      → (invoke_instruction (instruction_at keccak host_call op) pc top g env).0 ≡ none
  unfolding instruction_at invoke_instruction
  ends_at_null op pc top g env =
      elim (decode op)
        as (λ d.
          (elim d [ none ↦ true | some o ↦ ends o ]) ≡ true
          → (invoke_instruction
              (elim d [ none ↦ missing | some o ↦ instruction_of keccak host_call o ]) pc top g
              env).0
            ≡ none) [ none ↦ λ h. refl | some o ↦ ends_null o pc top g env ]

  -- A round of the run whose call or creation leaves more gas than the round found, on a host that
  -- answers some message with more gas than it has.
  pub record RaisesAt (cost_table : ℕ → ℤ) (gas₀ : ℤ) (env₀ : Environment W) : Type 0 where
    pub pc : ℕ
    pub top : ℕ
    pub gas : ℤ
    pub env : Environment W
    pub reached : Reached keccak host_call cost_table gas₀ env₀ pc top gas env
    pub caller : is_caller_at (get_or env.state.executable_code pc 0) ≡ true
    pub more :
        ltb_ℤ gas
          (invoke keccak host_call cost_table pc top gas env
            (get_or env.state.executable_code pc 0)).1.0
        ≡ true
    pub raised : HostRaises host_call

  module _ (rev : Revision) (version : ℕ) where
    abbrev table : ℕ → ℤ
    table = get_baseline_cost_table rev version

    -- What a round that goes on leaves: less of the measure, or a call has raised the gas.
    abbrev RoundFalls : ℕ → ℕ → ℤ → ℕ → ℤ → Type 0
    RoundFalls op top gas_left top' gas' =
        (2 * pos_part gas' + top' < 2 * pos_part gas_left + top)
        ⊎ ((is_caller_at op ≡ true) × (ltb_ℤ gas_left gas' ≡ true) × HostRaises host_call)

    continued_falls :
        (pc pc' top op : ℕ) (gas_left g : ℤ) (env : Environment W)
        → check_requirements table gas_left top op ≡ (success, g)
        → (invoke_instruction (instruction_at keccak host_call op) pc top g env).0 ≡ some pc'
        → RoundFalls op top gas_left
            (new_stack_top top op)
            (invoke_instruction (instruction_at keccak host_call op) pc top g env).1.0
    unfolding progresses
    continued_falls pc pc' top op gas_left g env checked goes_on = elim (Bool-cases (ends_at op)) [
      | inl last ↦ absurd (none-ne-some _ pc' (ends_at_null op pc top g env last) goes_on)
      | inr inner ↦
          let i = instruction_at keccak host_call op in
          let fits : op < 256 = ground (arith, decode-none op) in
          let (e, paid, defined) = success_charges table gas_left g top op checked in
          let (enough, room) = success_requires table gas_left g top op checked in
          let (up, down) = change_bounds op fits in
          let gas' = (invoke_instruction i pc top g env).1.0 in
          elim (invoke_instruction_falls i pc top g env
            (instruction_at-IsSpending keccak host_call op) paid) [
              | inl le ↦ inl (
                  measure_falls gas_left g gas' (base_cost table op) (traits op).stack_height_change
                    (traits op).stack_height_required top e paid le enough up down
                    (ground (arith, progresses_below rev version op fits)))
              | inr (caller, raised) ↦ elim (Bool-cases (ltb_ℤ gas_left gas')) [
                | inl more ↦ inr (caller, more, raised)
                | inr le ↦ inl (
                    measure_falls_by_items gas_left gas' (traits op).stack_height_change
                      (traits op).stack_height_required top (ground arith) enough down
                      (caller_takes op fits caller))
              ]
            ]
    ]

    checked_falls :
        (r : StatusCode × ℤ) (pc pc' top op : ℕ) (gas_left : ℤ) (env : Environment W)
        → check_requirements table gas_left top op ≡ r
        → (invoke_checked keccak host_call table r pc top env op).0.code_it ≡ some pc'
        → RoundFalls op top gas_left
            (invoke_checked keccak host_call table r pc top env op).0.stack_top
            (invoke_checked keccak host_call table r pc top env op).1.0
    unfolding invoke_checked
    checked_falls (success, g) pc pc' top op gas_left env checked goes_on =
        continued_falls pc pc' top op gas_left g env checked goes_on
    checked_falls (_, g) pc pc' top op gas_left env checked goes_on =
        absurd (none-ne-some none pc' refl goes_on)

    module _ (gas₀ : ℤ) (env₀ : Environment W) where
      abbrev EndsOrRaises : Option (ℤ × Environment W) → Type 0
      EndsOrRaises run = ((r : ℤ × Environment W) × (run ≡ some r)) ⊎ RaisesAt table gas₀ env₀

      -- A round returns if the loop behind it does.
      round_returns :
          (fuel : ℕ) (next : Position × (ℤ × Environment W))
          → ((pc' : ℕ)
              → next.0.code_it ≡ some pc'
              → EndsOrRaises (
                  dispatch_from keccak host_call table fuel pc' next.0.stack_top next.1.0 next.1.1))
          → (o : Option ℕ) → next.0.code_it ≡ o
          → EndsOrRaises (elim o [
            | none ↦ some next.1
            | some pc' ↦
                dispatch_from keccak host_call table fuel pc' next.0.stack_top next.1.0 next.1.1
          ])
      round_returns fuel next rest none e = inl (next.1, refl)
      round_returns fuel next rest (some pc') e = rest pc' e

      dispatch_from-terminates :
          (fuel pc top : ℕ) (gas : ℤ) (env : Environment W)
          → Reached keccak host_call table gas₀ env₀ pc top gas env
          → 2 * pos_part gas + top < fuel
          → EndsOrRaises (dispatch_from keccak host_call table fuel pc top gas env)
      unfolding dispatch_from invoke
      dispatch_from-terminates zero pc top gas env reached h = absurd (omega arith)
      dispatch_from-terminates (suc fuel) pc top gas env reached h =
          let op = get_or env.state.executable_code pc 0 in
          let next = invoke keccak host_call table pc top gas env op in
          round_returns fuel next
            (λ pc' e. elim (checked_falls _ pc pc' top op gas env refl e) [
              | inl falls ↦
                  dispatch_from-terminates fuel pc' next.0.stack_top next.1.0 next.1.1
                    (continues pc top gas env pc' next.0.stack_top next.1.0 next.1.1 reached
                      (ap (λ c. (record { code_it = c; stack_top = next.0.stack_top }, next.1)) e))
                    (omega arith)
              | inr (caller, more, raised) ↦ inr record {
                pc = pc;
                top = top;
                gas = gas;
                env = env;
                reached = reached;
                caller = caller;
                more = more;
                raised = raised;
              }
            ])
            next.0.code_it refl

    -- For every host, every code and every revision, legacy or EOF, fuel of more than twice the gas
    -- (counted as 0 where it is negative) is enough for a run of the interpreter loop, from the
    -- start of the code and an empty stack, to end; or else the run reaches a call or a creation
    -- whose round leaves more gas than it found, and the host answers some message with more gas
    -- than it has. A run that reaches no such call ends, whatever the host is.
    pub dispatch-terminates :
        (fuel : ℕ) (gas : ℤ) (env : Environment W)
        → 2 * pos_part gas < fuel
        → ((r : ℤ × Environment W) × (dispatch keccak host_call table fuel gas env ≡ some r))
          ⊎ RaisesAt table gas env
    unfolding dispatch
    dispatch-terminates fuel gas env h =
        dispatch_from-terminates gas env fuel 0 0 gas env begins (omega arith)
