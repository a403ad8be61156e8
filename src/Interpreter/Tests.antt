-- ===== src/Interpreter/Tests.antt =====
-- The theorems on the loop, at a short code.
use evm_assigner.Base.{
  ◌≤ℤ◌, Option, ◌⊎◌, refl, length, ◌<◌, ◌≤◌, ◌-ℤ◌, ◌+ℤ◌, ◌≡◌, arith, ℤ, pos, [], ◌∷◌, some, List, ℕ,
}
use evm_assigner.Samples.{sample_intx, sample_context, sample_message}
use evm_assigner.Revision.{shanghai}
use evm_assigner.Memory.{empty_memory}
use evm_assigner.State.{success, stack_limit}
use evm_assigner.Host.{Environment, Message, Result, result}
use evm_assigner.Baseline.{check_requirements, default_header, analyze_jumpdests, pad_code}
use evm_assigner.Gas.Table.{get_baseline_cost_table}
use evm_assigner.VmHost.{VmHost, vm_host, host_call}
use evm_assigner.Rw.Sort.{All, HasDistinctIds}
use evm_assigner.State.Trace.{IsNumbered}
use evm_assigner.Interpreter.Loop.{dispatch, dispatch_from, invoke, invoke_checked, Position}
use evm_assigner.Traits.{traits}
use evm_assigner.Gas.{gas_costs, has_const_gas_cost}
use evm_assigner.Opcode.{decode}
use evm_assigner.State.{log_stack}
use evm_assigner.Instructions.{binary}
use evm_assigner.Instructions.Stack.{push}
use evm_assigner.Interpreter.Opcodes.{instruction_at, instruction_of}
use evm_assigner.Interpreter.Instruction.{invoke_instruction}
use evm_assigner.Interpreter.Reached.{Reached, begins, continues, Reached-inside}
use evm_assigner.Interpreter.GasBound.{Reached-gas}
use evm_assigner.Interpreter.Terminates.{RaisesAt, dispatch-terminates}
use evm_assigner.Interpreter.Counting.Runs.{dispatch-IsNumbered}

-- PUSH1 5, PUSH1 3, ADD, POP.
abbrev sample_code : List ℕ
sample_code = 0x60 ∷ 5 ∷ 0x60 ∷ 3 ∷ 0x01 ∷ 0x50 ∷ []

abbrev no_accounts : VmHost
no_accounts = record { accounts = []; tx_context = sample_context }

abbrev sample_environment : Environment VmHost
sample_environment = record {
  state = record {
    memory = empty_memory;
    rev = shanghai;
    status = success;
    call_id = 0;
    rw_trace = [];
    executable_code = pad_code sample_code;
    jumpdest_map = analyze_jumpdests sample_code;
    stack_space = λ i. 0;
  };
  msg = sample_message;
  tx_context = sample_context;
  original_code = sample_code;
  return_data = [];
  eof_data = [];
  eof_header = default_header;
  call_stack = [];
  gas_refund = pos 0;
  output_offset = 0;
  output_size = 0;
  world = no_accounts;
}

-- The host, with runs that give back the gas of their message.
abbrev sample_host : VmHost → Message → Result × VmHost
sample_host =
    host_call ⦃intx = sample_intx⦄ (λ bytes. 7) (λ v. [])
      (λ world rev msg code. (result success msg.gas [] 0, world))

dispatch-terminates_example :
    ((r : ℤ × Environment VmHost) × (dispatch ⦃host = vm_host⦄ ⦃intx = sample_intx⦄
          (λ bytes. 0)
          sample_host
          (get_baseline_cost_table shanghai 0)
          201
          (pos 100)
          sample_environment
        ≡ some r))
    ⊎ RaisesAt ⦃host = vm_host⦄ ⦃intx = sample_intx⦄
        (λ bytes. 0)
        sample_host
        (get_baseline_cost_table shanghai 0)
        (pos 100)
        sample_environment
dispatch-terminates_example =
    dispatch-terminates ⦃host = vm_host⦄ ⦃intx = sample_intx⦄ (λ bytes. 0) sample_host shanghai 0
      201 (pos 100) sample_environment (omega arith)

-- The run that the theorem on its end is about.
abbrev sample_result : Option (ℤ × Environment VmHost)
sample_result =
    dispatch ⦃host = vm_host⦄ ⦃intx = sample_intx⦄ (λ bytes. 0) sample_host
      (get_baseline_cost_table shanghai 0) 201 (pos 100) sample_environment

sample_run : (r : ℤ × Environment VmHost) × (sample_result ≡ some r)
unfolding dispatch dispatch_from invoke check_requirements invoke_checked traits gas_costs
    has_const_gas_cost decode instruction_at instruction_of invoke_instruction
    get_baseline_cost_table push pad_code ◌-ℤ◌ ◌+ℤ◌ log_stack binary
sample_run = (_, refl)

dispatch-IsNumbered_example :
    IsNumbered 0 sample_run.0.1.state.rw_trace
    × All (λ a. a.id ≡ 0) sample_run.0.1.state.rw_trace
    × HasDistinctIds sample_run.0.1.state.rw_trace
dispatch-IsNumbered_example =
    dispatch-IsNumbered ⦃host = vm_host⦄ ⦃intx = sample_intx⦄ (λ bytes. 0) sample_host
      (get_baseline_cost_table shanghai 0) 201 (pos 100) sample_environment sample_run.0 tt tt
      sample_run.1

-- The first round, PUSH1.
abbrev first_round : Position × (ℤ × Environment VmHost)
first_round =
    invoke ⦃host = vm_host⦄ ⦃intx = sample_intx⦄ (λ bytes. 0) sample_host
      (get_baseline_cost_table shanghai 0) 0 0 (pos 100) sample_environment 0x60

second_position :
    Reached ⦃host = vm_host⦄ ⦃intx = sample_intx⦄
      (λ bytes. 0)
      sample_host
      (get_baseline_cost_table shanghai 0)
      (pos 100)
      sample_environment
      2
      1
      first_round.1.0
      first_round.1.1
unfolding invoke check_requirements invoke_checked traits gas_costs has_const_gas_cost decode
    instruction_at instruction_of invoke_instruction get_baseline_cost_table push pad_code ◌-ℤ◌ ◌+ℤ◌
second_position = continues 0 0 (pos 100) sample_environment 2 1 _ _ begins refl

Reached-inside_example :
    (2 < length first_round.1.1.state.executable_code)
    × (1 ≤ stack_limit)
    × (first_round.1.1.state.executable_code ≡ pad_code sample_code)
Reached-inside_example =
    Reached-inside ⦃host = vm_host⦄ ⦃intx = sample_intx⦄ (λ bytes. 0) sample_host shanghai
      sample_code (pos 100) sample_environment refl refl refl 2 1 first_round.1.0 first_round.1.1
      second_position

Reached-gas_example :
    (first_round.1.0 ≤ℤ pos 100)
    ⊎ RaisesAt ⦃host = vm_host⦄ ⦃intx = sample_intx⦄
        (λ bytes. 0)
        sample_host
        (get_baseline_cost_table shanghai 0)
        (pos 100)
        sample_environment
Reached-gas_example =
    Reached-gas ⦃host = vm_host⦄ ⦃intx = sample_intx⦄ (λ bytes. 0) sample_host shanghai 0 (pos 100)
      sample_environment 2 1 first_round.1.0 first_round.1.1 second_position
