-- ===== src/Assigner.antt =====
-- lib/assigner/include/assigner.hpp: the assigner, which holds the tables of the circuits, and
-- `evaluate`, which runs a code and fills them. The assigner is shared with the host, so that it
-- is reached through the state of the host. The size of a column, the hashes and the initial field
-- element are the libraries'.
pub mod Returns
mod Tests
use Prim.Native.Nat.{bit_and}
use Prim.Native.String.{String}
use text.Mathlib.Text.{◌==◌ as str_eq}
use evm_assigner.Base.{
  ℕ, ◌+◌, ◌*◌, ◌==◌, ℤ, pos, pos_part, Bool, true, false, not, ◌||◌, if◌then◌else◌, Option, none,
  some, List, [], ◌∷◌, length,
}
use evm_assigner.Blueprint.{Blueprint}
use evm_assigner.Intx.{Intx}
use evm_assigner.Revision.{Revision}
use evm_assigner.Rw.{RwOperation}
use evm_assigner.Rw.Table.{Table, process_rw_operations, op_column}
use evm_assigner.Bytecode.{process_bytecode_input, value}
use evm_assigner.Memory.{empty_memory}
use evm_assigner.State.{ExecutionState, StatusCode, success, revert, failure}
use evm_assigner.Host.{HostInterface, Environment, Message, TxContext, Result, result, is_success}
use evm_assigner.Eof.{get_data}
use evm_assigner.Gas.Table.{get_baseline_cost_table}
use evm_assigner.Instructions.MemoryAccess.{memory_bytes}
use evm_assigner.Baseline.{CodeAnalysis, analyze}
use evm_assigner.VmHost.{find, assign}
use evm_assigner.Interpreter.Instruction.{keeps_gas}
use evm_assigner.Interpreter.Loop.{dispatch}

pub data ZkevmCircuit : Type 0 where
  all bytecode rw : ZkevmCircuit

abbrev pub circuit_value : ZkevmCircuit → ℕ
circuit_value all = 0xff
circuit_value bytecode = 0x1
circuit_value rw = 0x2

-- `zkevm_circuits_map`.
abbrev pub circuit_of : String → Option ZkevmCircuit
circuit_of name =
    if str_eq name ""
    then some all
    else if str_eq name "bytecode"
    then some bytecode
    else if str_eq name "rw"
    then some rw
    else none

-- `target & circuit`.
abbrev pub covers : ZkevmCircuit → ZkevmCircuit → Bool
covers target circuit = not (bit_and (circuit_value target) (circuit_value circuit) == 0)

-- The tables, by the value of their circuit.
pub record Assigner (F : Type 0) : Type 0 where
  pub assignments : List (ℕ × Table F)

-- Where the state of the host has the assigner.
pub record HasAssigner (F W : Type 0) : Type 0 where
  pub assigner : W → Assigner F
  pub set_assigner : W → Assigner F → W

-- What the libraries give: the size of a column, the hash as text, and a new field element.
pub record Libraries (F : Type 0) : Type 0 where
  pub witness_column_size : Table F → ℕ → ℕ
  pub keccak_text : List ℕ → List ℕ
  pub initial : F
  pub keccak : List ℕ → ℕ

-- The result of a run that has left some gas.
unfoldable pub result_of : {W : Type 0} → ℤ → Environment W → Result
result_of gas env = record {
  status_code = env.state.status;
  gas_left = if keeps_gas env.state.status then gas else pos 0;
  gas_refund = if is_success env.state.status then env.gas_refund else pos 0;
  output =
      if env.output_size == 0
      then []
      else memory_bytes env.state.memory env.output_offset env.output_size;
  create_address = 0;
}

module _ {F : Type 0} ⦃field : Blueprint F⦄ ⦃intx : Intx⦄ (libraries : Libraries F) where
  unfoldable pub handle_bytecode : ℕ → List ℕ → Assigner F → Assigner F
  handle_bytecode original_code_size code assigner =
      elim (find assigner.assignments (circuit_value bytecode)) [
        | none ↦ assigner
        | some table ↦ record {
          assignments = assign assigner.assignments (circuit_value bytecode) (
              process_bytecode_input libraries.keccak_text libraries.initial original_code_size code
                table (libraries.witness_column_size table value));
        }
      ]

  -- `none` where process_rw_operations reads behind the sorting columns.
  unfoldable pub handle_rw : List RwOperation → Assigner F → Option (Assigner F)
  handle_rw rw_trace assigner = elim (find assigner.assignments (circuit_value rw)) [
    | none ↦ some assigner
    | some table ↦
        elim (process_rw_operations rw_trace table
          (libraries.witness_column_size table op_column)) [
            | none ↦ none
            | some table' ↦
                some
                  (record { assignments = assign assigner.assignments (circuit_value rw) table' })
          ]
  ]

  module _ {W : Type 0} ⦃host : HostInterface W⦄ ⦃shared : HasAssigner F W⦄ (tx_context : TxContext)
      (host_call : W → Message → Result × W) where
    -- The execution state at the start; the call id is 0.
    abbrev pub new_environment : Revision → Message → List ℕ → CodeAnalysis → W → Environment W
    new_environment rev msg container analysis world = record {
      state = record {
        memory = empty_memory;
        rev = rev;
        status = success;
        call_id = 0;
        rw_trace = [];
        executable_code = analysis.executable_code;
        jumpdest_map = analysis.jumpdest_map;
        stack_space = λ i. 0;
      };
      msg = msg;
      tx_context = tx_context;
      original_code = container;
      return_data = [];
      eof_data = get_data analysis.eof_header container;
      eof_header = analysis.eof_header;
      call_stack = [];
      gas_refund = pos 0;
      output_offset = 0;
      output_size = 0;
      world = world;
    }

    -- The run, behind the bytecode table, of at most `fuel` rounds.
    unfoldable pub run_code :
        ℕ → Revision → Message → CodeAnalysis → Environment W → Option (ℤ × Environment W)
    run_code fuel rev msg analysis env =
        dispatch libraries.keccak host_call
          (get_baseline_cost_table rev analysis.eof_header.version) fuel msg.gas env

    -- The rw table of a run that has ended, and its result.
    unfoldable pub finish_run : ZkevmCircuit → ℤ × Environment W → Option (Result × W)
    finish_run target (gas, env) =
        if covers target rw
        then elim (handle_rw env.state.rw_trace (shared.assigner env.world)) [
          | none ↦ none
          | some assigner ↦ some (result_of gas env, shared.set_assigner env.world assigner)
        ]
        else some (result_of gas env, env.world)

    abbrev pub then_finish : ZkevmCircuit → Option (ℤ × Environment W) → Option (Result × W)
    then_finish target none = none
    then_finish target (some r) = finish_run target r

    -- The bytecode table.
    abbrev pub with_bytecode : ZkevmCircuit → ℕ → List ℕ → W → W
    with_bytecode target size code world =
        if covers target bytecode
        then shared.set_assigner world (handle_bytecode size code (shared.assigner world))
        else world

    unfoldable pub evaluate_analysis :
        ℕ → Revision → Message → List ℕ → ZkevmCircuit → CodeAnalysis → W → Option (Result × W)
    evaluate_analysis fuel rev msg container target analysis world =
        let world' = with_bytecode target (length container) analysis.executable_code world in
        then_finish target
          (run_code fuel rev msg analysis (new_environment rev msg container analysis world'))

    -- `none` stands for a run that has not ended after `fuel` rounds, and for reads outside an array,
    -- which only code that has not been validated causes.
    unfoldable pub evaluate : ℕ → Revision → Message → List ℕ → String → W → Option (Result × W)
    unfolding evaluate_analysis run_code finish_run
    evaluate fuel rev msg container target_circuit world = elim (circuit_of target_circuit) [
      | none ↦ some (result failure msg.gas [] 0, world)
      | some target ↦ elim (analyze rev container) [
        | none ↦ none
        | some analysis ↦ evaluate_analysis fuel rev msg container target analysis world
      ]
    ]
