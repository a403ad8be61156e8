-- ===== src/Assigner/Returns.antt =====
-- The end of `evaluate` of lib/assigner/include/assigner.hpp.
use Prim.Native.String.{String}
use evm_assigner.Base.{
  ℕ, ◌*◌, ◌<◌, ◌≡◌, refl, ◌∙◌, ◌⊎◌, inl, inr, ℤ, pos_part, Option, none, some, List, [], length,
}
use evm_assigner.Blueprint.{Blueprint}
use evm_assigner.Intx.{Intx}
use evm_assigner.Revision.{Revision}
use evm_assigner.Host.{HostInterface, Environment, Message, TxContext, Result, result}
use evm_assigner.State.{failure}
use evm_assigner.Baseline.{CodeAnalysis, analyze}
use evm_assigner.Gas.Table.{get_baseline_cost_table}
use evm_assigner.Interpreter.Terminates.{RaisesAt, dispatch-terminates}
use evm_assigner.Assigner.{
  ZkevmCircuit, bytecode, circuit_of, HasAssigner, Libraries, with_bytecode, new_environment,
  result_of, run_code, finish_run, then_finish, evaluate_analysis, evaluate,
}

module _ {F : Type 0} ⦃field : Blueprint F⦄ ⦃intx : Intx⦄ (libraries : Libraries F) {W : Type 0}
    ⦃host : HostInterface W⦄ ⦃shared : HasAssigner F W⦄ (tx_context : TxContext)
    (host_call : W → Message → Result × W) (rev : Revision) (msg : Message) (container : List ℕ)
    (analysis : CodeAnalysis) where
  run_finishes :
      (end : ℤ × Environment W) (run : Option (ℤ × Environment W))
      → run ≡ some end
      → then_finish libraries tx_context host_call bytecode run
        ≡ some (result_of end.0 end.1, end.1.world)
  unfolding finish_run
  run_finishes end run e = rw e refl

  chosen :
      (fuel : ℕ) (world : W) (circuit : Option ZkevmCircuit) (analysed : Option CodeAnalysis)
      → circuit ≡ some bytecode
      → analysed ≡ some analysis
      → (elim circuit [
        | none ↦ some (result failure msg.gas [] 0, world)
        | some t ↦ elim analysed [
          | none ↦ none
          | some a ↦
              evaluate_analysis libraries tx_context host_call fuel rev msg container t a world
        ]
      ])
        ≡ evaluate_analysis libraries tx_context host_call fuel rev msg container bytecode analysis
            world
  chosen fuel world circuit analysed e d = rw (e, d) refl

  -- The environment of the run, behind the bytecode table.
  abbrev pub run_environment : W → Environment W
  run_environment world =
      new_environment libraries tx_context host_call rev msg container analysis (
        with_bytecode libraries tx_context host_call bytecode (length container)
          analysis.executable_code world)

  -- For a container that analyze accepts, legacy or EOF, a target circuit of the bytecode table
  -- only, and fuel of more than twice the message's gas (counted as 0 where it is negative), the
  -- run ends and evaluate returns the result of its end and the world there; or else the run, from
  -- the environment that evaluate gives it, reaches a call or a creation whose round leaves more
  -- gas than it found, and the host answers some message with more gas than it has. The host and
  -- the message are any.
  pub evaluate-terminates :
      (fuel : ℕ) (target_circuit : String) (world : W)
      → circuit_of target_circuit ≡ some bytecode
      → analyze rev container ≡ some analysis
      → 2 * pos_part msg.gas < fuel
      → ((end : ℤ × Environment W) × (run_code libraries tx_context host_call fuel rev msg analysis
              (run_environment world)
            ≡ some end)
          × (evaluate libraries tx_context host_call fuel rev msg container target_circuit world
              ≡ some (result_of end.0 end.1, end.1.world)))
        ⊎ RaisesAt libraries.keccak host_call
            (get_baseline_cost_table rev analysis.eof_header.version)
            msg.gas
            (run_environment world)
  unfolding evaluate evaluate_analysis run_code
  evaluate-terminates fuel target_circuit world circuit analysed enough =
      let env = run_environment world in
      elim (dispatch-terminates libraries.keccak host_call rev analysis.eof_header.version fuel
        msg.gas env enough) [
          | inl (end, ended) ↦ inl (
            end,
            ended,
            chosen fuel world (circuit_of target_circuit) (analyze rev container) circuit analysed
                ∙ run_finishes end
                    (run_code libraries tx_context host_call fuel rev msg analysis env) ended,
          )
          | inr raises ↦ inr raises
        ]
