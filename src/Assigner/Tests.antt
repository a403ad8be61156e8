-- ===== src/Assigner/Tests.antt =====
-- The theorems on evaluate, at a short code.
use evm_assigner.Base.{◌≡◌, refl, false, ℕ, pos, ◌⊎◌, ℤ, arith, [], ◌∷◌, some, List}
use evm_assigner.Samples.{sample_intx, sample_field, sample_context, sample_message}
use evm_assigner.Revision.{shanghai}
use evm_assigner.State.{success}
use evm_assigner.Host.{Environment, Message, Result, result}
use evm_assigner.VmHost.{VmHost, vm_host, host_call}
use evm_assigner.Eof.{is_eof_container}
use evm_assigner.Baseline.{analyze, analyze_legacy}
use evm_assigner.Gas.Table.{get_baseline_cost_table}
use evm_assigner.Interpreter.Terminates.{RaisesAt}
use evm_assigner.Assigner.{HasAssigner, Libraries, run_code, result_of, evaluate}
use evm_assigner.Assigner.Returns.{run_environment, evaluate-terminates}

-- PUSH1 5, POP.
abbrev sample_code : List ℕ
sample_code = 0x60 ∷ 5 ∷ 0x50 ∷ []

abbrev no_accounts : VmHost
no_accounts = record { accounts = []; tx_context = sample_context }

-- An assigner with an empty bytecode table.
abbrev sample_shared : HasAssigner ℕ VmHost
sample_shared = record {
  assigner = λ world. record { assignments = (1, λ column row. 0) ∷ [] };
  set_assigner = λ world assigner. world;
}

abbrev sample_libraries : Libraries ℕ
sample_libraries = record {
  witness_column_size = λ table column. 0;
  keccak_text = λ bytes. [];
  initial = 0;
  keccak = λ bytes. 0;
}

-- The host, with runs that give back the gas of their message.
abbrev sample_host : VmHost → Message → Result × VmHost
sample_host =
    host_call ⦃intx = sample_intx⦄ (λ bytes. 7) (λ v. [])
      (λ world rev msg code. (result success msg.gas [] 0, world))

abbrev sample_start : Environment VmHost
sample_start =
    run_environment ⦃field = sample_field⦄ ⦃intx = sample_intx⦄ sample_libraries ⦃host = vm_host⦄
      ⦃shared = sample_shared⦄ sample_context sample_host shanghai sample_message sample_code
      (analyze_legacy sample_code) no_accounts

sample_code_legacy : is_eof_container sample_code ≡ false
unfolding is_eof_container
sample_code_legacy = refl

sample_analysis : analyze shanghai sample_code ≡ some (analyze_legacy sample_code)
unfolding analyze
sample_analysis = ground (arith, sample_code_legacy)

evaluate-terminates_example :
    ((end : ℤ × Environment VmHost) × (run_code ⦃field = sample_field⦄ ⦃intx = sample_intx⦄
          sample_libraries ⦃host = vm_host⦄ ⦃shared = sample_shared⦄ sample_context sample_host 201
          shanghai sample_message
          (analyze_legacy sample_code)
          sample_start
        ≡ some end)
      × (evaluate ⦃field = sample_field⦄ ⦃intx = sample_intx⦄ sample_libraries ⦃host = vm_host⦄
            ⦃shared = sample_shared⦄ sample_context sample_host 201 shanghai sample_message
            sample_code "bytecode" no_accounts
          ≡ some (result_of end.0 end.1, end.1.world)))
    ⊎ RaisesAt ⦃host = vm_host⦄ ⦃intx = sample_intx⦄
        (λ bytes. 0)
        sample_host
        (get_baseline_cost_table shanghai (analyze_legacy sample_code).eof_header.version)
        (pos 100)
        sample_start
evaluate-terminates_example =
    evaluate-terminates ⦃field = sample_field⦄ ⦃intx = sample_intx⦄ sample_libraries
      ⦃host = vm_host⦄ ⦃shared = sample_shared⦄ sample_context sample_host shanghai sample_message
      sample_code (analyze_legacy sample_code) 201 "bytecode" no_accounts refl sample_analysis
      (omega arith)
