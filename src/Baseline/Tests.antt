-- ===== src/Baseline/Tests.antt =====
-- The theorems on code analysis and requirements at concrete code.
use evm_assigner.Base.{
  ℕ, ◌≡◌, ◌↔◌, refl, pos, ◌-ℤ◌, true, false, List, [], ◌∷◌, some, get_or, get_elem?,
}
use evm_assigner.Revision.{london}
use evm_assigner.Gas.{gas_costs, has_const_gas_cost}
use evm_assigner.Traits.{traits}
use evm_assigner.State.{success}
use evm_assigner.Baseline.{analyze_jumpdests, check_requirements}
use evm_assigner.Baseline.Jumpdests.{InstructionAt, analyze_jumpdests_iff}

-- PUSH1 0x5b JUMPDEST.
abbrev sample_code : List ℕ
sample_code = 0x60 ∷ 0x5b ∷ 0x5b ∷ []

analyze_jumpdests_iff_example :
    (get_or (analyze_jumpdests sample_code) 2 false ≡ true)
    ↔ (InstructionAt sample_code 2 × (get_elem? sample_code 2 ≡ some 0x5b))
analyze_jumpdests_iff_example = analyze_jumpdests_iff sample_code 2

add_passes : check_requirements (gas_costs london) (pos 100) 5 0x01 ≡ (success, pos 97)
add_passes = unfold check_requirements has_const_gas_cost gas_costs traits ◌-ℤ◌ in refl
