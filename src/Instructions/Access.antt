-- ===== src/Instructions/Access.antt =====
-- The stack as a list, the top item first.
use evm_assigner.Base.{ℕ, zero, suc, ◌≤◌, ◌≡◌, refl, ap₂, arith, List, [], ◌∷◌}
use evm_assigner.State.{ExecutionState}

abbrev pub stack_list : ExecutionState → ℕ → List ℕ
stack_list state zero = []
stack_list state (suc n) = state.stack_space (suc n) ∷ stack_list state n

pub stack_list-congr :
    (s t : ExecutionState) (n : ℕ)
    → ((i : ℕ) → i ≤ n → s.stack_space i ≡ t.stack_space i)
    → stack_list s n ≡ stack_list t n
stack_list-congr s t zero h = refl
stack_list-congr s t (suc n) h =
    ap₂ ◌∷◌ (h (suc n) (omega arith)) (stack_list-congr s t n (λ i le. h i (omega arith)))
