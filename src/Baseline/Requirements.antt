-- ===== src/Baseline/Requirements.antt =====
-- `check_requirements` of lib/assigner/evmone/baseline.hpp: when it succeeds, and the stack after.
use evm_assigner.Base.{
  ℕ, suc, eq_of_parts, negsuc, ◌+◌, ◌-◌, ◌≤◌, ◌<◌, ◌≡◌, refl, arith, ℤ, pos, pos_part, neg_part,
  ◌-ℤ◌, ◌+ℤ◌, +ℤ_parts, is_neg, ltb_ℤ, Bool, true, false, ◌&&◌, ◌==◌, leb, if◌then◌else◌,
}
use evm_assigner.Opcode.Codes.{holds_below, holds_below_lem}
use evm_assigner.Gas.{has_const_gas_cost}
use evm_assigner.Traits.{traits}
use evm_assigner.State.{success, stack_limit}
use evm_assigner.Baseline.{check_requirements, base_cost}

-- An entry of the traits that never moves the stack by more than the checks allow for.
is_balanced : ℕ → Bool
is_balanced op =
    leb (pos_part (traits op).stack_height_change) 1
    && leb (neg_part (traits op).stack_height_change) (traits op).stack_height_required

is_balanced_table : holds_below 256 is_balanced ≡ true
unfolding holds_below is_balanced traits
is_balanced_table = refl

pub success_requires :
    (cost_table : ℕ → ℤ) (gas_left gas : ℤ) (stack_top op : ℕ)
    → check_requirements cost_table gas_left stack_top op ≡ (success, gas)
    → ((traits op).stack_height_required ≤ stack_top)
      × (ltb_ℤ (pos 0) (traits op).stack_height_change && stack_top == stack_limit ≡ false)
unfolding check_requirements
success_requires cost_table gas_left gas stack_top op h = ground arith

-- What a success says of the gas.
pub success_charges :
    (cost_table : ℕ → ℤ) (gas_left gas : ℤ) (stack_top op : ℕ)
    → check_requirements cost_table gas_left stack_top op ≡ (success, gas)
    → (gas ≡ gas_left -ℤ base_cost cost_table op)
      × (is_neg gas ≡ false)
      × ((if has_const_gas_cost op then false else is_neg (cost_table op)) ≡ false)
unfolding check_requirements
success_charges cost_table gas_left gas stack_top op h = ground arith

-- The change of the stack is by at most one item up, and down by no more than is required.
pub change_bounds :
    (op : ℕ)
    → op < 256
    → (pos_part (traits op).stack_height_change ≤ 1)
      × (neg_part (traits op).stack_height_change ≤ (traits op).stack_height_required)
unfolding is_balanced
change_bounds op fits =
    let h = holds_below_lem 256 is_balanced op fits is_balanced_table in
    (ground arith, ground arith)

balanced_height :
    (change : ℤ) (required stack_top : ℕ)
    → stack_top ≤ stack_limit
    → pos_part change ≤ 1
    → neg_part change ≤ required
    → required ≤ stack_top
    → ltb_ℤ (pos 0) change && stack_top == stack_limit ≡ false
    → (height : ℕ) × (pos stack_top +ℤ change ≡ pos height) × (height ≤ stack_limit)
balanced_height (pos n) required stack_top bound up down enough room =
    (stack_top + n, eq_of_parts _ _ (omega (arith, +ℤ_parts (pos stack_top) (pos n))), ground arith)
balanced_height (negsuc n) required stack_top bound up down enough room = (
  stack_top - suc n,
  eq_of_parts _ _ (omega (arith, +ℤ_parts (pos stack_top) (negsuc n))),
  omega arith,
)

-- After check_requirements has succeeded for a byte, on a stack of at most 1024 items, the height
-- that its traits give for afterwards is again between 0 and 1024.
pub check_requirements-height :
    (cost_table : ℕ → ℤ) (gas_left gas : ℤ) (stack_top op : ℕ)
    → op < 256
    → stack_top ≤ stack_limit
    → check_requirements cost_table gas_left stack_top op ≡ (success, gas)
    → (height : ℕ) × (pos stack_top +ℤ (traits op).stack_height_change ≡ pos height)
      × (height ≤ stack_limit)
unfolding is_balanced
check_requirements-height cost_table gas_left gas stack_top op fits bound h =
    let (enough, room) = success_requires cost_table gas_left gas stack_top op h in
    let balanced : is_balanced op ≡ true =
      holds_below_lem 256 is_balanced op fits is_balanced_table in
    balanced_height (traits op).stack_height_change (traits op).stack_height_required stack_top
      bound (ground arith) (ground arith) enough room
