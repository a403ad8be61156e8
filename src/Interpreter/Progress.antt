-- ===== src/Interpreter/Progress.antt =====
-- Why a round of `dispatch` makes progress: what the tables say of every byte, and the measure.
use evm_assigner.Base.{
  ℕ, ◌+◌, ◌*◌, ◌≤◌, ◌<◌, ◌≡◌, refl, ap, arith, ℤ, pos, pos_part, neg_part, ◌+ℤ◌, ◌-ℤ◌, ◌≤ℤ◌,
  +ℤ_parts, -ℤ_parts, is_neg, ltb_ℤ, Bool, Bool-cases, ◌⊎◌, inl, inr, true, false, not, ◌&&◌, ◌||◌,
  ◌==◌, if◌then◌else◌, Option, none, some,
}
use evm_assigner.Revision.{
  Revision, frontier, homestead, tangerine_whistle, spurious_dragon, byzantium, constantinople,
  petersburg, istanbul, berlin, london, paris, shanghai, cancun, prague,
}
use evm_assigner.Opcode.{
  Opcode, decode, op_stop, op_return, op_revert, op_invalid, op_selfdestruct, op_printf, op_log,
}
use evm_assigner.Opcode.Codes.{holds_below, holds_below_lem}
use evm_assigner.Traits.{traits}
use evm_assigner.Gas.{gas_costs, has_const_gas_cost}
use evm_assigner.Gas.Table.{get_baseline_cost_table, legacy_cost_tables, eof_cost_tables}
use evm_assigner.Host.{Environment}
use evm_assigner.Baseline.{base_cost}
use evm_assigner.Instructions.Copy.{Outcome}
use evm_assigner.Interpreter.Instruction.{
  Instruction, stack_only, plain, charging, moving, ending, missing, invoke_instruction,
  invoke_charging,
}
use evm_assigner.Interpreter.Spending.Opcodes.{IsSpending, is_caller_at}

-- The opcodes that MAP_OPCODES does not name, and those that end the loop.
abbrev pub is_undefined : Opcode → Bool
is_undefined op_printf = true
is_undefined (op_log n) = not (n == 1)
is_undefined _ = false

abbrev pub terminates : Opcode → Bool
terminates op_stop = true
terminates op_return = true
terminates op_revert = true
terminates op_invalid = true
terminates op_selfdestruct = true
terminates _ = false

abbrev pub ends : Opcode → Bool
ends o = is_undefined o || terminates o

abbrev pub undefined_at : ℕ → Bool
undefined_at op = elim (decode op) [ none ↦ true | some o ↦ is_undefined o ]

abbrev pub ends_at : ℕ → Bool
ends_at op = elim (decode op) [ none ↦ true | some o ↦ ends o ]

-- A byte that the checks refuse or that is not defined, or whose cost is not negative, and that
-- ends the loop, costs gas, or takes items.
unfoldable pub progresses : (ℕ → ℤ) → ℕ → Bool
progresses cost_table op =
    (if has_const_gas_cost op then false else is_neg (cost_table op))
    || undefined_at op
    || (not (is_neg (base_cost cost_table op))
        && (ends_at op
            || ltb_ℤ (pos 0) (base_cost cost_table op)
            || is_neg (traits op).stack_height_change))

progresses_table :
    (rev : Revision)
    → (holds_below 256 (progresses (legacy_cost_tables rev)) ≡ true)
      × (holds_below 256 (progresses (eof_cost_tables rev)) ≡ true)
unfolding holds_below progresses legacy_cost_tables eof_cost_tables gas_costs traits
    has_const_gas_cost decode
progresses_table frontier = (refl, refl)
progresses_table homestead = (refl, refl)
progresses_table tangerine_whistle = (refl, refl)
progresses_table spurious_dragon = (refl, refl)
progresses_table byzantium = (refl, refl)
progresses_table constantinople = (refl, refl)
progresses_table petersburg = (refl, refl)
progresses_table istanbul = (refl, refl)
progresses_table berlin = (refl, refl)
progresses_table london = (refl, refl)
progresses_table paris = (refl, refl)
progresses_table shanghai = (refl, refl)
progresses_table cancun = (refl, refl)
progresses_table prague = (refl, refl)

pub progresses_below :
    (rev : Revision) (version op : ℕ)
    → op < 256
    → progresses (get_baseline_cost_table rev version) op ≡ true
unfolding get_baseline_cost_table
progresses_below rev version op fits = elim (Bool-cases (version == 0)) [
  | inl legacy ↦
      rw legacy
        (holds_below_lem 256 (progresses (legacy_cost_tables rev)) op fits (progresses_table rev).0)
  | inr eof ↦
      rw eof
        (holds_below_lem 256 (progresses (eof_cost_tables rev)) op fits (progresses_table rev).1)
]

-- What the gas and the stack come to, from the bounds on the cost and on the change.
pub measure_falls :
    (gas_left gas gas' cost change : ℤ) (required top : ℕ)
    → gas ≡ gas_left -ℤ cost
    → is_neg gas ≡ false
    → gas' ≤ℤ gas
    → required ≤ top
    → pos_part change ≤ 1
    → neg_part change ≤ required
    → ltb_ℤ (pos 0) cost || (not (is_neg cost) && is_neg change) ≡ true
    → 2 * pos_part gas' + pos_part (pos top +ℤ change) < 2 * pos_part gas_left + top
measure_falls gas_left gas gas' cost change required top e paid le enough up down progress =
    let p = -ℤ_parts gas_left cost in
    let q = +ℤ_parts (pos top) change in
    let r = ap pos_part e in let s = ap neg_part e in ground arith

pub none-ne-some : {A : Type 0} (o : Option A) (a : A) → o ≡ none → o ≡ some a → ⊥
none-ne-some o a h k = cc

pub invoke_instruction_falls :
    {W Raises : Type 0} (i : Instruction W) (pc top : ℕ) (g : ℤ) (env : Environment W)
    → IsSpending Raises i
    → is_neg g ≡ false
    → ((invoke_instruction i pc top g env).1.0 ≤ℤ g) ⊎ Raises
unfolding invoke_instruction invoke_charging
invoke_instruction_falls stack_only pc top g env h paid = inl (omega arith)
invoke_instruction_falls (plain f) pc top g env h paid = inl (omega arith)
invoke_instruction_falls (charging f) pc top g env h paid =
    charged pc g (f top g env) (h top g env paid)
  where
    charged :
        {W Raises : Type 0} (pc : ℕ) (g : ℤ) (o : Outcome (Environment W))
        → (o.1.0 ≤ℤ g) ⊎ Raises
        → ((invoke_charging pc o).1.0 ≤ℤ g) ⊎ Raises
    charged pc g o (inl le) = inl (ground arith)
    charged pc g o (inr raised) = inr raised
invoke_instruction_falls (moving f) pc top g env h paid = inl (omega arith)
invoke_instruction_falls (ending f) pc top g env h paid = h top g env paid
invoke_instruction_falls missing pc top g env h paid = inl (omega arith)

-- Every call and every creation takes more items than it leaves.
callers_table :
    holds_below 256 (λ op. not (is_caller_at op) || is_neg (traits op).stack_height_change) ≡ true
unfolding holds_below traits decode
callers_table = refl

pub caller_takes :
    (op : ℕ) → op < 256 → is_caller_at op ≡ true → is_neg (traits op).stack_height_change ≡ true
caller_takes op fits caller =
    let h =
      holds_below_lem 256 (λ o. not (is_caller_at o) || is_neg (traits o).stack_height_change) op
        fits callers_table in
    ground arith

-- The measure where the gas has not risen above what the round found, and items were taken.
pub measure_falls_by_items :
    (gas_left gas' change : ℤ) (required top : ℕ)
    → gas' ≤ℤ gas_left
    → required ≤ top
    → neg_part change ≤ required
    → is_neg change ≡ true
    → 2 * pos_part gas' + pos_part (pos top +ℤ change) < 2 * pos_part gas_left + top
measure_falls_by_items gas_left gas' change required top le enough down taken =
    let q = +ℤ_parts (pos top) change in ground arith
