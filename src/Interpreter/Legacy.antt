-- ===== src/Interpreter/Legacy.antt =====
-- A round of `dispatch` over legacy code, from a position in the code to the next one.
use evm_assigner.Base.{
  ℕ, zero, suc, ◌+◌, ◌-◌, ◌≤◌, ◌<◌, ◌≡◌, refl, sym, ap, arith, ℤ, pos_part, is_neg, Bool,
  Bool-cases, ◌⊎◌, inl, inr, true, false, ◌||◌, if◌then◌else◌, Option, none, some, List, [], ◌∷◌,
  ◌++◌, length, length-append, replicate, get_or,
}
use mathlib.Core.Path.{subst}
use evm_assigner.Intx.{Intx}
use evm_assigner.Revision.{
  Revision, frontier, homestead, tangerine_whistle, spurious_dragon, byzantium, constantinople,
  petersburg, istanbul, berlin, london, paris, shanghai, cancun, prague,
}
use evm_assigner.Opcode.{Opcode, decode}
use evm_assigner.Opcode.Codes.{decode-none, holds_below, holds_below_lem}
use evm_assigner.Gas.{gas_costs, has_const_gas_cost}
use evm_assigner.Gas.Table.{get_baseline_cost_table, legacy_cost_tables}
use evm_assigner.State.{StatusCode, success, stack_limit}
use evm_assigner.Host.{HostInterface, Environment, Message, Result}
use evm_assigner.Baseline.{check_requirements, pad_code, padding, is_push, jumpdests_from}
use evm_assigner.Baseline.Requirements.{success_charges, check_requirements-height}
use evm_assigner.Instructions.Copy.{Outcome}
use evm_assigner.Interpreter.Instruction.{
  Instruction, stack_only, plain, charging, moving, ending, missing, invoke_instruction,
  invoke_charging, Invoked,
}
use evm_assigner.Interpreter.Opcodes.{instruction_of, instruction_at}
use evm_assigner.Interpreter.Loop.{invoke_checked}
use evm_assigner.Interpreter.Nearby.{is_near, some_near, IsNear, is_legacy, instruction_of-IsNear}
use evm_assigner.Interpreter.Undefined.{undefined_at_ends}
use evm_assigner.Interpreter.Progress.{undefined_at, none-ne-some}

-- Legacy code has only the opcodes of legacy code that the checks let through.
is_legacy_at : (ℕ → ℤ) → ℕ → Bool
is_legacy_at cost_table op =
    (if has_const_gas_cost op then false else is_neg (cost_table op))
    || elim (decode op) [ none ↦ true | some o ↦ is_legacy o ]

is_legacy_table : (rev : Revision) → holds_below 256 (is_legacy_at (legacy_cost_tables rev)) ≡ true
unfolding holds_below is_legacy_at legacy_cost_tables gas_costs has_const_gas_cost decode
is_legacy_table frontier = refl
is_legacy_table homestead = refl
is_legacy_table tangerine_whistle = refl
is_legacy_table spurious_dragon = refl
is_legacy_table byzantium = refl
is_legacy_table constantinople = refl
is_legacy_table petersburg = refl
is_legacy_table istanbul = refl
is_legacy_table berlin = refl
is_legacy_table london = refl
is_legacy_table paris = refl
is_legacy_table shanghai = refl
is_legacy_table cancun = refl
is_legacy_table prague = refl

pub length-jumpdests : (skip : ℕ) (code : List ℕ) → length (jumpdests_from skip code) ≡ length code
unfolding jumpdests_from
length-jumpdests skip [] = refl
length-jumpdests (suc skip) (op ∷ code) = omega (arith, length-jumpdests skip code)
length-jumpdests zero (op ∷ code) = elim (Bool-cases (is_push op)) [
  | inl pushes ↦ rw pushes (omega (arith, length-jumpdests (op - 0x5f) code))
  | inr other ↦ rw other (omega (arith, length-jumpdests 0 code))
]

get_zeros : (n pc : ℕ) → get_or {A = ℕ} (replicate n 0) pc 0 ≡ 0
get_zeros zero pc = refl
get_zeros (suc n) zero = refl
get_zeros (suc n) (suc pc) = get_zeros n pc

get_append_zeros :
    (code : List ℕ) (n pc : ℕ) → length code ≤ pc → get_or (code ++ replicate n 0) pc 0 ≡ 0
get_append_zeros [] n pc h = get_zeros n pc
get_append_zeros (op ∷ code) n zero h = absurd (omega arith)
get_append_zeros (op ∷ code) n (suc pc) h = get_append_zeros code n pc (omega arith)

pub get_behind : (code : List ℕ) (pc : ℕ) → length code ≤ pc → get_or (pad_code code) pc 0 ≡ 0
unfolding pad_code
get_behind code pc h = get_append_zeros code padding pc h

pub length-pad_code : (code : List ℕ) → length (pad_code code) ≡ length code + 33
unfolding pad_code
length-pad_code code = omega (arith, length-append code (replicate padding 0x00), zeros)
  where
    zeros : length {A = ℕ} (replicate padding 0x00) ≡ padding
    zeros = refl

charging_near :
    {W : Type 0} (pc pc' size : ℕ) (o : Outcome (Environment W))
    → (invoke_charging pc o).0 ≡ some pc'
    → is_near pc pc' size ≡ true
unfolding invoke_charging
charging_near pc pc' size (success, r) e = some_near pc (pc + 1) pc' size e (ground arith)
charging_near pc pc' size (_, r) e = absurd cc

instruction_near :
    {W : Type 0} (i : Instruction W) (pc pc' top : ℕ) (g : ℤ) (env : Environment W)
    → IsNear i
    → (invoke_instruction i pc top g env).0 ≡ some pc'
    → is_near pc pc' (length env.state.jumpdest_map) ≡ true
unfolding invoke_instruction
instruction_near stack_only pc pc' top g env near e =
    some_near pc (pc + 1) pc' (length env.state.jumpdest_map) e (ground arith)
instruction_near (plain f) pc pc' top g env near e =
    some_near pc (pc + 1) pc' (length env.state.jumpdest_map) e (ground arith)
instruction_near (charging f) pc pc' top g env near e =
    charging_near pc pc' (length env.state.jumpdest_map) (f top g env) e
instruction_near (moving f) pc pc' top g env near e = near top env pc pc' e
instruction_near (ending f) pc pc' top g env near e = absurd cc
instruction_near missing pc pc' top g env near e = absurd cc

module _ {W : Type 0} ⦃host : HostInterface W⦄ ⦃intx : Intx⦄ (keccak : List ℕ → ℕ)
    (host_call : W → Message → Result × W) where
  stop_ends :
      (pc top : ℕ) (g : ℤ) (env : Environment W)
      → (invoke_instruction (instruction_at keccak host_call 0) pc top g env).0 ≡ none
  unfolding instruction_at instruction_of invoke_instruction decode
  stop_ends pc top g env = refl

  instruction_at-IsNear :
      (rev : Revision) (op : ℕ)
      → op < 256
      → (if has_const_gas_cost op then false else is_neg (legacy_cost_tables rev op)) ≡ false
      → IsNear (instruction_at keccak host_call op)
  unfolding instruction_at is_legacy_at
  instruction_at-IsNear rev op fits defined =
      let k =
        holds_below_lem 256 (is_legacy_at (legacy_cost_tables rev)) op fits (is_legacy_table rev) in
      near (decode op) (ground arith)
    where
      near :
          (d : Option Opcode)
          → (elim d [ none ↦ true | some o ↦ is_legacy o ]) ≡ true
          → IsNear (elim d as (λ d. Instruction W) [
            | none ↦ missing
            | some o ↦ instruction_of keccak host_call o
          ])
      near none h = tt
      near (some o) h = instruction_of-IsNear keccak host_call o h

module _ {W : Type 0} ⦃host : HostInterface W⦄ ⦃intx : Intx⦄ (keccak : List ℕ → ℕ)
    (host_call : W → Message → Result × W) (rev : Revision) (code : List ℕ) where
  abbrev table : ℕ → ℤ
  table = get_baseline_cost_table rev 0

  -- The position that follows a position in the code, or one at a STOP.
  pub checked_step :
      (r : StatusCode × ℤ) (pc top pc' top' op : ℕ) (gas : ℤ) (env : Environment W)
      (last : ℤ × Environment W)
      → check_requirements table gas top op ≡ r
      → (pc < length code) ⊎ (op ≡ 0)
      → top ≤ stack_limit
      → length env.state.jumpdest_map ≡ length code
      → invoke_checked keccak host_call table r pc top env op
        ≡ (record { code_it = some pc'; stack_top = top' }, last)
      → (pc' < length code + 33) × (top' ≤ stack_limit)
  unfolding invoke_checked get_baseline_cost_table
  checked_step (success, g) pc top pc' top' op gas env last checked place bound size e =
      elim (Bool-cases (undefined_at op)) [
        | inl unknown ↦ absurd (
            none-ne-some _ pc'
              (ap (λ (q : Invoked W). q.0)
                (undefined_at_ends keccak host_call op pc top g env unknown))
              goes_on)
        | inr known ↦
            let fits : op < 256 = ground (arith, decode-none op) in
            let (c, paid, defined) = success_charges table gas g top op checked in
            let (height, h, room) =
              check_requirements-height table gas g top op fits bound checked in
            let near =
              instruction_near (instruction_at keccak host_call op) pc pc' top g env
                (instruction_at-IsNear keccak host_call rev op fits defined) goes_on in
            (
              elim place [ inl inside ↦ ground arith | inr stopped ↦ absurd (stops stopped) ],
              ground (arith, ap pos_part h, ap (λ q. q.0.stack_top) e),
            )
      ]
    where
      goes_on : (invoke_instruction (instruction_at keccak host_call op) pc top g env).0 ≡ some pc'
      goes_on = ap (λ q. q.0.code_it) e

      stops : op ≡ 0 → ⊥
      stops stopped =
          none-ne-some _ pc'
            (subst
              (λ (o : ℕ).
                (invoke_instruction (instruction_at keccak host_call o) pc top g env).0 ≡ none)
              (sym stopped) (stop_ends keccak host_call pc top g env))
            goes_on
  checked_step (_, g) pc top pc' top' op gas env last checked place bound size e =
      absurd (none-ne-some none pc' refl (ap (λ q. q.0.code_it) e))
