-- ===== src/Interpreter/Spending/Callers.antt =====
-- The gas that calls and creations leave.
use evm_assigner.Base.{
  ℕ, ℤ, pos, ◌+◌, ◌≤ℤ◌, ◌+ℤ◌, ◌-ℤ◌, +ℤ_parts, -ℤ_parts, ltb_ℤ, ◌==◌, ◌≡◌, ◌⊎◌, inl, inr, Bool,
  Bool-cases, true, false, not, if◌then◌else◌, arith,
}
use evm_assigner.State.{StatusCode}
use evm_assigner.Instructions.Copy.{Outcome}
use evm_assigner.Intx.{Intx}
use evm_assigner.Memory.{Memory, check_memory_range}
use evm_assigner.Host.{HostInterface, Environment, Message, Result}
use evm_assigner.Instructions.Calls.{
  CallOpcode, CallArguments, finish_call, call_message, send_call, charge_call, check_call,
  call_impl,
}
use evm_assigner.Instructions.Creation.{
  CreateArguments, create_message, finish_creation, create_checked, create_impl,
}
use evm_assigner.Interpreter.Spending.{check_memory_range_falls, sub_falls, ≤ℤ_refl, ≤ℤ_trans}
use evm_assigner.Interpreter.Spending.Hosts.{charge_account_falls}

-- A message that the host answers with more gas than it has.
abbrev pub HostRaises : {W : Type 0} → (W → Message → Result × W) → Type 0
HostRaises {W} host_call =
    (world : W) × ((msg : Message) × (ltb_ℤ msg.gas (host_call world msg).0.gas_left ≡ true))

-- An outcome leaves no more than `gas`, or the host raises it.
pub record FallsOr {S : Type 0} (Raises : Type 0) (gas : ℤ) (o : Outcome S) : Type 0 where
  pub falls_or : (o.1.0 ≤ℤ gas) ⊎ Raises

module _ {S Raises : Type 0} (gas : ℤ) where
  if-FallsOr :
      (b : Bool) (x y : Outcome S)
      → FallsOr Raises gas x
      → FallsOr Raises gas y
      → FallsOr Raises gas (if b then x else y)
  if-FallsOr true x y h k = h
  if-FallsOr false x y h k = k

  le-FallsOr : (o : Outcome S) → o.1.0 ≤ℤ gas → FallsOr Raises gas o
  le-FallsOr o h = record { falls_or = inl h }

  keep-FallsOr :
      (g : ℤ) (status : StatusCode) (s : S) → g ≤ℤ gas → FallsOr Raises gas (status, (g, s))
  keep-FallsOr g status s h = record { falls_or = inl h }

  pay-FallsOr :
      (g : ℤ) (cost : ℕ) (status : StatusCode) (s : S)
      → g ≤ℤ gas
      → FallsOr Raises gas (status, (g -ℤ pos cost, s))
  pay-FallsOr g cost status s h = record {
    falls_or = inl (≤ℤ_trans (g -ℤ pos cost) g gas (sub_falls g cost) h);
  }

ruleset falling_or = (if-FallsOr, keep-FallsOr, pay-FallsOr)

used_falls :
    (g left msg_gas back : ℤ) → left ≤ℤ g → back ≤ℤ msg_gas → left -ℤ (msg_gas -ℤ back) ≤ℤ g
used_falls g left msg_gas back h k =
    omega (arith, -ℤ_parts left (msg_gas -ℤ back), -ℤ_parts msg_gas back)

abbrev stipend_of : ℕ → ℕ
stipend_of value = if not (value == 0) then 2300 else 0

stipend_falls :
    (g gas_left : ℤ) (value : ℕ) (b : Bool)
    → gas_left ≤ℤ g
    → gas_left
        -ℤ pos ((if not (value == 0) then 9000 else 0) + (if b then 25000 else 0))
        +ℤ pos (stipend_of value)
      ≤ℤ g
stipend_falls g gas_left value b h =
    let cost = (if not (value == 0) then 9000 else 0) + (if b then 25000 else 0) in
    let p = -ℤ_parts gas_left (pos cost) in
    let q = +ℤ_parts (gas_left -ℤ pos cost) (pos (stipend_of value)) in ground arith

plain_falls : (g gas_left : ℤ) (cost : ℕ) → gas_left ≤ℤ g → gas_left -ℤ pos cost ≤ℤ g
plain_falls g gas_left cost h =
    ≤ℤ_trans (gas_left -ℤ pos cost) gas_left g (sub_falls gas_left cost) h

module _ {W : Type 0} ⦃host : HostInterface W⦄ ⦃intx : Intx⦄ (g : ℤ)
    (host_call : W → Message → Result × W) where
  answered :
      (msg : Message) (world : W) (left : ℤ)
      → left ≤ℤ g
      → (left -ℤ (msg.gas -ℤ (host_call world msg).0.gas_left) ≤ℤ g) ⊎ HostRaises host_call
  answered msg world left h = elim (Bool-cases (ltb_ℤ msg.gas (host_call world msg).0.gas_left)) [
    | inl more ↦ inr (world, (msg, more))
    | inr enough ↦ inl (used_falls g left msg.gas (host_call world msg).0.gas_left h (ground arith))
  ]

  finish_call-FallsOr :
      (a : CallArguments) (msg : Message) (world : W) (left : ℤ) (env : Environment W)
      → left ≤ℤ g
      → FallsOr (HostRaises host_call) g (finish_call a msg.gas left (host_call world msg) env)
  unfolding finish_call
  finish_call-FallsOr a msg world left env h = record { falls_or = answered msg world left h }

  finish_creation-FallsOr :
      (a : CreateArguments) (msg : Message) (world : W) (left : ℤ) (env : Environment W)
      → left ≤ℤ g
      → FallsOr (HostRaises host_call) g (finish_creation a msg.gas left (host_call world msg) env)
  unfolding finish_creation
  finish_creation-FallsOr a msg world left env h = record { falls_or = answered msg world left h }

  send_call-FallsOr :
      (op : CallOpcode) (a : CallArguments) (granted left : ℤ) (env : Environment W)
      → left +ℤ pos (stipend_of a.value) ≤ℤ g
      → FallsOr (HostRaises host_call) g (send_call host_call op a granted left env)
  unfolding send_call call_message
  send_call-FallsOr op a granted left env h = search (falling_or, finish_call-FallsOr, h)

  charge_call-FallsOr :
      (op : CallOpcode) (a : CallArguments) (left : ℤ) (env : Environment W)
      → left ≤ℤ g
      → FallsOr (HostRaises host_call) g (charge_call host_call op a left env)
  unfolding charge_call
  charge_call-FallsOr op a left env h =
      search (falling_or, send_call-FallsOr, stipend_falls, plain_falls, h) depth 9

  check_call-FallsOr :
      (op : CallOpcode) (a : CallArguments) (left : ℤ) (env : Environment W)
      → left ≤ℤ g
      → FallsOr (HostRaises host_call) g (check_call host_call op a left env)
  unfolding check_call
  check_call-FallsOr op a left env h =
      let r = check_memory_range left env.state.memory a.input_offset a.input_size in
      let k : r.1.0 ≤ℤ g = ≤ℤ_trans r.1.0 left g (check_memory_range_falls left _ _ _) h in
      let q = check_memory_range r.1.0 r.1.1 a.output_offset a.output_size in
      let l : q.1.0 ≤ℤ g = ≤ℤ_trans q.1.0 r.1.0 g (check_memory_range_falls r.1.0 _ _ _) k in
      search (falling_or, charge_call-FallsOr, k, l) depth 9

  pub call_impl-FallsOr :
      (op : CallOpcode) (top : ℕ) (env : Environment W)
      → FallsOr (HostRaises host_call) g (call_impl host_call op top g env)
  unfolding call_impl
  call_impl-FallsOr op top env =
      search (falling_or, le-FallsOr, check_call-FallsOr, charge_account_falls) depth 9

  create_checked-FallsOr :
      (has_salt : Bool) (a : CreateArguments) (r : Bool × (ℤ × Memory)) (env : Environment W)
      → r.1.0 ≤ℤ g
      → FallsOr (HostRaises host_call) g (create_checked host_call has_salt a r env)
  unfolding create_checked create_message
  create_checked-FallsOr has_salt a r env h =
      search (falling_or, finish_creation-FallsOr, plain_falls, h) depth 9

  pub create_impl-FallsOr :
      (has_salt : Bool) (top : ℕ) (env : Environment W)
      → FallsOr (HostRaises host_call) g (create_impl host_call has_salt top g env)
  unfolding create_impl
  create_impl-FallsOr has_salt top env =
      search (falling_or, create_checked-FallsOr, check_memory_range_falls, ≤ℤ_refl) depth 9
