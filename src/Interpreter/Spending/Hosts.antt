-- ===== src/Interpreter/Spending/Hosts.antt =====
-- The gas that the instructions leave that ask the host.
use evm_assigner.Base.{ℕ, ℤ, pos, ◌≤ℤ◌, ◌-ℤ◌, ◌≡◌, Bool, false, arith, is_neg}
use evm_assigner.Intx.{Intx}
use evm_assigner.State.{ExecutionState, item}
use evm_assigner.Host.{HostInterface, Environment}
use evm_assigner.Memory.{Memory, copy_cost}
use evm_assigner.Word.{to_address, to_uint64}
use evm_assigner.Instructions.{exp}
use evm_assigner.Instructions.Accounts.{
  charge_account, ask_account, extcodecopy_checked, extcodecopy,
}
use evm_assigner.Instructions.Storage.{
  gas, tstore, sload_charged, sload, sstore_accessed, sstore, destruct, charge_transfer,
  selfdestruct,
}
use evm_assigner.Interpreter.Spending.{
  Falls, falling, check_memory_range_falls, sub_falls, ≤ℤ_refl, ≤ℤ_trans,
}

pub exp-Falls : ⦃intx : Intx⦄ (top : ℕ) (g : ℤ) (state : ExecutionState) → Falls g (exp top g state)
unfolding exp
exp-Falls top g state = search (falling, ≤ℤ_refl)

module _ {W : Type 0} ⦃host : HostInterface W⦄ where
  pub charge_account_falls :
      (addr : ℕ) (g : ℤ) (env : Environment W) → (charge_account addr g env).1.0 ≤ℤ g
  unfolding charge_account
  charge_account_falls addr g env = ground (arith, sub_falls g 2500)

  module _ ⦃intx : Intx⦄ (top : ℕ) (g : ℤ) (env : Environment W) where
    pub ask_account-Falls : (answer : W → ℕ → ℕ) → Falls g (ask_account answer top g env)
    unfolding ask_account
    ask_account-Falls answer = search (falling, charge_account_falls)

    extcodecopy_checked-Falls :
        (s : ExecutionState) (r : Bool × (ℤ × Memory))
        → r.1.0 ≤ℤ g
        → Falls g (extcodecopy_checked top s r env)
    unfolding extcodecopy_checked
    extcodecopy_checked-Falls s r h =
        let addr = to_address (item s top 0) in
        let grown = record env { state = record s { memory = r.1.1 } } in
        let paid = r.1.0 -ℤ pos (copy_cost (to_uint64 (item s top 3) 0)) in
        let k : paid ≤ℤ g = ≤ℤ_trans paid r.1.0 g (sub_falls r.1.0 _) h in
        let q : (charge_account addr paid grown).1.0 ≤ℤ g =
          ≤ℤ_trans (charge_account addr paid grown).1.0 paid g
            (charge_account_falls addr paid grown) k in
        search (falling, q, h)

    pub extcodecopy-Falls : Falls g (extcodecopy top g env)
    unfolding extcodecopy
    extcodecopy-Falls = extcodecopy_checked-Falls _ _ (check_memory_range_falls g _ _ _)

  pub gas-Falls : (top : ℕ) (g : ℤ) (env : Environment W) → Falls g (gas top g env)
  unfolding gas
  gas-Falls top g env = search (falling, ≤ℤ_refl)

  pub tstore-Falls :
      (top : ℕ) (g : ℤ) (env : Environment W) → is_neg g ≡ false → Falls g (tstore top g env)
  unfolding tstore
  tstore-Falls top g env paid = search (falling, ≤ℤ_refl, zero_le g paid)
    where
      zero_le : (g : ℤ) → is_neg g ≡ false → pos 0 ≤ℤ g
      zero_le g paid = ground arith

  sload_charged-Falls :
      (top : ℕ) (g g' : ℤ) (env : Environment W) → g' ≤ℤ g → Falls g (sload_charged top g' env)
  unfolding sload_charged
  sload_charged-Falls top g g' env h = search (falling, h)

  pub sload-Falls : (top : ℕ) (g : ℤ) (env : Environment W) → Falls g (sload top g env)
  unfolding sload
  sload-Falls top g env = search (falling, sload_charged-Falls, sub_falls, ≤ℤ_refl)

  sstore_accessed-Falls :
      (top : ℕ) (g : ℤ) (cold : ℕ) (env : Environment W) → Falls g (sstore_accessed top g cold env)
  unfolding sstore_accessed
  sstore_accessed-Falls top g cold env = search (falling, ≤ℤ_refl)

  pub sstore-Falls : (top : ℕ) (g : ℤ) (env : Environment W) → Falls g (sstore top g env)
  unfolding sstore
  sstore-Falls top g env = search (falling, sstore_accessed-Falls, ≤ℤ_refl)

  module _ ⦃intx : Intx⦄ where
    destruct-Falls :
        (beneficiary : ℕ) (g g' : ℤ) (env : Environment W)
        → g' ≤ℤ g
        → Falls g (destruct beneficiary g' env)
    unfolding destruct
    destruct-Falls beneficiary g g' env h = search (falling, h)

    charge_transfer-Falls :
        (beneficiary : ℕ) (g g' : ℤ) (env : Environment W)
        → g' ≤ℤ g
        → Falls g (charge_transfer beneficiary g' env)
    unfolding charge_transfer
    charge_transfer-Falls beneficiary g g' env h =
        search (falling, destruct-Falls, ≤ℤ_trans (g' -ℤ pos 25000) g' g (sub_falls g' 25000) h, h)

    pub selfdestruct-Falls :
        (top : ℕ) (g : ℤ) (env : Environment W) → Falls g (selfdestruct top g env)
    unfolding selfdestruct
    selfdestruct-Falls top g env =
        search (falling, charge_transfer-Falls, sub_falls, ≤ℤ_refl) depth 9
