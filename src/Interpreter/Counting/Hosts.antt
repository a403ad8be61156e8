-- ===== src/Interpreter/Counting/Hosts.antt =====
-- What the instructions log that ask the host.
use evm_assigner.Base.{ℕ, ℤ, Bool, if◌then◌else◌, false, true, refl, length}
use evm_assigner.Intx.{Intx}
use evm_assigner.Memory.{Memory}
use evm_assigner.Rw.{storage_operation}
use evm_assigner.State.{ExecutionState, StatusCode, push_back}
use evm_assigner.Host.{HostInterface, Environment}
use evm_assigner.Instructions.Environment.{push_known, replace_top}
use evm_assigner.Instructions.Accounts.{
  charge_account, ask_account, copy_account_code, extcodecopy_checked, extcodecopy,
}
use evm_assigner.Instructions.Storage.{
  gas, tstore, touch_storage, sload_charged, sload, sstore_accessed, sstore, destruct,
  charge_transfer, selfdestruct,
}
use evm_assigner.Instructions.Blocks.{return_impl}
use evm_assigner.Interpreter.Counting.{
  Follows, CountedEnvironment, CountedResult, counting, append-Counted,
}

-- What a charge for an access leaves, and the access itself.
record CountedAccess (start : ExecutionState) {W A : Type 0} (of : A → Environment W) (o : A)
    : Type 0 where
  pub counted : Follows start (of o).state

if-CountedAccess :
    {start : ExecutionState} {W A : Type 0} (of : A → Environment W) (b : Bool) (x y : A)
    → CountedAccess start of x
    → CountedAccess start of y
    → CountedAccess start of (if b then x else y)
if-CountedAccess of true x y h k = h
if-CountedAccess of false x y h k = k

pub storage_operation-Counted :
    {start : ExecutionState} (s : ExecutionState) (a key : ℕ) (is_write : Bool) (v w : ℕ)
    → Follows start s
    → Follows start
        (push_back s (storage_operation s.call_id a key (length s.rw_trace) is_write v w))
storage_operation-Counted s a key is_write v w h = append-Counted s _ h refl refl

module _ {start : ExecutionState} {W : Type 0} where
  pub push_known-Counted :
      (v top : ℕ) (env : Environment W)
      → Follows start env.state
      → CountedEnvironment start (push_known v top env)
  unfolding push_known
  push_known-Counted v top env h = search counting

  pub replace_top-Counted :
      (f : ℕ → ℕ) (top : ℕ) (env : Environment W)
      → Follows start env.state
      → CountedEnvironment start (replace_top f top env)
  unfolding replace_top
  replace_top-Counted f top env h = search counting

  pub gas-Counted :
      (top : ℕ) (g : ℤ) (env : Environment W)
      → Follows start env.state
      → CountedResult start (gas top g env)
  unfolding gas
  gas-Counted top g env h = search counting

module _ {start : ExecutionState} {W : Type 0} ⦃host : HostInterface W⦄ where
  pub charge_account-Counted :
      (addr : ℕ) (g : ℤ) (env : Environment W)
      → Follows start env.state
      → Follows start (charge_account addr g env).1.1.state
  unfolding charge_account
  charge_account-Counted addr g env h =
      let k : CountedAccess start (λ (c : Bool × (ℤ × Environment W)). c.1.1)
          (charge_account addr g env) =
        search if-CountedAccess in
      k.counted

  touch_storage-Counted :
      (key : ℕ) (env : Environment W)
      → Follows start env.state
      → Follows start (touch_storage key env).1.state
  unfolding touch_storage
  touch_storage-Counted key env h =
      let k : CountedAccess start (λ (c : Bool × Environment W). c.1) (touch_storage key env) =
        search if-CountedAccess in
      k.counted

  pub tstore-Counted :
      (top : ℕ) (g : ℤ) (env : Environment W)
      → Follows start env.state
      → CountedResult start (tstore top g env)
  unfolding tstore
  tstore-Counted top g env h = search counting

  sload_charged-Counted :
      (top : ℕ) (g : ℤ) (env : Environment W)
      → Follows start env.state
      → CountedResult start (sload_charged top g env)
  unfolding sload_charged
  sload_charged-Counted top g env h = search (counting, storage_operation-Counted)

  pub sload-Counted :
      (top : ℕ) (g : ℤ) (env : Environment W)
      → Follows start env.state
      → CountedResult start (sload top g env)
  unfolding sload
  sload-Counted top g env h =
      search (counting, touch_storage-Counted, sload_charged-Counted) depth 9

  sstore_accessed-Counted :
      (top : ℕ) (g : ℤ) (cold : ℕ) (env : Environment W)
      → Follows start env.state
      → CountedResult start (sstore_accessed top g cold env)
  unfolding sstore_accessed
  sstore_accessed-Counted top g cold env h = search (counting, storage_operation-Counted)

  pub sstore-Counted :
      (top : ℕ) (g : ℤ) (env : Environment W)
      → Follows start env.state
      → CountedResult start (sstore top g env)
  unfolding sstore
  sstore-Counted top g env h =
      search (counting, touch_storage-Counted, sstore_accessed-Counted) depth 9

  module _ ⦃intx : Intx⦄ where
    pub ask_account-Counted :
        (answer : W → ℕ → ℕ) (top : ℕ) (g : ℤ) (env : Environment W)
        → Follows start env.state
        → CountedResult start (ask_account answer top g env)
    unfolding ask_account
    ask_account-Counted answer top g env h = search (counting, charge_account-Counted) depth 9

    copy_account_code-Counted :
        (top : ℕ) (s : ExecutionState) (env : Environment W)
        → Follows start env.state
        → Follows start (copy_account_code top s env).state
    unfolding copy_account_code
    copy_account_code-Counted top s env h =
        let k : CountedEnvironment start (copy_account_code top s env) = search counting in
        k.counted

    extcodecopy_checked-Counted :
        (top : ℕ) (s : ExecutionState) (r : Bool × (ℤ × Memory)) (env : Environment W)
        → Follows start s
        → CountedResult start (extcodecopy_checked top s r env)
    unfolding extcodecopy_checked
    extcodecopy_checked-Counted top s r env h =
        search (counting, charge_account-Counted, copy_account_code-Counted) depth 9

    pub extcodecopy-Counted :
        (top : ℕ) (g : ℤ) (env : Environment W)
        → Follows start env.state
        → CountedResult start (extcodecopy top g env)
    unfolding extcodecopy
    extcodecopy-Counted top g env h = search (counting, extcodecopy_checked-Counted)

    destruct-Counted :
        (beneficiary : ℕ) (g : ℤ) (env : Environment W)
        → Follows start env.state
        → CountedResult start (destruct beneficiary g env)
    unfolding destruct
    destruct-Counted beneficiary g env h = search counting

    charge_transfer-Counted :
        (beneficiary : ℕ) (g : ℤ) (env : Environment W)
        → Follows start env.state
        → CountedResult start (charge_transfer beneficiary g env)
    unfolding charge_transfer
    charge_transfer-Counted beneficiary g env h = search (counting, destruct-Counted)

    pub selfdestruct-Counted :
        (top : ℕ) (g : ℤ) (env : Environment W)
        → Follows start env.state
        → CountedResult start (selfdestruct top g env)
    unfolding selfdestruct
    selfdestruct-Counted top g env h = search (counting, charge_transfer-Counted) depth 9

    pub return_impl-Counted :
        (status : StatusCode) (top : ℕ) (g : ℤ) (env : Environment W)
        → Follows start env.state
        → CountedResult start (return_impl status top g env)
    unfolding return_impl
    return_impl-Counted status top g env h = search counting
