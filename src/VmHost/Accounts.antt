-- ===== src/VmHost/Accounts.antt =====
-- The accounts of the host (lib/assigner/include/vm_host.hpp): storage and balances after they have
-- been written.
use evm_assigner.Base.{
  ℕ, ◌+◌, ◌-◌, ◌^◌, ◌≤◌, ◌<◌, ◌≡◌, ◌≢◌, ◌⊎◌, ◌↔◌, refl, sym, ap, ◌∙◌, arith, ◌==◌, ==_iff,
  if◌then◌else◌, if-true, if-false, Bool-cases, inl, inr, none, some, List, [], ◌∷◌,
}
use mathlib.Core.Path.{subst}
use evm_assigner.Intx.{Intx, IsIntx}
use evm_assigner.Gas.Storage.{StorageStatus, assigned, deleted}
use evm_assigner.VmHost.{
  find, assign, value_or, Account, new_account, VmHost, with_accounts, storage_of, get_storage,
  get_balance, account_at, transfer,
}

find-assign :
    {A : Type 0} (entries : List (ℕ × A)) (key : ℕ) (a : A)
    → find (assign entries key a) key ≡ some a
unfolding find assign
find-assign [] key a = ground arith
find-assign ((k, b) ∷ entries) key a = ground (arith, find-assign entries key a)

find-assign_other :
    {A : Type 0} (entries : List (ℕ × A)) (key other : ℕ) (a : A)
    → key ≢ other
    → find (assign entries key a) other ≡ find entries other
unfolding find assign
find-assign_other [] key other a ne = ground arith
find-assign_other ((k, b) ∷ entries) key other a ne =
    ground (arith, find-assign_other entries key other a ne)

-- What a store leaves: a slot that was there has the new value and the status tells whether that
-- is another one; where there was no slot, the host is as before and the status is DELETED.
pub data IsStored (host : VmHost) (addr key value : ℕ) : StorageStatus × VmHost → Type 0 where
  kept :
      find (storage_of (find host.accounts addr)) key ≡ none
      → IsStored host addr key value (deleted, host)
  stored :
      (prev : ℕ) (status : StorageStatus) (host' : VmHost)
      → find (storage_of (find host.accounts addr)) key ≡ some prev
      → (status ≡ assigned) ↔ (prev ≡ value)
      → get_storage host' addr key ≡ value
      → ((addr' key' : ℕ)
          → (addr ≢ addr') ⊎ (key ≢ key')
          → get_storage host' addr' key' ≡ get_storage host addr' key')
      → IsStored host addr key value (status, host')

module _ (host : VmHost) (addr key value : ℕ) (acc : Account)
    (found : find host.accounts addr ≡ some acc) where
  after : VmHost
  after =
      with_accounts host
        (assign host.accounts addr (record acc { storage = assign acc.storage key value }))

module _ ⦃intx : Intx⦄ where
  balance_after :
      (host : VmHost) (addr other : ℕ) (acc : Account)
      → get_balance (with_accounts host (assign host.accounts addr acc)) other
        ≡ (if addr == other then acc.balance else get_balance host other)
  unfolding get_balance
  balance_after host addr other acc = elim (Bool-cases (addr == other)) [
    | inl same ↦
        let e = (==_iff addr other).0 same in
        subst
          (λ o.
            get_balance (with_accounts host (assign host.accounts addr acc)) o
            ≡ (if addr == o then acc.balance else get_balance host o))
          e
          (ap (λ o. (value_or o new_account).balance) (find-assign host.accounts addr acc)
            ∙ sym (if-true _ _ _ ((==_iff addr addr).1 refl)))
    | inr differ ↦
        ap (λ o. (value_or o new_account).balance)
          (find-assign_other host.accounts addr other acc (λ e. ground arith))
        ∙ sym (if-false _ _ _ differ)
  ]

  sub_small : IsIntx intx → (a b : ℕ) → a < 2 ^ 256 → b ≤ a → intx.sub a b ≡ a - b
  sub_small laws a b fits enough = let h = laws.sub_lem a b (omega arith) in omega arith

  add_small : IsIntx intx → (a b : ℕ) → b + a < 2 ^ 256 → intx.add a b ≡ b + a
  add_small laws a b room = let h = laws.add_lem a b in omega arith

  -- The balances after both steps, from those before and between.
  settle :
      (sender addr other value from to before to_paid other_paid after : ℕ)
      → to_paid ≡ (if sender == addr then from - value else to)
      → other_paid ≡ (if sender == other then from - value else before)
      → after ≡ to_paid + value
      → (sender ≡ addr → from ≡ to)
      → (sender ≡ other → from ≡ before)
      → (addr ≡ other → to ≡ before)
      → value ≤ from
      → (if addr == other then after else other_paid) ≡ (
          if sender == addr
          then before
          else if other == sender
          then from - value
          else if other == addr
          then to + value
          else before)
  settle sender addr other value from to before to_paid other_paid after p q r a b c enough =
      ground arith

  abbrev paid : VmHost → ℕ → ℕ → VmHost
  paid host sender value =
      let from = account_at host sender in
      with_accounts host
        (assign host.accounts sender (record from { balance = intx.sub from.balance value }))

  paid-balances :
      IsIntx intx
      → (host : VmHost) (sender value other : ℕ) → get_balance host sender < 2 ^ 256
      → value ≤ get_balance host sender
      → get_balance (paid host sender value) other
        ≡ (if sender == other then get_balance host sender - value else get_balance host other)
  paid-balances laws host sender value other fits enough =
      balance_after host sender other _
      ∙ ap (λ b. if sender == other then b else get_balance host other)
          (unfold get_balance in sub_small laws (get_balance host sender) value fits enough)

  -- When the sender of a call has a balance below 2 ^ 256 that covers the value, and the balance of
  -- the called account with the value added is below 2 ^ 256, the value goes from the balance of
  -- the sender to that of the account and no other balance changes; between an account and itself
  -- nothing changes.
  pub transfer-balances :
      IsIntx intx
      → (host : VmHost) (sender addr value other : ℕ) → get_balance host sender < 2 ^ 256
      → value ≤ get_balance host sender
      → get_balance host addr + value < 2 ^ 256
      → get_balance (transfer host sender addr value) other ≡ (
          if sender == addr
          then get_balance host other
          else if other == sender
          then get_balance host sender - value
          else if other == addr
          then get_balance host addr + value
          else get_balance host other)
  unfolding transfer get_balance
  transfer-balances laws host sender addr value other fits enough room =
      let to_paid = paid-balances laws host sender value addr fits enough in
      let other_paid = paid-balances laws host sender value other fits enough in
      let after = add_small laws value (get_balance (paid host sender value) addr) (ground arith) in
      balance_after (paid host sender value) addr other _
      ∙ settle sender addr other value (get_balance host sender) (get_balance host addr)
          (get_balance host other) _ _ _ to_paid other_paid after (ap (get_balance host))
          (ap (get_balance host)) (ap (get_balance host)) enough
