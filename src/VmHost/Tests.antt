-- ===== src/VmHost/Tests.antt =====
-- The theorems on the host, at a host of two accounts.
use evm_assigner.Base.{◌+◌, ◌≡◌, refl, arith, [], ◌∷◌}
use evm_assigner.Samples.{sample_intx, sample_intx-IsIntx, sample_context}
use evm_assigner.VmHost.{find, VmHost, get_balance, transfer}
use evm_assigner.VmHost.Accounts.{transfer-balances}

-- The first account has a slot and 100 to pay with.
abbrev two_accounts : VmHost
two_accounts = record {
  accounts =
      (0xa1, record { balance = 100; code = []; storage = (7, 5) ∷ []; transient_storage = [] })
      ∷ (0xb2, record { balance = 20; code = []; storage = []; transient_storage = [] })
      ∷ [];
  tx_context = sample_context;
}

sender_balance : get_balance two_accounts 0xa1 ≡ 100
unfolding get_balance find
sender_balance = refl

receiver_balance : get_balance two_accounts 0xb2 ≡ 20
unfolding get_balance find
receiver_balance = refl

transfer-balances_example :
    get_balance (transfer ⦃intx = sample_intx⦄ two_accounts 0xa1 0xb2 30) 0xb2
    ≡ get_balance two_accounts 0xb2 + 30
transfer-balances_example =
    transfer-balances ⦃intx = sample_intx⦄ sample_intx-IsIntx two_accounts 0xa1 0xb2 30 0xb2
      (ground (arith, sender_balance)) (ground (arith, sender_balance))
      (ground (arith, receiver_balance))
