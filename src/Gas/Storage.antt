-- ===== src/Gas/Storage.antt =====
-- The costs of SSTORE: `storage_cost_spec` and `sstore_costs` of lib/assigner/evmone/instructions.hpp,
-- by revision and by the storage status of lib/assigner/evmc/evmc.h.
use evm_assigner.Base.{◌≡◌, refl, ℕ, ◌-◌, ◌*◌, ℤ, pos, ◌+ℤ◌, ◌-ℤ◌, Bool, true, false, if◌then◌else◌}
use evm_assigner.Revision.{
  Revision, frontier, homestead, tangerine_whistle, spurious_dragon, byzantium, constantinople,
  petersburg, istanbul, berlin, london, paris, shanghai, cancun, prague,
}
use evm_assigner.Gas.{warm_storage_read_cost, cold_sload_cost}

pub data StorageStatus : Type 0 where
  assigned added deleted modified deleted_added modified_deleted : StorageStatus
  deleted_restored added_deleted modified_restored : StorageStatus

pub record StorageCostSpec : Type 0 where
  pub net_cost : Bool
  pub warm_access : ℕ
  pub set : ℕ
  pub reset : ℕ
  pub clear : ℕ

pub record StorageStoreCost : Type 0 where
  pub gas_cost : ℕ
  pub gas_refund : ℤ

abbrev spec : Bool → ℕ → ℕ → ℕ → ℕ → StorageCostSpec
spec net_cost warm_access set reset clear = record {
  net_cost = net_cost;
  warm_access = warm_access;
  set = set;
  reset = reset;
  clear = clear;
}

abbrev legacy_spec : StorageCostSpec
legacy_spec = spec false 200 20000 5000 15000

abbrev london_spec : StorageCostSpec
london_spec = spec true warm_storage_read_cost 20000 (5000 - cold_sload_cost) 4800

abbrev pub storage_cost_spec : Revision → StorageCostSpec
storage_cost_spec frontier = legacy_spec
storage_cost_spec homestead = legacy_spec
storage_cost_spec tangerine_whistle = legacy_spec
storage_cost_spec spurious_dragon = legacy_spec
storage_cost_spec byzantium = legacy_spec
storage_cost_spec petersburg = legacy_spec
storage_cost_spec constantinople = spec true 200 20000 5000 15000
storage_cost_spec istanbul = spec true 800 20000 5000 15000
storage_cost_spec berlin = spec true warm_storage_read_cost 20000 (5000 - cold_sload_cost) 15000
storage_cost_spec london = london_spec
storage_cost_spec paris = london_spec
storage_cost_spec shanghai = london_spec
storage_cost_spec cancun = london_spec
storage_cost_spec prague = london_spec

abbrev cost : ℕ → ℤ → StorageStoreCost
cost gas_cost gas_refund = record { gas_cost = gas_cost; gas_refund = gas_refund }

legacy_costs : StorageCostSpec → StorageStatus → StorageStoreCost
legacy_costs c added = cost c.set (pos 0)
legacy_costs c deleted = cost c.reset (pos c.clear)
legacy_costs c modified = cost c.reset (pos 0)
legacy_costs c assigned = cost c.reset (pos 0)
legacy_costs c deleted_added = cost c.set (pos 0)
legacy_costs c modified_deleted = cost c.reset (pos c.clear)
legacy_costs c deleted_restored = cost c.set (pos 0)
legacy_costs c added_deleted = cost c.reset (pos c.clear)
legacy_costs c modified_restored = cost c.reset (pos 0)

net_costs : StorageCostSpec → StorageStatus → StorageStoreCost
net_costs c assigned = cost c.warm_access (pos 0)
net_costs c added = cost c.set (pos 0)
net_costs c deleted = cost c.reset (pos c.clear)
net_costs c modified = cost c.reset (pos 0)
net_costs c deleted_added = cost c.warm_access (pos 0 -ℤ pos c.clear)
net_costs c modified_deleted = cost c.warm_access (pos c.clear)
net_costs c deleted_restored = cost c.warm_access (pos c.reset -ℤ pos c.warm_access -ℤ pos c.clear)
net_costs c added_deleted = cost c.warm_access (pos c.set -ℤ pos c.warm_access)
net_costs c modified_restored = cost c.warm_access (pos c.reset -ℤ pos c.warm_access)

unfoldable pub sstore_costs : Revision → StorageStatus → StorageStoreCost
unfolding legacy_costs net_costs
sstore_costs rev status =
    let c = storage_cost_spec rev in
    if c.net_cost then net_costs c status else legacy_costs c status

-- What a store costs after its refund.
unfoldable pub net_charge : Revision → StorageStatus → ℤ
unfolding ◌-ℤ◌
net_charge rev status =
    pos (sstore_costs rev status).gas_cost -ℤ (sstore_costs rev status).gas_refund

abbrev pub round_trip : Revision → StorageStatus → StorageStatus → ℤ
round_trip rev out back = net_charge rev out +ℤ net_charge rev back

abbrev pub IsRoundTrip : Revision → Type 0
IsRoundTrip rev =
    (round_trip rev added added_deleted ≡ pos (2 * (storage_cost_spec rev).warm_access))
    × (round_trip rev deleted deleted_restored ≡ pos (2 * (storage_cost_spec rev).warm_access))
    × (round_trip rev modified modified_restored ≡ pos (2 * (storage_cost_spec rev).warm_access))

-- In every revision with net metering, a store away from the original value and the store back
-- (added and deleted, deleted and restored, modified and restored) cost twice the warm access
-- together, after refunds.
pub sstore_costs-IsRoundTrip :
    (rev : Revision) → (storage_cost_spec rev).net_cost ≡ true → IsRoundTrip rev
unfolding sstore_costs net_charge ◌+ℤ◌ ◌-ℤ◌ net_costs
sstore_costs-IsRoundTrip frontier h = absurd (cc)
sstore_costs-IsRoundTrip homestead h = absurd (cc)
sstore_costs-IsRoundTrip tangerine_whistle h = absurd (cc)
sstore_costs-IsRoundTrip spurious_dragon h = absurd (cc)
sstore_costs-IsRoundTrip byzantium h = absurd (cc)
sstore_costs-IsRoundTrip petersburg h = absurd (cc)
sstore_costs-IsRoundTrip constantinople h = (refl, refl, refl)
sstore_costs-IsRoundTrip istanbul h = (refl, refl, refl)
sstore_costs-IsRoundTrip berlin h = (refl, refl, refl)
sstore_costs-IsRoundTrip london h = (refl, refl, refl)
sstore_costs-IsRoundTrip paris h = (refl, refl, refl)
sstore_costs-IsRoundTrip shanghai h = (refl, refl, refl)
sstore_costs-IsRoundTrip cancun h = (refl, refl, refl)
sstore_costs-IsRoundTrip prague h = (refl, refl, refl)
