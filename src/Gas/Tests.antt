-- ===== src/Gas/Tests.antt =====
-- The theorems on the gas costs at concrete instructions.
use evm_assigner.Base.{◌≡◌, ◌↔◌, refl, arith, true, is_neg}
use evm_assigner.Revision.{Revision, frontier, london}
use evm_assigner.Traits.{traits}
use evm_assigner.Gas.{gas_costs, has_const_gas_cost}
use evm_assigner.Gas.Storage.{IsRoundTrip, sstore_costs-IsRoundTrip}
use evm_assigner.Gas.Since.{is_before, gas_costs-traits, has_const_gas_cost_iff}

-- BASEFEE is of LONDON.
gas_costs-traits_example : is_neg (gas_costs london 0x48) ≡ is_before london (traits 0x48).since
gas_costs-traits_example =
    gas_costs-traits london 0x48 (omega arith) (λ (e : 0x48 ≡ 0x1c). omega (arith, e))
      (λ (e : 0x48 ≡ 0x5f). omega (arith, e))

has_const_gas_cost_iff_example :
    (has_const_gas_cost 0x01 ≡ true)
    ↔ ((rev : Revision) → gas_costs rev 0x01 ≡ gas_costs frontier 0x01)
has_const_gas_cost_iff_example = has_const_gas_cost_iff 0x01

sstore_costs-IsRoundTrip_example : IsRoundTrip london
sstore_costs-IsRoundTrip_example = sstore_costs-IsRoundTrip london refl
