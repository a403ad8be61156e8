-- ===== src/Rw/Order.antt =====
-- `operator<` of rw_operation (lib/assigner/include/rw.hpp) as an order.
use evm_assigner.Base.{◌≡◌, true, false, arith}
use evm_assigner.Rw.{RwOperation, rw_lt}

-- The five fields that the order reads agree.
abbrev pub SameKey : RwOperation → RwOperation → Type 0
SameKey a b =
    (a.op ≡ b.op)
    × (a.address ≡ b.address)
    × (a.field ≡ b.field)
    × (a.storage_key ≡ b.storage_key)
    × (a.rw_id ≡ b.rw_id)

pub rw_lt_irrefl : (a : RwOperation) → rw_lt a a ≡ false
unfolding rw_lt
rw_lt_irrefl a = ground arith

-- operator< of rw_operation is transitive.
rw_lt_trans : (a b c : RwOperation) → rw_lt a b ≡ true → rw_lt b c ≡ true → rw_lt a c ≡ true
unfolding rw_lt
rw_lt_trans a b c h k = ground arith

pub rw_lt_asymm : (a b : RwOperation) → rw_lt a b ≡ true → rw_lt b a ≡ false
unfolding rw_lt
rw_lt_asymm a b h = ground arith

-- Two operations of which neither is less than the other agree in all five fields that operator<
-- reads.
pub rw_lt_total : (a b : RwOperation) → rw_lt a b ≡ false → rw_lt b a ≡ false → SameKey a b
unfolding rw_lt
rw_lt_total a b h k = ground arith
