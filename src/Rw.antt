-- ===== src/Rw.antt =====
-- lib/assigner/include/rw.hpp: the operations of the read/write trace, their order, and the
-- constructors that the instructions call. `operator<<` is debug output and is left out.
pub mod Order
pub mod Sort
pub mod Digits
pub mod Table
mod Tests
use evm_assigner.Base.{ℕ, ◌==◌, ltb, if◌then◌else◌, Bool, true, false}

pub record RwOperation : Type 0 where
  pub op : ℕ
  pub id : ℕ
  pub address : ℕ
  pub field : ℕ
  pub storage_key : ℕ
  pub rw_id : ℕ
  pub is_write : Bool
  pub value : ℕ
  pub value_prev : ℕ

-- `operator<`. The call id takes no part in it.
unfoldable pub rw_lt : RwOperation → RwOperation → Bool
rw_lt a b =
    if a.op == b.op
    then if a.address == b.address
      then if a.field == b.field
        then if a.storage_key == b.storage_key
          then if a.rw_id == b.rw_id then false else ltb a.rw_id b.rw_id
          else ltb a.storage_key b.storage_key
        else ltb a.field b.field
      else ltb a.address b.address
    else ltb a.op b.op

abbrev pub start_op : ℕ
start_op = 0

abbrev pub stack_op : ℕ
stack_op = 1

abbrev pub memory_op : ℕ
memory_op = 2

abbrev pub storage_op : ℕ
storage_op = 3

abbrev pub padding_op : ℕ
padding_op = 12

abbrev empty_operation : ℕ → RwOperation
empty_operation kind = record {
  op = kind;
  id = 0;
  address = 0;
  field = 0;
  storage_key = 0;
  rw_id = 0;
  is_write = false;
  value = 0;
  value_prev = 0;
}

abbrev pub start_operation : RwOperation
start_operation = empty_operation start_op

abbrev pub padding_operation : RwOperation
padding_operation = empty_operation padding_op

abbrev pub stack_operation : ℕ → ℕ → ℕ → Bool → ℕ → RwOperation
stack_operation id address rw_id is_write value = record (empty_operation stack_op) {
  id = id;
  address = address;
  rw_id = rw_id;
  is_write = is_write;
  value = value;
}

abbrev pub memory_operation : ℕ → ℕ → ℕ → Bool → ℕ → RwOperation
memory_operation id address rw_id is_write value = record (empty_operation memory_op) {
  id = id;
  address = address;
  rw_id = rw_id;
  is_write = is_write;
  value = value;
}

abbrev pub storage_operation : ℕ → ℕ → ℕ → ℕ → Bool → ℕ → ℕ → RwOperation
storage_operation id address storage_key rw_id is_write value value_prev = record {
  op = storage_op;
  id = id;
  address = address;
  field = 0;
  storage_key = storage_key;
  rw_id = rw_id;
  is_write = is_write;
  value = value;
  value_prev = value_prev;
}
