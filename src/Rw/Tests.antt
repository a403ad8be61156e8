-- ===== src/Rw/Tests.antt =====
-- The theorems on the trace and its table, at a trace of three operations.
use mathlib.Core.List.{Perm}
use evm_assigner.Base.{ℕ, ◌≡◌, refl, arith, List, [], ◌∷◌, true, false, some, map}
use evm_assigner.Samples.{sample_intx, sample_intx-IsIntx, sample_field, sample_field-IsBlueprint}
use evm_assigner.Rw.{RwOperation, rw_lt, stack_operation, storage_operation}
use evm_assigner.Rw.Sort.{IsSorted}
use evm_assigner.Rw.Digits.{LexLt}
use evm_assigner.Rw.Table.{Table, set_cells, static_cells, process_rw_operations, sorting}
use evm_assigner.Rw.Table.Key.{sort_key, IsInRange, sort_key-LexLt}
use evm_assigner.Rw.Table.Cells.{static_cells-sort_key}
use evm_assigner.Rw.Table.Trace.{IsTrace, IsFilled, process_rw_operations-IsFilled}

-- A push, a read of it, and a store.
abbrev push_first : RwOperation
push_first = stack_operation 1 0 0 true 42

abbrev read_first : RwOperation
read_first = stack_operation 1 0 1 false 42

abbrev store_first : RwOperation
store_first = storage_operation 1 0xabcd 7 2 true 42 0

abbrev sample_trace : List RwOperation
sample_trace = store_first ∷ read_first ∷ push_first ∷ []

push_first-IsInRange : IsInRange push_first
push_first-IsInRange = record {
  op_fits = omega arith;
  address_fits = omega arith;
  no_field = refl;
  storage_key_fits = omega arith;
  rw_id_fits = omega arith;
}

read_first-IsInRange : IsInRange read_first
read_first-IsInRange = record {
  op_fits = omega arith;
  address_fits = omega arith;
  no_field = refl;
  storage_key_fits = omega arith;
  rw_id_fits = omega arith;
}

store_first-IsInRange : IsInRange store_first
store_first-IsInRange = record {
  op_fits = omega arith;
  address_fits = omega arith;
  no_field = refl;
  storage_key_fits = omega arith;
  rw_id_fits = omega arith;
}

sample_trace-IsTrace : IsTrace 1 sample_trace
sample_trace-IsTrace = (
  (
    (store_first-IsInRange, refl),
    ((read_first-IsInRange, refl), ((push_first-IsInRange, refl), tt)),
  ),
  (
    (λ (e : 2 ≡ 1). omega (arith, e), (λ (e : 2 ≡ 0). omega (arith, e), tt)),
    ((λ (e : 1 ≡ 0). omega (arith, e), tt), (tt, tt)),
  ),
)

abbrev empty_table : Table ℕ
empty_table column row = 0

process_rw_operations-IsFilled_example :
    (ops : List RwOperation) × Perm ops sample_trace
    × IsSorted ops
    × (t : Table ℕ) × (process_rw_operations ⦃field = sample_field⦄ ⦃intx = sample_intx⦄
          sample_trace empty_table 0
        ≡ some t)
    × IsFilled ⦃field = sample_field⦄ ⦃intx = sample_intx⦄ t 0 ops
process_rw_operations-IsFilled_example =
    process_rw_operations-IsFilled ⦃field = sample_field⦄ ⦃intx = sample_intx⦄ sample_intx-IsIntx
      sample_field-IsBlueprint (omega arith) sample_trace 1 0 empty_table sample_trace-IsTrace
      (λ r h. refl)

static_cells-sort_key_example :
    map
      (λ c.
        set_cells empty_table 5
          (static_cells ⦃field = sample_field⦄ ⦃intx = sample_intx⦄ store_first)
          c
          5)
      sorting
    ≡ map (λ (n : ℕ). n) (sort_key store_first)
static_cells-sort_key_example =
    static_cells-sort_key ⦃field = sample_field⦄ ⦃intx = sample_intx⦄ sample_intx-IsIntx
      (omega arith) store_first empty_table 5 store_first-IsInRange refl

sort_key-LexLt_example : LexLt (sort_key push_first) (sort_key read_first)
sort_key-LexLt_example =
    sort_key-LexLt push_first read_first push_first-IsInRange read_first-IsInRange refl
      (unfold rw_lt in refl)
