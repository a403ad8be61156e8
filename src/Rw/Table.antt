-- ===== src/Rw/Table.antt =====
-- `process_rw_operations` of lib/assigner/include/rw.hpp: the sorted trace is written into the
-- witness columns of the rw circuit, one row for each operation. `witness(column, row) = v` is a
-- `set` of the table; `start` is the size of column OP before, which the table reports.
pub mod Key
pub mod Cells
pub mod Rows
pub mod Compare
pub mod Process
pub mod Trace
use evm_assigner.Base.{
  ℕ, zero, suc, ◌+◌, ◌-◌, ◌*◌, ◌^◌, List, [], ◌∷◌, ◌++◌, Bool, true, false, not, ◌&&◌, Option, none,
  some, ◌==◌, ltb, if◌then◌else◌, get_elem?,
}
use evm_assigner.Blueprint.{Blueprint, integral_shl, integral_shr, integral_and}
use evm_assigner.Intx.{Intx}
use evm_assigner.Word.{to_field_as_address, w_hi, w_lo, and_integral}
use evm_assigner.Rw.{RwOperation, start_op, padding_op}
use evm_assigner.Rw.Sort.{sort}

-- The columns.
abbrev pub op_column : ℕ
op_column = 0

abbrev pub id_column : ℕ
id_column = 1

abbrev pub address_column : ℕ
address_column = 2

abbrev pub storage_key_hi_column : ℕ
storage_key_hi_column = 3

abbrev pub storage_key_lo_column : ℕ
storage_key_lo_column = 4

abbrev pub field_type_column : ℕ
field_type_column = 5

abbrev pub rw_id_column : ℕ
rw_id_column = 6

abbrev pub is_write_column : ℕ
is_write_column = 7

abbrev pub value_hi_column : ℕ
value_hi_column = 8

abbrev pub value_lo_column : ℕ
value_lo_column = 9

abbrev pub op_selectors : ℕ → ℕ
op_selectors j = 10 + j

abbrev pub indices : ℕ → ℕ
indices j = 14 + j

abbrev pub is_first_column : ℕ
is_first_column = 19

abbrev pub chunks : ℕ → ℕ
chunks j = 20 + j

abbrev pub difference_column : ℕ
difference_column = 50

abbrev pub inv_difference_column : ℕ
inv_difference_column = 51

abbrev pub value_before_hi_column : ℕ
value_before_hi_column = 52

abbrev pub value_before_lo_column : ℕ
value_before_lo_column = 53

abbrev pub is_last_column : ℕ
is_last_column = 58

-- `n` consecutive chunk columns from the `j`-th.
abbrev pub chunk_columns : ℕ → ℕ → List ℕ
chunk_columns j zero = []
chunk_columns j (suc n) = chunks j ∷ chunk_columns (suc j) n

-- The columns by which rows are compared, in the order of the comparison.
abbrev pub sorting : List ℕ
sorting =
    op_column
    ∷ (chunk_columns 0 2
        ++ (chunk_columns 2 10 ++ field_type_column ∷ (chunk_columns 12 16 ++ chunk_columns 28 2)))

-- A table maps a column and a row to an element.
abbrev pub Table : Type 0 → Type 0
Table F = ℕ → ℕ → F

abbrev pub set_cell : {F : Type 0} → Table F → ℕ → ℕ → F → Table F
set_cell table column row v c r =
    if c == column then (if r == row then v else table c r) else table c r

-- Cells written into one row, one after the other.
unfoldable pub set_cells : {F : Type 0} → Table F → ℕ → List (ℕ × F) → Table F
set_cells table row [] = table
set_cells table row ((column, v) ∷ cells) = set_cells (set_cell table column row v) row cells

abbrev pub bit_of : Bool → ℕ
bit_of true = 1
bit_of false = 0

module _ {F : Type 0} ⦃field : Blueprint F⦄ ⦃intx : Intx⦄ where
  -- The lookup columns.
  unfoldable pub lookup_cells : RwOperation → List (ℕ × F)
  lookup_cells a =
      (op_column, field.element a.op)
      ∷ (id_column, field.element a.id)
      ∷ (address_column, field.element (to_field_as_address field.integral_bits a.address))
      ∷ (storage_key_hi_column, field.element (w_hi field.integral_bits a.storage_key))
      ∷ (storage_key_lo_column, field.element (w_lo field.integral_bits a.storage_key))
      ∷ (rw_id_column, field.element a.rw_id)
      ∷ (is_write_column, field.element (bit_of a.is_write))
      ∷ (value_hi_column, field.element (w_hi field.integral_bits a.value))
      ∷ (value_lo_column, field.element (w_lo field.integral_bits a.value))
      ∷ []

  -- The bits of `v` under a mask that starts at twice the first bit's value: the loops over the
  -- operation selectors and over the index columns.
  unfoldable pub bit_cells : (ℕ → ℕ) → ℕ → ℕ → ℕ → ℕ → List (ℕ × F)
  bit_cells columns v j zero mask = []
  bit_cells columns v j (suc n) mask =
      let mask' = integral_shr mask 1 in
      (columns j, field.element (if integral_and v mask' == 0 then 0 else 1))
      ∷ bit_cells columns v (suc j) n mask'

  -- The 16-bit chunks of a word, the `j`-th chunk column onwards, `n` of them to go.
  unfoldable pub word_chunk_cells : ℕ → ℕ → ℕ → ℕ → List (ℕ × F)
  word_chunk_cells v j zero mask = []
  word_chunk_cells v j (suc n) mask =
      (chunks j, field.element (integral_shr (and_integral field.integral_bits v mask) (16 * n)))
      ∷ word_chunk_cells v (suc j) n (integral_shr mask 16)

  -- The two chunks of a `size_t`.
  unfoldable pub size_chunk_cells : ℕ → ℕ → List (ℕ × F)
  size_chunk_cells v j =
      let mask = integral_shl field.integral_bits 0xffff 16 in
      (chunks j, field.element (integral_shr (integral_and v mask) 16))
      ∷ (chunks (suc j), field.element (integral_and v (integral_shr mask 16)))
      ∷ []

  -- What the loop body writes before it looks at the row before.
  unfoldable pub static_cells : RwOperation → List (ℕ × F)
  static_cells a =
      lookup_cells a
      ++ (bit_cells op_selectors a.op 0 4 (2 ^ 4)
          ++ (size_chunk_cells a.id 0
              ++ (word_chunk_cells a.address 2 10 (integral_shl field.integral_bits 0xffff (16 * 9))
                  ++ (word_chunk_cells a.storage_key 12 16
                        (integral_shl field.integral_bits 0xffff (16 * 15))
                      ++ size_chunk_cells a.rw_id 28))))

  -- The first of the columns in which a row differs from the row before, or their number.
  unfoldable pub find_difference : Table F → ℕ → List ℕ → ℕ
  find_difference table row [] = 0
  find_difference table row (column ∷ columns) =
      if field.eqb (table column row) (table column (row - 1))
      then suc (find_difference table row columns)
      else 0

  -- The columns of the value before: those of the operation at the first row of a group, else
  -- those of the row before.
  unfoldable pub before_cells : Table F → ℕ → RwOperation → ℕ → List (ℕ × F)
  before_cells table row a diff_ind =
      if ltb diff_ind 30
      then (value_before_hi_column, field.element (w_hi field.integral_bits a.value_prev))
        ∷ (value_before_lo_column, field.element (w_lo field.integral_bits a.value_prev))
        ∷ []
      else (value_before_hi_column, table value_before_hi_column (row - 1))
        ∷ (value_before_lo_column, table value_before_lo_column (row - 1))
        ∷ []

  -- IS_LAST of the row before and IS_FIRST of this one.
  unfoldable pub mark_rows : Table F → ℕ → RwOperation → ℕ → Table F
  mark_rows table row a diff_ind =
      let t =
        if not (a.op == start_op) && ltb diff_ind 30
        then set_cell table is_last_column (row - 1) (field.element 1)
        else table in
      if not (a.op == start_op) && not (a.op == padding_op) && ltb diff_ind 30
      then set_cell t is_first_column row (field.element 1)
      else t

  -- DIFFERENCE and INV_DIFFERENCE.
  unfoldable pub set_difference : Table F → ℕ → F → Table F
  set_difference table row difference =
      set_cell (set_cell table difference_column row difference) inv_difference_column row (
        if field.eqb difference (field.element 0)
        then field.element 0
        else field.div (field.element 1) difference)

  -- The difference in `column`, the `diff_ind`-th of `sorting`. `none` is the read of
  -- `sorting[diff_ind]` past its end, which happens when no column differs.
  unfoldable pub compare_column : Table F → ℕ → Option ℕ → Option (Table F)
  compare_column table row none = none
  compare_column table row (some column) =
      some (set_difference table row (field.sub (table column row) (table column (row - 1))))

  unfoldable pub compare_at : Table F → ℕ → RwOperation → ℕ → Option (Table F)
  unfolding compare_column
  compare_at table row a diff_ind =
      let t =
        set_cells table row
          (before_cells table row a diff_ind ++ bit_cells indices diff_ind 0 5 (2 ^ 5)) in
      compare_column (mark_rows t row a diff_ind) row (get_elem? sorting diff_ind)

  -- The loop body after the chunks, for a row that is not the first.
  unfoldable pub compare_row : Table F → ℕ → RwOperation → Option (Table F)
  compare_row table row a = compare_at table row a (find_difference table row sorting)

  -- The rows after the first.
  unfoldable pub process_rest : Table F → ℕ → List RwOperation → Option (Table F)
  process_rest table row [] = some table
  process_rest table row (a ∷ ops) =
      elim (compare_row (set_cells table row (static_cells a)) row a) [
        | none ↦ none
        | some table' ↦ process_rest table' (suc row) ops
      ]

  unfoldable pub process_sorted : Table F → ℕ → List RwOperation → Option (Table F)
  process_sorted table start [] = some table
  process_sorted table start (a ∷ ops) =
      process_rest (set_cells table start (static_cells a)) (suc start) ops

  unfoldable pub process_rw_operations : List RwOperation → Table F → ℕ → Option (Table F)
  unfolding process_sorted
  process_rw_operations rw_trace rw_table start = process_sorted rw_table start (sort rw_trace)
