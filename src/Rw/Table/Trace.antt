-- ===== src/Rw/Table/Trace.antt =====
-- `process_rw_operations` on the trace of one call.
use mathlib.Core.List.{Perm}
use evm_assigner.Base.{
  ℕ, suc, ◌-◌, ◌≤◌, ◌≡◌, List, refl, sym, ◌∙◌, [], ◌∷◌, true, Bool-cases, inl, inr, some, arith,
}
use evm_assigner.Blueprint.{Blueprint, IsBlueprint}
use evm_assigner.Intx.{Intx, IsIntx}
use evm_assigner.Rw.{RwOperation, rw_lt}
use evm_assigner.Rw.Order.{rw_lt_total}
use evm_assigner.Rw.Sort.{
  sort, sort_lem, IsSorted, All, sort-All, HasDistinctIds, sort-HasDistinctIds,
}
use evm_assigner.Rw.Table.{
  Table, set_cells, static_cells, process_sorted, process_rw_operations, field_type_column,
}
use evm_assigner.Rw.Table.Key.{IsInRange}
use evm_assigner.Rw.Table.Cells.{set_cells-other}
use evm_assigner.Rw.Table.Process.{
  IsAscending, Holds, IsProcessed, Holds-of_static, static_cells-Holds, process_rest-IsProcessed,
}

-- The operations of the call `id`, in the ranges of their columns, with distinct rw ids.
abbrev pub IsTrace : ℕ → List RwOperation → Type 0
IsTrace id ops = All (λ a. IsInRange a × (a.id ≡ id)) ops × HasDistinctIds ops

-- Sorted and distinct is strictly ascending.
IsSorted-IsAscending :
    (id : ℕ) (a : RwOperation) (ops : List RwOperation)
    → IsTrace id (a ∷ ops)
    → IsSorted (a ∷ ops)
    → IsAscending a ops
IsSorted-IsAscending id a [] trace sorted = tt
IsSorted-IsAscending id a (b ∷ ops) trace sorted = (
  trace.0.1.0.0,
  omega (arith, trace.0.0.1, trace.0.1.0.1),
  less,
  IsSorted-IsAscending id b ops (trace.0.1, trace.1.1) sorted.1,
)
  where
    less : rw_lt a b ≡ true
    less = elim (Bool-cases (rw_lt a b)) [
      | inl yes_less ↦ yes_less
      | inr not_less ↦ absurd (trace.1.0.0 (rw_lt_total a b not_less sorted.0).4)
    ]

suc-sub-one : (n : ℕ) → n ≡ suc n - 1
suc-sub-one n = omega arith

module _ {F : Type 0} ⦃field : Blueprint F⦄ ⦃intx : Intx⦄ where
  -- From `row` on the table holds the operations, each but the first compared with the one before.
  abbrev pub IsFilled : Table F → ℕ → List RwOperation → Type 0
  IsFilled table row [] = Unit {0}
  IsFilled table row (a ∷ ops) = Holds table row a × IsProcessed table (suc row) a ops

  module _ (laws : IsIntx intx) (field_laws : IsBlueprint field)
      (wide : 256 ≤ field.integral_bits) where
    process_sorted-IsFilled :
        (ops : List RwOperation) (id start : ℕ) (table : Table F)
        → IsTrace id ops
        → IsSorted ops
        → ((r : ℕ) → start ≤ r → table field_type_column r ≡ field.element 0)
        → (t : Table F) × (process_sorted table start ops ≡ some t) × IsFilled t start ops
    process_sorted-IsFilled [] id start table trace sorted fresh =
        (table, unfold process_sorted in refl, tt)
    process_sorted-IsFilled (a ∷ ops) id start table trace sorted fresh =
        let t₀ : Table F = set_cells table start (static_cells a) in
        let here : Holds t₀ start a =
          static_cells-Holds laws field_laws wide a table start trace.0.0.0
            (fresh start (omega arith)) in
        let (t, e, rest, frame) =
          process_rest-IsProcessed laws field_laws wide ops t₀ (suc start) a (omega arith)
            trace.0.0.0 (IsSorted-IsAscending id a ops trace sorted)
            (rw (sym (suc-sub-one start)) here)
            (λ r le.
              set_cells-other start table (static_cells a) field_type_column r (omega arith)
              ∙ fresh r (omega arith)) in
        (
          t,
          unfold process_sorted in e,
          (
            Holds-of_static t₀ t start a (λ c h. frame c start (ground arith) (omega arith)) here,
            rest,
          ),
        )

    -- On a trace of one call whose operations fit their columns and have distinct rw ids, and a
    -- table whose FIELD_TYPE column is 0 from the start row on, process_rw_operations returns a
    -- table (no read of `sorting` passes its end), of which the rows from the start row hold a
    -- permutation of the trace in which no operation is less than the one before: each row has, in
    -- the sorting columns, the operation code and the 16-bit chunks of id, address, storage key and
    -- rw id, and, in the lookup columns ID, ADDRESS, STORAGE_KEY_HI and _LO, RW_ID, IS_WRITE,
    -- VALUE_HI and VALUE_LO, those fields, words by their upper and lower 128 bits. In every row
    -- but the first, DIFFERENCE is the positive difference of the first sorting chunk in which the
    -- row differs from the row before, and INV_DIFFERENCE is the field's 1 divided by DIFFERENCE.
    -- The integer type has at least 256 bits.
    pub process_rw_operations-IsFilled :
        (rw_trace : List RwOperation) (id start : ℕ) (table : Table F)
        → IsTrace id rw_trace
        → ((r : ℕ) → start ≤ r → table field_type_column r ≡ field.element 0)
        → (ops : List RwOperation) × Perm ops rw_trace
          × IsSorted ops
          × (t : Table F) × (process_rw_operations rw_trace table start ≡ some t)
          × IsFilled t start ops
    process_rw_operations-IsFilled rw_trace id start table trace fresh =
        let (sorted, perm) = sort_lem rw_trace in
        let (t, e, filled) =
          process_sorted-IsFilled (sort rw_trace) id start table
            (sort-All _ rw_trace trace.0, sort-HasDistinctIds rw_trace trace.1) sorted fresh in
        (sort rw_trace, perm, sorted, t, unfold process_rw_operations in e, filled)
