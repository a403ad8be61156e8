-- ===== src/Rw/Table/Process.antt =====
-- The loop of `process_rw_operations` over the rows after the first.
use evm_assigner.Base.{
  ℕ, zero, suc, ◌-◌, ◌≤◌, ◌<◌, ◌≡◌, ◌≢◌, refl, ap, ap₂, sym, ◌∙◌, arith, List, [], ◌∷◌, ◌++◌, true,
  some, map,
}
use evm_assigner.Blueprint.{Blueprint, IsBlueprint}
use evm_assigner.Intx.{Intx, IsIntx}
use evm_assigner.Rw.{RwOperation, rw_lt}
use evm_assigner.Rw.Digits.{digits}
use evm_assigner.Rw.Table.{
  Table, compare_row, sorting, set_cells, static_cells, process_rest, is_last_column,
  field_type_column, difference_column, inv_difference_column,
}
use evm_assigner.Rw.Table.Key.{sort_key, IsInRange, sort_key-LexLt}
use evm_assigner.Rw.Table.Cells.{
  set_cells-other, lookup_columns, lookup_values, static_cells-sort_key, static_cells-lookup,
}
use evm_assigner.Rw.Table.Rows.{IsSmall, is_static, all_static}
use evm_assigner.Rw.Table.Compare.{IsCompared, compare_row-IsCompared}

digits-IsSmall : (n v : ℕ) (xs : List ℕ) → IsSmall xs → IsSmall (digits n v ++ xs)
unfolding digits
digits-IsSmall zero v xs h = h
digits-IsSmall (suc n) v xs h = (omega arith, digits-IsSmall n v xs h)

append-IsSmall : (xs : List ℕ) → IsSmall (xs ++ []) → IsSmall xs
append-IsSmall [] h = tt
append-IsSmall (x ∷ xs) h = (h.0, append-IsSmall xs h.1)

sort_key-IsSmall : (a : RwOperation) → IsInRange a → IsSmall (sort_key a)
unfolding sort_key
sort_key-IsSmall a range = (
  omega (arith, range.op_fits),
  digits-IsSmall 2 a.id _ (
      digits-IsSmall 10 a.address _ (
        omega arith,
        digits-IsSmall 16 a.storage_key _ (append-IsSmall _ (digits-IsSmall 2 a.rw_id [] tt)),
      )),
)

-- A row of operations in strict order, all of one call, behind `prev`.
abbrev pub IsAscending : RwOperation → List RwOperation → Type 0
IsAscending prev [] = Unit {0}
IsAscending prev (a ∷ ops) =
    IsInRange a × (prev.id ≡ a.id) × (rw_lt prev a ≡ true) × IsAscending a ops

suc-sub-one : (n : ℕ) → suc n - 1 ≡ n
suc-sub-one n = omega arith

module _ {F : Type 0} ⦃field : Blueprint F⦄ ⦃intx : Intx⦄ where
  -- The sorting columns of a row hold the chunks of an operation, and the lookup columns its fields.
  abbrev pub Holds : Table F → ℕ → RwOperation → Type 0
  Holds table row a =
      (map (λ c. table c row) sorting ≡ map field.element (sort_key a))
      × (map (λ c. table c row) lookup_columns ≡ map field.element (lookup_values a))

  -- From `row` on the table holds the operations, each compared with the one before.
  abbrev pub IsProcessed : Table F → ℕ → RwOperation → List RwOperation → Type 0
  IsProcessed table row prev [] = Unit {0}
  IsProcessed table row prev (a ∷ ops) =
      Holds table row a
      × IsCompared table row (sort_key prev) (sort_key a)
      × IsProcessed table (suc row) a ops

  -- A row depends on the static columns and the two difference columns only.
  pub Holds-of_static :
      (t t' : Table F) (row : ℕ) (a : RwOperation)
      → ((c : ℕ) → is_static c ≡ true → t' c row ≡ t c row)
      → Holds t row a
      → Holds t' row a
  Holds-of_static t t' row a same h = (go sorting refl ∙ h.0, go lookup_columns refl ∙ h.1)
    where
      go : (cs : List ℕ) → all_static cs ≡ true → map (λ c. t' c row) cs ≡ map (λ c. t c row) cs
      go [] e = refl
      go (c ∷ cs) e = ap₂ ◌∷◌ (same c (ground arith)) (go cs (ground arith))

  IsCompared-congr :
      (t t' : Table F) (row : ℕ) (prev cur : List ℕ)
      → t' difference_column row ≡ t difference_column row
      → t' inv_difference_column row ≡ t inv_difference_column row
      → IsCompared t row prev cur
      → IsCompared t' row prev cur
  IsCompared-congr t t' row prev cur e e' h = record {
    smaller = h.smaller;
    difference = e ∙ h.difference;
    inverse = e' ∙ h.inverse ∙ ap (field.div (field.element 1)) (sym e);
  }

  process_rest_step :
      (table t₁ t : Table F) (row : ℕ) (a : RwOperation) (ops : List RwOperation)
      → compare_row (set_cells table row (static_cells a)) row a ≡ some t₁
      → process_rest t₁ (suc row) ops ≡ some t
      → process_rest table row (a ∷ ops) ≡ some t
  unfolding process_rest
  process_rest_step table t₁ t row a ops e₁ e = rw (process_rest, e₁) e

  module _ (laws : IsIntx intx) (field_laws : IsBlueprint field)
      (wide : 256 ≤ field.integral_bits) where
    pub static_cells-Holds :
        (a : RwOperation) (table : Table F) (row : ℕ)
        → IsInRange a
        → table field_type_column row ≡ field.element 0
        → Holds (set_cells table row (static_cells a)) row a
    static_cells-Holds a table row range fresh = (
      static_cells-sort_key laws wide a table row range fresh,
      static_cells-lookup laws wide a table row range,
    )

    pub process_rest-IsProcessed :
        (ops : List RwOperation) (table : Table F) (row : ℕ) (prev : RwOperation)
        → 1 ≤ row
        → IsInRange prev
        → IsAscending prev ops
        → Holds table (row - 1) prev
        → ((r : ℕ) → row ≤ r → table field_type_column r ≡ field.element 0)
        → (t : Table F) × (process_rest table row ops ≡ some t)
          × IsProcessed t row prev ops
          × ((c r : ℕ) → c ≢ is_last_column → r < row → t c r ≡ table c r)
    process_rest-IsProcessed [] table row prev pos range asc holds fresh =
        (table, unfold process_rest in refl, tt, λ c r nc lt. refl)
    process_rest-IsProcessed (a ∷ ops) table row prev pos range asc holds fresh =
        let t₀ : Table F = set_cells table row (static_cells a) in
        let kept : (c r : ℕ) → r ≢ row → t₀ c r ≡ table c r =
          λ c r ne. set_cells-other row table (static_cells a) c r ne in
        let here : Holds t₀ row a =
          static_cells-Holds a table row asc.0 (fresh row (omega arith)) in
        let before : Holds t₀ (row - 1) prev =
          Holds-of_static table t₀ (row - 1) prev (λ c h. kept c (row - 1) (omega arith)) holds in
        let (t₁, e₁, compared, other, static) =
          compare_row-IsCompared field_laws t₀ row a (sort_key prev) (sort_key a) here.0 before.0
            (sort_key-IsSmall a asc.0) (sort_key-IsSmall prev range)
            (sort_key-LexLt prev a range asc.0 asc.1 asc.2) in
        let here₁ : Holds t₁ row a = Holds-of_static t₀ t₁ row a static here in
        let (t, e, rest, frame) =
          process_rest-IsProcessed ops t₁ (suc row) a (omega arith) asc.0 asc.3
            (rw (suc-sub-one row) here₁)
            (λ r le.
              other field_type_column r (omega arith) (omega arith)
              ∙ kept field_type_column r (omega arith)
              ∙ fresh r (omega arith)) in
        (
          t,
          process_rest_step table t₁ t row a ops e₁ e,
          (
            Holds-of_static t₁ t row a (λ c h. frame c row (ground arith) (omega arith)) here₁,
            IsCompared-congr t₁ t row _ _ (frame difference_column row (omega arith) (omega arith))
                (frame inv_difference_column row (omega arith) (omega arith)) compared,
            rest,
          ),
          λ c r nc lt.
              frame c r nc (omega arith) ∙ other c r nc (omega arith) ∙ kept c r (omega arith),
        )
