-- ===== src/Rw/Table/Compare.antt =====
-- What `compare_row` writes for two neighbours in the order.
use evm_assigner.Base.{
  ℕ, zero, suc, ◌-◌, ◌^◌, ◌<◌, ◌≡◌, ◌≢◌, refl, ap, sym, ◌∙◌, arith, List, [], ◌∷◌, ◌++◌, true,
  false, some, map, get_or, length,
}
use mathlib.Core.List.{head-eq_of_cons-eq, tail-eq_of_cons-eq}
use evm_assigner.Blueprint.{Blueprint, IsBlueprint}
use evm_assigner.Intx.{Intx}
use evm_assigner.Rw.{RwOperation}
use evm_assigner.Rw.Digits.{first_diff, LexLt, first_diff-LexLt}
use evm_assigner.Rw.Table.{
  Table, compare_at, compare_column, compare_row, sorting, mark_rows, set_cells, before_cells,
  bit_cells, set_difference, indices, difference_column, inv_difference_column, is_last_column,
}
use evm_assigner.Rw.Table.Cells.{set_cells-other}
use evm_assigner.Rw.Table.Rows.{
  IsSmall, is_static, get_elem?-is_static, get_elem?-some, eqb_element, find_difference_lem,
  mark_rows-static,
}

module _ {F : Type 0} ⦃field : Blueprint F⦄ ⦃intx : Intx⦄ where
  before_cells-static :
      (table : Table F) (row : ℕ) (a : RwOperation) (d c r : ℕ)
      → is_static c ≡ true
      → set_cells table row (before_cells table row a d ++ bit_cells indices d 0 5 (2 ^ 5)) c r
        ≡ table c r
  unfolding set_cells before_cells bit_cells
  before_cells-static table row a d c r h = ground arith

  set_difference_self :
      (table : Table F) (row : ℕ) (v : F)
      → (set_difference table row v difference_column row ≡ v)
        × (field.eqb v (field.element 0) ≡ false
            → set_difference table row v inv_difference_column row ≡ field.div (field.element 1) v)
  unfolding set_difference
  set_difference_self table row v = (ground arith, λ h. ground arith)

  -- With the smaller operation in the row before, the row gets the difference of the first chunk
  -- that differs, which is not zero, and its inverse.
  pub record IsCompared (table' : Table F) (row : ℕ) (prev cur : List ℕ) : Type 0 where
    pub smaller : get_or prev (first_diff prev cur) 0 < get_or cur (first_diff prev cur) 0
    pub difference :
        table' difference_column row
        ≡ field.element (get_or cur (first_diff prev cur) 0 - get_or prev (first_diff prev cur) 0)
    pub inverse :
        table' inv_difference_column row
        ≡ field.div (field.element 1) (table' difference_column row)

map-get_or :
    {F : Type 0} (f : ℕ → F) (g : ℕ → F) (cs xs : List ℕ) (k : ℕ)
    → k < length cs
    → map f cs ≡ map g xs
    → f (get_or cs k 0) ≡ g (get_or xs k 0)
map-get_or f g [] xs k h e = absurd (omega arith)
map-get_or f g (c ∷ cs) [] k h e = absurd (cc)
map-get_or f g (c ∷ cs) (x ∷ xs) zero h e = head-eq_of_cons-eq e
map-get_or f g (c ∷ cs) (x ∷ xs) (suc k) h e =
    map-get_or f g cs xs k (omega arith) (tail-eq_of_cons-eq e)

length-of_map :
    {F : Type 0} (f g : ℕ → F) (cs xs : List ℕ) → map f cs ≡ map g xs → length cs ≡ length xs
length-of_map f g [] [] e = refl
length-of_map f g [] (x ∷ xs) e = absurd (cc)
length-of_map f g (c ∷ cs) [] e = absurd (cc)
length-of_map f g (c ∷ cs) (x ∷ xs) e = ap suc (length-of_map f g cs xs (tail-eq_of_cons-eq e))

get_or-IsSmall : (xs : List ℕ) (k : ℕ) → IsSmall xs → get_or xs k 0 < 2 ^ 128
get_or-IsSmall [] k h = omega arith
get_or-IsSmall (x ∷ xs) zero h = h.0
get_or-IsSmall (x ∷ xs) (suc k) h = get_or-IsSmall xs k h.1

module _ {F : Type 0} ⦃field : Blueprint F⦄ ⦃intx : Intx⦄ (laws : IsBlueprint field)
    (table : Table F) (row : ℕ) (a : RwOperation) (prev cur : List ℕ)
    (holds_cur : map (λ c. table c row) sorting ≡ map field.element cur)
    (holds_prev : map (λ c. table c (row - 1)) sorting ≡ map field.element prev)
    (small_cur : IsSmall cur) (small_prev : IsSmall prev) (less : LexLt prev cur) where
  abbrev place : ℕ
  place = first_diff prev cur

  abbrev column : ℕ
  column = get_or sorting place 0

  place-lt : place < length sorting
  place-lt = omega (
    arith,
    (first_diff-LexLt prev cur less).0,
    length-of_map (λ c. table c (row - 1)) field.element sorting prev holds_prev,
  )

  column-is_static : is_static column ≡ true
  column-is_static =
      get_elem?-is_static sorting place column refl (get_elem?-some sorting place place-lt)

  -- The table when `difference` is read from it.
  marked : Table F
  marked =
      mark_rows
        (set_cells table row
          (before_cells table row a place ++ bit_cells indices place 0 5 (2 ^ 5)))
        row a place

  marked-column : (r : ℕ) → marked column r ≡ table column r
  unfolding marked
  marked-column r =
      mark_rows-static laws _ row a place column r column-is_static
      ∙ before_cells-static table row a place column r column-is_static

  compared : F
  compared = field.sub (marked column row) (marked column (row - 1))

  compared_lem : compared ≡ field.element (get_or cur place 0 - get_or prev place 0)
  unfolding compared
  compared_lem =
      rw (compared, marked-column row, marked-column (row - 1))
        (rw
          (
            map-get_or (λ c. table c row) field.element sorting cur place place-lt holds_cur,
            map-get_or (λ c. table c (row - 1)) field.element sorting prev place place-lt
                holds_prev,
          )
          (laws.sub-element _ _ (omega (arith, (first_diff-LexLt prev cur less).1))))

  compared-ne-zero : field.eqb compared (field.element 0) ≡ false
  compared-ne-zero =
      rw
        (
          compared_lem,
          eqb_element laws (get_or cur place 0 - get_or prev place 0) 0
              (omega (arith, get_or-IsSmall cur place small_cur)) (omega arith),
        )
        (ground (arith, (first_diff-LexLt prev cur less).1))

  compare_row-some : compare_row table row a ≡ some (set_difference marked row compared)
  unfolding compare_row
  compare_row-some =
      ap (compare_at table row a) (
        find_difference_lem laws table row sorting cur prev holds_cur holds_prev small_cur
          small_prev)
      ∙ compare_at-some
    where
      compare_at-some : compare_at table row a place ≡ some (set_difference marked row compared)
      compare_at-some =
          unfold compare_at compared marked in
          ap (compare_column marked row) (get_elem?-some sorting place place-lt)

  -- Other rows stay, but for IS_LAST, and so do the static columns of this one.
  marked-other :
      (c r : ℕ) → c ≢ is_last_column → r ≢ row → set_difference marked row compared c r ≡ table c r
  unfolding marked mark_rows set_difference
  marked-other c r nc nr = ground (
    arith,
    set_cells-other row table
        (before_cells table row a place ++ bit_cells indices place 0 5 (2 ^ 5)) c r nr,
  )

  marked-static :
      (c : ℕ) → is_static c ≡ true → set_difference marked row compared c row ≡ table c row
  unfolding marked set_difference
  marked-static c h = ground (
    arith,
    mark_rows-static laws
        (set_cells table row
          (before_cells table row a place ++ bit_cells indices place 0 5 (2 ^ 5)))
        row a place c row h,
    before_cells-static table row a place c row h,
  )

  pub compare_row-IsCompared :
      (table' : Table F) × (compare_row table row a ≡ some table')
      × IsCompared table' row prev cur
      × ((c r : ℕ) → c ≢ is_last_column → r ≢ row → table' c r ≡ table c r)
      × ((c : ℕ) → is_static c ≡ true → table' c row ≡ table c row)
  compare_row-IsCompared = (
    set_difference marked row compared,
    compare_row-some,
    record {
      smaller = (first_diff-LexLt prev cur less).1;
      difference = (set_difference_self marked row compared).0 ∙ compared_lem;
      inverse =
          (set_difference_self marked row compared).1 compared-ne-zero
          ∙ ap (field.div (field.element 1)) (sym (set_difference_self marked row compared).0);
    },
    marked-other,
    marked-static,
  )
