-- ===== src/Rw/Table/Cells.antt =====
-- What the cells of a row hold once `static_cells` is written.
use evm_assigner.Base.{
  ℕ, zero, suc, ◌*◌, ◌/◌, ◌%◌, ◌^◌, ◌≤◌, ◌<◌, ◌≡◌, ◌≢◌, refl, ap, ap₂, ◌∙◌, arith, List, [], ◌∷◌,
  ◌++◌, map, Bool, true, false, ◌==◌, if◌then◌else◌,
}
use evm_assigner.Base.Bits.{bit_and_shifted, bit_and_mask}
use evm_assigner.Blueprint.{Blueprint, integral_shr, integral_and}
use evm_assigner.Intx.{Intx, IsIntx}
use evm_assigner.Word.{to_field_as_address}
use evm_assigner.Word.Limbs.{
  w_hi_mod, w_lo_lem, to_field_as_address_lem, and_integral_lem, integral_fits,
}
use evm_assigner.Rw.{RwOperation}
use evm_assigner.Rw.Digits.{digits, pow_chunk}
use native.Mathlib.Nat.{div-eq_of_eq-mul_left, one-le-pow}
use evm_assigner.Rw.Table.{
  Table, set_cell, set_cells, static_cells, lookup_cells, bit_cells, size_chunk_cells,
  word_chunk_cells, chunks, sorting, op_selectors, field_type_column, id_column, address_column,
  storage_key_hi_column, storage_key_lo_column, rw_id_column, is_write_column, value_hi_column,
  value_lo_column, bit_of,
}
use evm_assigner.Rw.Table.Key.{sort_key, IsInRange}

-- The columns that a circuit looks up, but OP.
abbrev pub lookup_columns : List ℕ
lookup_columns =
    id_column ∷ address_column ∷ storage_key_hi_column ∷ storage_key_lo_column ∷ rw_id_column
    ∷ is_write_column ∷ value_hi_column ∷ value_lo_column ∷ []

-- What an operation has in them: words by their upper and their lower 128 bits.
abbrev pub lookup_values : RwOperation → List ℕ
lookup_values a =
    a.id
    ∷ a.address
    ∷ a.storage_key / 2 ^ 128 % 2 ^ 128
    ∷ a.storage_key % 2 ^ 128
    ∷ a.rw_id
    ∷ (if a.is_write then 1 else 0)
    ∷ a.value / 2 ^ 128 % 2 ^ 128
    ∷ a.value % 2 ^ 128
    ∷ []

-- The last of the cells of a column, or `d`.
abbrev last_of : {F : Type 0} → List (ℕ × F) → ℕ → F → F
last_of [] c d = d
last_of ((column, v) ∷ cells) c d = last_of cells c (if c == column then v else d)

module _ {F : Type 0} (row : ℕ) where
  pub set_cells_self :
      (table : Table F) (cells : List (ℕ × F)) (c : ℕ)
      → set_cells table row cells c row ≡ last_of cells c (table c row)
  unfolding set_cells
  set_cells_self table [] c = refl
  set_cells_self table ((column, v) ∷ cells) c =
      set_cells_self (set_cell table column row v) cells c ∙ ap (last_of cells c) (ground arith)

  pub set_cells-other :
      (table : Table F) (cells : List (ℕ × F)) (c r : ℕ)
      → r ≢ row
      → set_cells table row cells c r ≡ table c r
  unfolding set_cells
  set_cells-other table [] c r ne = refl
  set_cells-other table ((column, v) ∷ cells) c r ne =
      set_cells-other (set_cell table column row v) cells c r ne ∙ ground arith

bit_of_lem : (b : Bool) → bit_of b ≡ (if b then 1 else 0)
bit_of_lem true = refl
bit_of_lem false = refl

-- A chunk cut out by a mask and shifted down.
chunk_lem :
    (n v : ℕ)
    → integral_shr (integral_and v (0xffff * 2 ^ (16 * n))) (16 * n) ≡ v / 2 ^ (16 * n) % 2 ^ 16
chunk_lem n v =
    rw (bit_and_shifted (16 * n) 0xffff v, bit_and_mask 16 (v / 2 ^ (16 * n)))
      (div-eq_of_eq-mul_left (one-le-pow (16 * n) 2 (omega arith)) refl)

low_chunk : (v : ℕ) → integral_and v 0xffff ≡ v / 2 ^ (16 * 0) % 2 ^ 16
low_chunk v = omega (arith, bit_and_mask 16 v)

-- The mask of a chunk, moved to the next one.
mask_next : (n : ℕ) → integral_shr (0xffff * 2 ^ (16 * suc n)) 16 ≡ 0xffff * 2 ^ (16 * n)
mask_next n = rw (pow_chunk n) (omega arith)

module _ {F : Type 0} ⦃field : Blueprint F⦄ where
  -- Numbers in consecutive chunk columns.
  abbrev number_cells : ℕ → List ℕ → List (ℕ × F)
  number_cells j [] = []
  number_cells j (x ∷ xs) = (chunks j, field.element x) ∷ number_cells (suc j) xs

  module _ ⦃intx : Intx⦄ (laws : IsIntx intx) (wide : 256 ≤ field.integral_bits) where
    word_chunk_cells-digits :
        (v j n : ℕ)
        → v < 2 ^ 256
        → word_chunk_cells v j (suc n) (0xffff * 2 ^ (16 * n)) ≡ number_cells j (digits (suc n) v)
    unfolding word_chunk_cells digits
    word_chunk_cells-digits v j zero fits =
        ap (λ (x : ℕ). (chunks j, field.element x) ∷ [])
          (ap (λ (x : ℕ). integral_shr x (16 * 0))
              (and_integral_lem laws field.integral_bits v (0xffff * 2 ^ (16 * 0)) wide fits)
            ∙ chunk_lem 0 v)
    word_chunk_cells-digits v j (suc n) fits =
        ap₂ ◌∷◌
          (ap (λ (x : ℕ). (chunks j, field.element x))
            (ap (λ (x : ℕ). integral_shr x (16 * suc n))
                (and_integral_lem laws field.integral_bits v (0xffff * 2 ^ (16 * suc n)) wide fits)
              ∙ chunk_lem (suc n) v))
          (rw (mask_next n) (word_chunk_cells-digits v (suc j) n fits))

    size_chunk_cells-digits : (v j : ℕ) → size_chunk_cells v j ≡ number_cells j (digits 2 v)
    unfolding size_chunk_cells digits
    size_chunk_cells-digits v j =
        rw (integral_fits 32 field.integral_bits (0xffff * 2 ^ 16) (omega arith) (omega arith)) (
          ap₂ (λ (x y : ℕ). (chunks j, field.element x) ∷ (chunks (suc j), field.element y) ∷ [])
            (chunk_lem 1 v) (low_chunk v))

    -- `static_cells` with the chunks as numbers.
    cells_as_numbers : RwOperation → List (ℕ × F)
    cells_as_numbers a =
        lookup_cells a
        ++ (bit_cells op_selectors a.op 0 4 (2 ^ 4)
            ++ (number_cells 0 (digits 2 a.id)
                ++ (number_cells 2 (digits 10 a.address)
                    ++ (number_cells 12 (digits 16 a.storage_key)
                        ++ number_cells 28 (digits 2 a.rw_id)))))

    static_cells-numbers : (a : RwOperation) → IsInRange a → static_cells a ≡ cells_as_numbers a
    unfolding static_cells cells_as_numbers
    static_cells-numbers a range =
        rw
          (
            integral_fits 160 field.integral_bits (0xffff * 2 ^ (16 * 9)) (omega arith)
                (omega arith),
            integral_fits 256 field.integral_bits (0xffff * 2 ^ (16 * 15)) wide (omega arith),
            size_chunk_cells-digits a.id 0,
            size_chunk_cells-digits a.rw_id 28,
            word_chunk_cells-digits a.address 2 9 (omega (arith, range.address_fits)),
            word_chunk_cells-digits a.storage_key 12 15 range.storage_key_fits,
          )
          refl

    -- For an operation in the ranges of its columns, in a row whose FIELD_TYPE cell is 0, the masks
    -- and shifts of the loop body leave in the sorting columns the operation and the 16-bit chunks
    -- of id, address, storage key and rw id, the most significant first. The integer type has at
    -- least 256 bits.
    pub static_cells-sort_key :
        (a : RwOperation) (table : Table F) (row : ℕ)
        → IsInRange a
        → table field_type_column row ≡ field.element 0
        → map (λ c. set_cells table row (static_cells a) c row) sorting
          ≡ map field.element (sort_key a)
    unfolding cells_as_numbers lookup_cells bit_cells sort_key digits
    static_cells-sort_key a table row range fresh =
        rw (static_cells-numbers a range)
          ((λ i. map (λ c. set_cells_self row table (cells_as_numbers a) c i) sorting) ∙ rw fresh)

    -- The same of the lookup columns but OP, which is the first of the sorting ones.
    pub static_cells-lookup :
        (a : RwOperation) (table : Table F) (row : ℕ)
        → IsInRange a
        → map (λ c. set_cells table row (static_cells a) c row) lookup_columns
          ≡ map field.element (lookup_values a)
    unfolding cells_as_numbers lookup_cells bit_cells digits
    static_cells-lookup a table row range = rw (static_cells-numbers a range) (
        (λ i. map (λ c. set_cells_self row table (cells_as_numbers a) c i) lookup_columns)
        ∙ rw
            (
              w_hi_mod laws field.integral_bits a.storage_key (omega (arith, wide)),
              w_lo_lem laws field.integral_bits a.storage_key (omega (arith, wide)),
              w_hi_mod laws field.integral_bits a.value (omega (arith, wide)),
              w_lo_lem laws field.integral_bits a.value (omega (arith, wide)),
              address_lem a.address range.address_fits,
              bit_of_lem a.is_write,
            )
            refl)
      where
        address_lem : (v : ℕ) → v < 2 ^ 160 → to_field_as_address field.integral_bits v ≡ v
        address_lem v fits =
            to_field_as_address_lem laws field.integral_bits v (omega (arith, wide)) ∙ omega arith
