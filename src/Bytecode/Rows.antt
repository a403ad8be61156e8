-- ===== src/Bytecode/Rows.antt =====
-- The column IS_OPCODE of the bytecode circuit (lib/assigner/include/bytecode.hpp) against the
-- places of the instructions.
use evm_assigner.Base.{
  if-true, if-false, ℕ, zero, suc, ◌+◌, ◌^◌, ◌≤◌, ◌<◌, ◌≡◌, ◌↔◌, refl, sym, ap, ◌∙◌, arith, Bool,
  true, false, List, [], ◌∷◌, ◌++◌, get_or, length,
}
use native.Mathlib.Nat.{mod-eq_of_lt}
use evm_assigner.Blueprint.{Blueprint, IsBlueprint}
use evm_assigner.Intx.{Intx}
use evm_assigner.Rw.Table.{Table, set_cells}
use evm_assigner.Rw.Table.Rows.{eqb_element}
use evm_assigner.Rw.Table.Cells.{set_cells_self, set_cells-other}
use evm_assigner.Baseline.Jumpdests.{InstructionAt}
use evm_assigner.Bytecode.{
  row_of, next_push_size, is_opcode_cell, one_less, rlc_challenge, common_cells, byte_cells,
  byte_rows, bytecode_rows, is_opcode, header_cells,
}
use evm_assigner.Bytecode.Starts.{
  starts_from, next_skip, starts_at, starts_from-next, starts_from-first, at_instruction,
  start_instruction,
}

abbrev bit : Bool → ℕ
bit true = 1
bit false = 0

next_skip-lt : (skip byte : ℕ) → skip < 2 ^ 128 → next_skip skip byte < 2 ^ 128
next_skip-lt zero byte small = ground arith
next_skip-lt (suc skip) byte small = omega (arith, small)

inside : (n size : ℕ) → n + suc size ≤ 2 ^ 32 → n < 2 ^ 32
inside n size fits = omega (arith, fits)

module _ {F : Type 0} ⦃field : Blueprint F⦄ ⦃intx : Intx⦄ (laws : IsBlueprint field) where
  -- The counter is that of the bytes of data still to come.
  next_push_size-element :
      (skip byte : ℕ)
      → skip < 2 ^ 128
      → next_push_size (field.element skip) byte ≡ field.element (next_skip skip byte)
  unfolding next_push_size
  next_push_size-element zero byte small = if-true _ _ _ ((laws.eqb_iff _ _).1 refl) ∙ ground arith
  next_push_size-element (suc skip) byte small =
      if-false _ _ _ (eqb_element laws (suc skip) 0 small (omega arith) ∙ ground arith)
      ∙ laws.sub-element (suc skip) 1 (omega arith)
      ∙ ap field.element (omega arith)

  is_opcode_cell-element :
      (skip : ℕ)
      → skip < 2 ^ 128
      → is_opcode_cell (field.element skip) ≡ field.element (bit (starts_at skip))
  unfolding is_opcode_cell
  is_opcode_cell-element zero small = if-true _ _ _ ((laws.eqb_iff _ _).1 refl)
  is_opcode_cell-element (suc skip) small =
      if-false _ _ _ (eqb_element laws (suc skip) 0 small (omega arith) ∙ ground arith)

  module _ (hi lo : F) (start : ℕ) where
    abbrev row_written : Table F → ℕ → ℕ → F → F → ℕ → Table F
    row_written table j prev_length prev_vrlc push byte =
        set_cells table (row_of start j)
          (common_cells hi lo byte ++ byte_cells j prev_length prev_vrlc push byte)

    abbrev next_vrlc : F → ℕ → F
    next_vrlc prev_vrlc byte = field.add (field.mul prev_vrlc rlc_challenge) (field.element byte)

    -- Rows of bytes leave the rows before them as they are.
    byte_rows-before :
        (table : Table F) (j prev_length : ℕ) (prev_vrlc push : F) (bytecode : List ℕ) (c r : ℕ)
        → r < start + j
        → start + j + length bytecode ≤ 2 ^ 32
        → byte_rows hi lo start table j prev_length prev_vrlc push bytecode c r ≡ table c r
    unfolding byte_rows
    byte_rows-before table j prev_length prev_vrlc push [] c r before fits = refl
    byte_rows-before table j prev_length prev_vrlc push (byte ∷ bytecode) c r before fits =
        byte_rows-before (row_written table j prev_length prev_vrlc push byte) (suc j)
          (one_less prev_length) (next_vrlc prev_vrlc byte) (next_push_size push byte) bytecode c r
          (omega (arith, before)) (omega (arith, fits))
        ∙ set_cells-other (row_of start j) table _ c r (λ e.
          omega (arith, before, fits, e, mod-eq_of_lt (inside (start + j) (length bytecode) fits)))

    -- The row of the byte at `j` holds the cells that its round writes.
    byte_rows-first :
        (table : Table F) (j prev_length : ℕ) (prev_vrlc push : F) (byte : ℕ) (bytecode : List ℕ)
        (c : ℕ)
        → start + j + suc (length bytecode) ≤ 2 ^ 32
        → byte_rows hi lo start table j prev_length prev_vrlc push (byte ∷ bytecode) c (start + j)
          ≡ set_cells table
              (row_of start j)
              (common_cells hi lo byte ++ byte_cells j prev_length prev_vrlc push byte)
              c
              (row_of start j)
    unfolding byte_rows
    byte_rows-first table j prev_length prev_vrlc push byte bytecode c fits =
        byte_rows-before (row_written table j prev_length prev_vrlc push byte) (suc j)
          (one_less prev_length) (next_vrlc prev_vrlc byte) (next_push_size push byte) bytecode c
          (start + j) (omega arith) (omega (arith, fits))
        ∙ ap (set_cells table (row_of start j) _ c)
            (sym (mod-eq_of_lt (inside (start + j) (length bytecode) fits)))

    byte_rows-step :
        (table : Table F) (j prev_length : ℕ) (prev_vrlc push : F) (byte : ℕ) (bytecode : List ℕ)
        → byte_rows hi lo start table j prev_length prev_vrlc push (byte ∷ bytecode)
          ≡ byte_rows hi lo start
              (row_written table j prev_length prev_vrlc push byte)
              (suc j)
              (one_less prev_length)
              (next_vrlc prev_vrlc byte)
              (next_push_size push byte)
              bytecode
    unfolding byte_rows
    byte_rows-step table j prev_length prev_vrlc push byte bytecode = refl

    -- The cell of IS_OPCODE in the row of each byte.
    byte_rows-is_opcode :
        (table : Table F) (j prev_length : ℕ) (prev_vrlc : F) (skip : ℕ) (bytecode : List ℕ) (k : ℕ)
        → skip < 2 ^ 128
        → k < length bytecode
        → start + j + length bytecode ≤ 2 ^ 32
        → byte_rows hi lo start table j prev_length prev_vrlc
            (field.element skip)
            bytecode
            is_opcode
            (start + j + k)
          ≡ field.element (bit (get_or (starts_from skip bytecode) k false))
    byte_rows-is_opcode table j prev_length prev_vrlc skip [] k small less fits =
        absurd (omega (arith, less))
    byte_rows-is_opcode table j prev_length prev_vrlc skip (byte ∷ bytecode) zero small less fits =
        ap
          (byte_rows hi lo start table j prev_length prev_vrlc (field.element skip)
            (byte ∷ bytecode) is_opcode)
          (first_place (start + j))
        ∙ byte_rows-first table j prev_length prev_vrlc (field.element skip) byte bytecode is_opcode
            fits
        ∙ set_cells_self (row_of start j) table _ is_opcode
        ∙ is_opcode_cell-element skip small
        ∙ ap (λ b. field.element (bit b)) (sym (starts_from-first skip byte bytecode))
      where
        first_place : (n : ℕ) → n + 0 ≡ n
        first_place n = omega arith
    byte_rows-is_opcode table j prev_length prev_vrlc skip (byte ∷ bytecode) (suc k) small less
          fits =
        let after = row_written table j prev_length prev_vrlc (field.element skip) byte in
        ap
          (byte_rows hi lo start table j prev_length prev_vrlc (field.element skip)
            (byte ∷ bytecode) is_opcode)
          (next_place (start + j))
        ∙ ap (λ t. t is_opcode (start + suc j + k))
            (byte_rows-step table j prev_length prev_vrlc (field.element skip) byte bytecode)
        ∙ ap
            (λ push.
              byte_rows hi lo start after (suc j) (one_less prev_length) (next_vrlc prev_vrlc byte)
                push bytecode is_opcode (start + suc j + k))
            (next_push_size-element skip byte small)
        ∙ byte_rows-is_opcode after (suc j) (one_less prev_length) (next_vrlc prev_vrlc byte)
            (next_skip skip byte) bytecode k (next_skip-lt skip byte small) (omega (arith, less))
            (omega (arith, fits))
        ∙ ap (λ b. field.element (bit b)) (sym (starts_from-next skip byte bytecode k))
      where
        next_place : (n : ℕ) → start + j + suc k ≡ start + suc j + k
        next_place n = omega arith

module _ {F : Type 0} ⦃field : Blueprint F⦄ ⦃intx : Intx⦄ where
  bit-true : IsBlueprint field → (b : Bool) → field.element (bit b) ≡ field.element 1 → b ≡ true
  bit-true laws true e = refl
  bit-true laws false e =
      absurd (omega (arith, laws.element-injective 0 1 (omega arith) (omega arith) e))

  -- For a code with one byte before `bytes`, and rows that are numbered below 2 ^ 32, the bytecode
  -- circuit marks in the column IS_OPCODE exactly the rows of the bytes at which an instruction of
  -- `bytes` starts: those of push data are not marked.
  pub bytecode_rows-InstructionAt :
      IsBlueprint field
      → (hi lo : F) (start : ℕ) (table : Table F) (header : ℕ) (bytes : List ℕ) (k : ℕ)
      → k < length bytes
      → start + 1 + length bytes ≤ 2 ^ 32
      → (bytecode_rows hi lo start table (header ∷ bytes) is_opcode (start + 1 + k)
          ≡ field.element 1)
        ↔ InstructionAt bytes k
  unfolding bytecode_rows
  bytecode_rows-InstructionAt laws hi lo start table header bytes k less fits =
      let cell =
        byte_rows-is_opcode laws hi lo start
          (set_cells table (row_of start 0) (common_cells hi lo header ++ header_cells header)) 1
          header (field.element 0) 0 bytes k (omega arith) less fits in
      (
        λ marked.
            start_instruction (length bytes) bytes k (omega arith)
              (bit-true laws (get_or (starts_from 0 bytes) k false) (sym cell ∙ marked)),
        λ p. cell ∙ ap (λ b. field.element (bit b)) (at_instruction bytes k p),
      )
