-- ===== src/Bytecode.antt =====
-- lib/assigner/include/bytecode.hpp: `process_bytecode_input` writes the bytes of a code into the
-- witness columns of the bytecode circuit. The first byte is taken for the header row. The keccak
-- hash is not in the repository: it is a parameter, the characters of its hexadecimal digits.
pub mod Starts
pub mod Rows
mod Tests
use evm_assigner.Base.{
  ℕ, zero, suc, ◌+◌, ◌-◌, ◌%◌, ◌^◌, Bool, ◌&&◌, leb, ltb, if◌then◌else◌, List, [], ◌∷◌, ◌++◌,
  length, take, drop,
}
use evm_assigner.Blueprint.{Blueprint}
use evm_assigner.Rw.Table.{Table, set_cells}

abbrev pub tag : ℕ
tag = 0

abbrev pub index : ℕ
index = 1

abbrev pub value : ℕ
value = 2

abbrev pub is_opcode : ℕ
is_opcode = 3

abbrev pub push_size_column : ℕ
push_size_column = 4

abbrev pub length_left : ℕ
length_left = 5

abbrev pub hash_hi_column : ℕ
hash_hi_column = 6

abbrev pub hash_lo_column : ℕ
hash_lo_column = 7

abbrev pub value_rlc : ℕ
value_rlc = 8

abbrev pub rlc_challenge_column : ℕ
rlc_challenge_column = 9

-- The rows are numbered by `uint32_t`.
abbrev pub row_of : ℕ → ℕ → ℕ
row_of start_row_index cur = (start_row_index + cur) % 2 ^ 32

-- The hexadecimal digit of a character from '0' to '9' or from 'a' on.
abbrev digit_of : ℕ → ℕ
digit_of c = if leb 48 c && leb c 57 then c - 48 else c + 10 - 97

-- The byte opens a PUSH instruction with data.
abbrev pub opens_push : ℕ → Bool
opens_push byte = ltb 0x5f byte && ltb byte 0x80

-- `size_t` arithmetic.
abbrev pub one_less : ℕ → ℕ
one_less prev_length = (prev_length + 2 ^ 64 - 1) % 2 ^ 64

module _ {F : Type 0} ⦃field : Blueprint F⦄ where
  -- The number of a string of digits, from the value the element starts with.
  unfoldable pub hash_element : F → List ℕ → F
  hash_element h [] = h
  hash_element h (c ∷ str) =
      hash_element (field.add (field.mul h (field.element 16)) (field.element (digit_of c))) str

  abbrev pub rlc_challenge : F
  rlc_challenge = field.element 15

  -- What every row holds.
  abbrev pub common_cells : F → F → ℕ → List (ℕ × F)
  common_cells hash_hi hash_lo byte =
      (value, field.element byte)
      ∷ (hash_hi_column, hash_hi)
      ∷ (hash_lo_column, hash_lo)
      ∷ (rlc_challenge_column, rlc_challenge)
      ∷ []

  abbrev pub header_cells : ℕ → List (ℕ × F)
  header_cells byte =
      (tag, field.element 0)
      ∷ (index, field.element 0)
      ∷ (is_opcode, field.element 0)
      ∷ (push_size_column, field.element 0)
      ∷ (length_left, field.element byte)
      ∷ (value_rlc, field.element 0)
      ∷ []

  -- The variable `push_size` after a byte, and the cell of IS_OPCODE.
  unfoldable pub next_push_size : F → ℕ → F
  next_push_size push_size byte =
      if field.eqb push_size (field.element 0)
      then (if opens_push byte then field.element (byte - 0x5f) else push_size)
      else field.sub push_size (field.element 1)

  unfoldable pub is_opcode_cell : F → F
  is_opcode_cell push_size =
      if field.eqb push_size (field.element 0) then field.element 1 else field.element 0

  abbrev pub byte_cells : ℕ → ℕ → F → F → ℕ → List (ℕ × F)
  byte_cells j prev_length prev_vrlc push_size byte =
      (tag, field.element 1)
      ∷ (index, field.element (j - 1))
      ∷ (length_left, field.element (one_less prev_length))
      ∷ (is_opcode, is_opcode_cell push_size)
      ∷ (push_size_column, next_push_size push_size byte)
      ∷ (value_rlc, field.add (field.mul prev_vrlc rlc_challenge) (field.element byte))
      ∷ []

  module _ (hash_hi hash_lo : F) (start_row_index : ℕ) where
    -- The rounds of the loop from `j`, which is not 0, on; `cur` is `j`.
    unfoldable pub byte_rows : Table F → ℕ → ℕ → F → F → List ℕ → Table F
    byte_rows table j prev_length prev_vrlc push_size [] = table
    byte_rows table j prev_length prev_vrlc push_size (byte ∷ bytecode) =
        byte_rows
          (set_cells table (row_of start_row_index j) (
            common_cells hash_hi hash_lo byte ++ byte_cells j prev_length prev_vrlc push_size byte))
          (suc j) (one_less prev_length)
          (field.add (field.mul prev_vrlc rlc_challenge) (field.element byte))
          (next_push_size push_size byte) bytecode

    -- The loop.
    unfoldable pub bytecode_rows : Table F → List ℕ → Table F
    bytecode_rows table [] = table
    bytecode_rows table (byte ∷ bytecode) =
        byte_rows
          (set_cells table (row_of start_row_index 0)
            (common_cells hash_hi hash_lo byte ++ header_cells byte))
          1 byte (field.element 0) (field.element 0) bytecode

  -- `initial` is what a new `value_type` holds; the string has 32 digits or more.
  unfoldable pub process_bytecode_input : (List ℕ → List ℕ) → F → ℕ → List ℕ → Table F → ℕ → Table F
  process_bytecode_input keccak initial original_code_size code bytecode_table start_row_index =
      let bytecode = take original_code_size code in
      let hash = keccak bytecode in
      bytecode_rows (hash_element initial (take (length hash - 32) hash))
        (hash_element initial (take 32 (drop (length hash - 32) hash))) start_row_index
        bytecode_table bytecode
