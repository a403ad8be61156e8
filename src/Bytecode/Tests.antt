-- ===== src/Bytecode/Tests.antt =====
-- The rows of the bytecode circuit, at a small code.
use evm_assigner.Base.{ℕ, ◌+◌, ◌≡◌, ◌↔◌, refl, arith, List, [], ◌∷◌, map}
use evm_assigner.Baseline.Jumpdests.{InstructionAt}
use evm_assigner.Bytecode.Rows.{bytecode_rows-InstructionAt}
use evm_assigner.Samples.{sample_intx, sample_field, sample_field-IsBlueprint}
use evm_assigner.Rw.Table.{Table, set_cells}
use evm_assigner.Bytecode.{
  process_bytecode_input, bytecode_rows, byte_rows, next_push_size, is_opcode_cell, hash_element,
  is_opcode,
}

abbrev empty_table : Table ℕ
empty_table column row = 0

-- A header byte of 4, then PUSH1 0x01, ADD, STOP.
abbrev code : List ℕ
code = 0x04 ∷ 0x60 ∷ 0x01 ∷ 0x01 ∷ 0x00 ∷ []

abbrev filled : Table ℕ
filled = process_bytecode_input ⦃field = sample_field⦄ (λ bytes. []) 0 5 code empty_table 7

opcode_column : map (filled is_opcode) (7 ∷ 8 ∷ 9 ∷ 10 ∷ 11 ∷ []) ≡ 0 ∷ 1 ∷ 0 ∷ 1 ∷ 1 ∷ []
unfolding process_bytecode_input bytecode_rows byte_rows next_push_size is_opcode_cell hash_element
    set_cells
opcode_column = refl

-- The ADD behind the data of the PUSH1.
bytecode_rows-InstructionAt_example :
    (bytecode_rows ⦃field = sample_field⦄ 0 0 7 empty_table code is_opcode (7 + 1 + 2) ≡ 1)
    ↔ InstructionAt (0x60 ∷ 0x01 ∷ 0x01 ∷ 0x00 ∷ []) 2
bytecode_rows-InstructionAt_example =
    bytecode_rows-InstructionAt ⦃field = sample_field⦄ ⦃intx = sample_intx⦄ sample_field-IsBlueprint
      0 0 7 empty_table 0x04 (0x60 ∷ 0x01 ∷ 0x01 ∷ 0x00 ∷ []) 2 (omega arith) (omega arith)
