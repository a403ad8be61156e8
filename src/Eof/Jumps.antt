-- ===== src/Eof/Jumps.antt =====
-- `validate_rjump_destinations` of lib/assigner/evmone/eof.cpp: relative jumps do not lead into
-- the immediates of instructions.
use evm_assigner.Base.{
  ℕ, zero, suc, ◌+◌, ◌*◌, ℤ, pos, pos_part, ◌+ℤ◌, is_neg, Bool, true, false, ◌&&◌, ◌||◌, ◌==◌, ltb,
  leb, if◌then◌else◌, Option, none, some, List, [], ◌∷◌, ◌++◌, length, get_or,
}
use evm_assigner.Traits.{traits}
use evm_assigner.Eof.{read_int16_be, rel_offset_size}
use evm_assigner.Eof.Code.{op_rjump_byte, op_rjumpi_byte, op_rjumpv_byte}

infixl 5 ◌>>=◌
abbrev pub ◌>>=◌ {ℓ κ} : {A : Type ℓ} {B : Type κ} → Option A → (A → Option B) → Option B
none >>= f = none
some a >>= f = f a

-- The destinations found, and the map of the immediates.
pub record JumpScan : Type 0 where
  pub rjumpdests : List ℕ
  pub immediate_map : ℕ → Bool

-- `fill_n` from `start` on.
abbrev pub fill_n {ℓ} : {A : Type ℓ} → (ℕ → A) → ℕ → ℕ → A → ℕ → A
fill_n map start n a k = if leb start k && ltb k (start + n) then a else map k

-- The bytes of immediates of an instruction, the table of RJUMPV included.
abbrev pub immediates : List ℕ → ℕ → ℕ
immediates code i =
    if get_or code i 0 == op_rjumpv_byte
    then (traits (get_or code i 0)).immediate_size + (get_or code (i + 1) 0 + 1) * rel_offset_size
    else (traits (get_or code i 0)).immediate_size

-- Where the offset at a place leads, from the position behind the instruction.
abbrev pub destination : List ℕ → ℕ → ℕ → ℤ
destination code place post_pos = pos post_pos +ℤ read_int16_be code place

module _ (code : List ℕ) where
  -- The destinations with the one of a jump, if it lies in the code.
  unfoldable pub check_rjump_destination : ℕ → ℕ → List ℕ → Option (List ℕ)
  check_rjump_destination place post_pos rjumpdests =
      let jumpdest = destination code place post_pos in
      if is_neg jumpdest || leb (length code) (pos_part jumpdest)
      then none
      else some (rjumpdests ++ (pos_part jumpdest ∷ []))

  -- The `n` entries of a table.
  unfoldable pub check_table : ℕ → ℕ → ℕ → List ℕ → Option (List ℕ)
  check_table zero place post_pos rjumpdests = some rjumpdests
  check_table (suc n) place post_pos rjumpdests = do
    rjumpdests ← check_rjump_destination place post_pos rjumpdests
    check_table n (place + rel_offset_size) post_pos rjumpdests

  unfoldable pub instruction_destinations : ℕ → List ℕ → Option (List ℕ)
  instruction_destinations i rjumpdests =
      let op = get_or code i 0 in
      if op == op_rjump_byte || op == op_rjumpi_byte
      then check_rjump_destination (i + 1) (i + rel_offset_size + 1) rjumpdests
      else if op == op_rjumpv_byte
      then check_table (get_or code (i + 1) 0 + 1) (i + 1 + 1) (i + 1 + immediates code i)
          rjumpdests
      else some rjumpdests

  -- The loop; every round moves `i` forward, so the size of the code is enough fuel.
  unfoldable pub scan_jumps : ℕ → ℕ → JumpScan → Option JumpScan
  scan_jumps zero i s = some s
  scan_jumps (suc fuel) i s = if leb (length code) i then some s else (do
    rjumpdests ← instruction_destinations i s.rjumpdests
    scan_jumps fuel (i + immediates code i + 1) record {
      rjumpdests = rjumpdests;
      immediate_map = fill_n s.immediate_map (i + 1) (immediates code i) true;
    })

unfoldable pub none_immediate : (ℕ → Bool) → List ℕ → Bool
none_immediate immediate_map [] = true
none_immediate immediate_map (d ∷ ds) =
    if immediate_map d then false else none_immediate immediate_map ds

abbrev pub empty_scan : JumpScan
empty_scan = record { rjumpdests = []; immediate_map = λ i. false }

-- The check behind the loop; a loop that has failed is `none`.
abbrev pub check_destinations : Option JumpScan → Bool
check_destinations none = false
check_destinations (some s) = none_immediate s.immediate_map s.rjumpdests

unfoldable pub validate_rjump_destinations : List ℕ → Bool
validate_rjump_destinations code = check_destinations (scan_jumps code (length code) 0 empty_scan)
