-- ===== src/Opcode/Codes.antt =====
-- The opcodes that the machine knows, and the bytes that stand for none.
use evm_assigner.Base.{
  List, [], ◌∷◌, ltb, ℕ, suc, ◌<◌, ◌≤◌, ◌≡◌, refl, arith, ◌==◌, Bool, true, ◌&&◌, zero, none, some,
}
use evm_assigner.Opcode.{Opcode, opcode_byte, decode, find_byte, plain_opcodes}

-- A test on all numbers below a bound, by evaluation.
unfoldable pub holds_below : ℕ → (ℕ → Bool) → Bool
holds_below zero test = true
holds_below (suc bound) test = holds_below bound test && test bound

pub holds_below_lem :
    (bound : ℕ) (test : ℕ → Bool) (i : ℕ)
    → i < bound
    → holds_below bound test ≡ true
    → test i ≡ true
unfolding holds_below
holds_below_lem zero test i low h = absurd (omega arith)
holds_below_lem (suc bound) test i low h = ground (arith, holds_below_lem bound test i)

-- The number of a family is one that the enumeration has.
abbrev pub IsOpcode : Opcode → Type 0
IsOpcode (Opcode.op_push n) = (1 ≤ n) × (n ≤ 32)
IsOpcode (Opcode.op_dup n) = (1 ≤ n) × (n ≤ 16)
IsOpcode (Opcode.op_swap n) = (1 ≤ n) × (n ≤ 16)
IsOpcode (Opcode.op_log n) = n ≤ 4
IsOpcode _ = Unit {0}

-- A byte is the byte of the opcode that it decodes to.
decodes_back : ℕ → Bool
decodes_back b = elim (decode b) [ none ↦ true | some o ↦ opcode_byte o == b ]

decodes_back_table : holds_below 256 decodes_back ≡ true
unfolding holds_below decodes_back decode opcode_byte
decodes_back_table = refl

-- A byte that decodes to an opcode is the byte of that opcode.
opcode_byte-decode : (b : ℕ) (o : Opcode) → b < 256 → decode b ≡ some o → opcode_byte o ≡ b
unfolding decodes_back
opcode_byte-decode b o h e = ground (arith, holds_below_lem 256 decodes_back b h decodes_back_table)

are_bytes : List Opcode → Bool
are_bytes [] = true
are_bytes (o ∷ opcodes) = ltb (opcode_byte o) 256 && are_bytes opcodes

find_byte-none :
    (b : ℕ) (opcodes : List Opcode)
    → 256 ≤ b
    → are_bytes opcodes ≡ true
    → find_byte b opcodes ≡ none
unfolding find_byte are_bytes
find_byte-none b [] big h = refl
find_byte-none b (o ∷ opcodes) big h = ground (arith, find_byte-none b opcodes big)

are_bytes_table : are_bytes plain_opcodes ≡ true
unfolding are_bytes opcode_byte
are_bytes_table = refl

-- A number that is no byte stands for no opcode.
pub decode-none : (b : ℕ) → 256 ≤ b → decode b ≡ none
unfolding decode
decode-none b big = ground (arith, find_byte-none b plain_opcodes big are_bytes_table)
