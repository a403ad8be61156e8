-- ===== src/Eof/Rules.antt =====
-- What `validate_instructions` of lib/assigner/evmone/eof.cpp checks of the instruction at a place.
use evm_assigner.Base.{
  if-false, ℕ, zero, suc, ◌+◌, ◌*◌, ◌≤◌, ◌<◌, ◌≡◌, ◌⊎◌, sym, ap, ◌∙◌, arith, ℤ, Bool, false, ◌==◌,
  leb, if◌then◌else◌, inl, inr, List, length, get_or,
}
use mathlib.Core.Path.{subst}
use evm_assigner.Traits.{traits}
use evm_assigner.Eof.{
  valid, EofCodeType, read_uint16_be, non_returning_function, undefined_instruction,
  truncated_instruction,
}
use evm_assigner.Eof.Inversion.{fail_if-eq-valid, >>=-eq-valid}
use evm_assigner.Eof.Code.{
  op_rjumpv_byte, op_callf_byte, op_retf_byte, op_jumpf_byte, op_dataloadn_byte, is_undefined,
  type_of, validate_instruction, validate_operands, scan_instructions,
}
use evm_assigner.Eof.Jumps.{immediates}
use evm_assigner.Eof.Starts.{Starts, Starts-le, Starts-lt}

-- The sizes of the immediates of the instructions that are treated apart.
two_bytes :
    (op : ℕ)
    → (op ≡ op_callf_byte) ⊎ (op ≡ op_jumpf_byte) ⊎ (op ≡ op_dataloadn_byte)
    → (traits op).immediate_size ≡ 2
unfolding traits
two_bytes op (inl e) = ap (λ n. (traits n).immediate_size) e
two_bytes op (inr (inl e)) = ap (λ n. (traits n).immediate_size) e
two_bytes op (inr (inr e)) = ap (λ n. (traits n).immediate_size) e

no_byte : (op : ℕ) → op ≡ op_retf_byte → (traits op).immediate_size ≡ 0
unfolding traits
no_byte op e = ap (λ n. (traits n).immediate_size) e

one_byte : (op : ℕ) → op ≡ op_rjumpv_byte → (traits op).immediate_size ≡ 1
unfolding traits
one_byte op e = ap (λ n. (traits n).immediate_size) e

-- The bytes of immediates behind an opcode.
abbrev operand_size : List ℕ → ℕ → ℕ → ℕ
operand_size code i op =
    if op == op_rjumpv_byte
    then (traits op).immediate_size + (get_or code (i + 1) 0 + 1) * 2
    else (traits op).immediate_size

module _ (cost_table : ℕ → ℤ) (types : List EofCodeType) (data_size : ℕ) (code : List ℕ) where
  -- The instruction is defined, its immediates lie in the code, and what they name exists.
  pub record Rules (i : ℕ) : Type 0 where
    pub defined : is_undefined (cost_table (get_or code i 0)) ≡ false
    pub complete : i + immediates code i < length code
    pub callf :
        get_or code i 0 ≡ op_callf_byte
        → (read_uint16_be code (i + 1) < length types)
          × ((type_of types (read_uint16_be code (i + 1))).outputs == non_returning_function
              ≡ false)
    pub jumpf : get_or code i 0 ≡ op_jumpf_byte → read_uint16_be code (i + 1) < length types
    pub dataloadn :
        get_or code i 0 ≡ op_dataloadn_byte → read_uint16_be code (i + 1) + 32 ≤ data_size

  -- The rules with the opcode `op` apart, and `last` for the last byte.
  abbrev Operands : ℕ → ℕ → ℕ → Type 0
  Operands op i last =
      (last ≡ i + operand_size code i op)
      × (i + operand_size code i op < length code)
      × (op ≡ op_callf_byte
          → (read_uint16_be code (i + 1) < length types)
            × ((type_of types (read_uint16_be code (i + 1))).outputs == non_returning_function
                ≡ false))
      × (op ≡ op_jumpf_byte → read_uint16_be code (i + 1) < length types)
      × (op ≡ op_dataloadn_byte → read_uint16_be code (i + 1) + 32 ≤ data_size)

  validate_operands-Operands :
      (op i : ℕ) (is_returning : Bool) (next : ℕ × Bool)
      → i + (traits op).immediate_size < length code
      → validate_operands cost_table types data_size code op i is_returning ≡ valid next
      → Operands op i next.0
  unfolding validate_operands
  validate_operands-Operands op i is_returning next whole e =
      let two = two_bytes op in
      (
        ground (arith, two, one_byte op, no_byte op),
        ground (arith, two, one_byte op, no_byte op),
        λ named. ground arith,
        λ named. ground arith,
        λ named. ground arith,
      )

  validate_instruction-Rules :
      (i : ℕ) (is_returning : Bool) (next : ℕ × Bool)
      → validate_instruction cost_table types data_size code i is_returning ≡ valid next
      → Rules i × (next.0 ≡ i + immediates code i)
  unfolding validate_instruction
  validate_instruction-Rules i is_returning next e =
      let op = get_or code i 0 in
      let (defined, e1) =
        fail_if-eq-valid (is_undefined (cost_table op)) undefined_instruction _ e in
      let (whole, e2) =
        fail_if-eq-valid (leb (length code) (i + (traits op).immediate_size)) truncated_instruction
          _ e1 in
      let (last, complete, callf, jumpf, dataloadn) =
        validate_operands-Operands op i is_returning next (ground arith) e2 in
      (
        record {
          defined = defined;
          complete = complete;
          callf = callf;
          jumpf = jumpf;
          dataloadn = dataloadn;
        },
        last,
      )

  -- A round of the loop.
  scan_round :
      (fuel i : ℕ) (is_returning result : Bool)
      → i < length code
      → scan_instructions cost_table types data_size code (suc fuel) i is_returning ≡ valid result
      → Rules i
        × ((returns : Bool) × (scan_instructions cost_table types data_size code fuel
                (i + immediates code i + 1)
                returns
              ≡ valid result))
  unfolding scan_instructions
  scan_round fuel i is_returning result inside e =
      let round = validate_instruction cost_table types data_size code i is_returning in
      let (next, read, rest) =
        >>=-eq-valid round _
          (sym (if-false (leb (length code) i) (valid is_returning) _ (ground arith)) ∙ e) in
      let (rules, last) = validate_instruction-Rules i is_returning next read in
      (
        rules,
        (
          next.1,
          subst
              (λ n.
                scan_instructions cost_table types data_size code fuel (n + 1) next.1
                ≡ valid result)
              last rest,
        ),
      )

  -- The loop checks the instructions from `i` on.
  pub scan_instructions-Rules :
      (fuel i : ℕ) (is_returning result : Bool) (j : ℕ)
      → length code ≤ i + fuel
      → scan_instructions cost_table types data_size code fuel i is_returning ≡ valid result
      → Starts code i j
      → Rules j
  scan_instructions-Rules zero i is_returning result j enough e p =
      absurd (omega (arith, Starts-le code i j p, Starts-lt code i j p))
  scan_instructions-Rules (suc fuel) i is_returning result j enough e (Starts.here _ inside) =
      (scan_round fuel i is_returning result inside e).0
  scan_instructions-Rules (suc fuel) i is_returning result j enough e (Starts.later _ _ inside p) =
      let (returns, rest) = (scan_round fuel i is_returning result inside e).1 in
      scan_instructions-Rules fuel (i + immediates code i + 1) returns result j
        (omega (arith, enough)) rest p
