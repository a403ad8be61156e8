-- ===== src/Eof/Total.antt =====
-- `validate_eof` of lib/assigner/evmone/eof.cpp as a whole: what each code section has passed, and
-- that the validation comes to an end.
use evm_assigner.Base.{
  ℕ, zero, suc, ◌+◌, ◌<◌, ◌≡◌, ◌≢◌, refl, sym, ap, arith, Bool, true, false, not, ◌==◌, inl, inr,
  Option, none, some, ℤ, List, length, get_or, if◌then◌else◌, ltb, Option-cases, ◌||◌,
}
use mathlib.Core.Path.{subst}
use mathlib.Core.Option.{none-ne-some, some-injective}
use evm_assigner.Revision.{Revision, rank, prague}
use evm_assigner.Gas.Table.{get_baseline_cost_table}
use evm_assigner.Eof.{
  invalid_prefix, eof_version_unknown, EofValidationError, Validated, valid, fail_if, map_some,
  Eof1Header, EofCodeType, EofSectionHeaders, eof_header_size, get_code, default_type,
  non_returning_function, invalid_first_section_type, invalid_rjump_destination, is_eof_container,
  get_eof_version,
}
use evm_assigner.Eof.Inversion.{
  fail_if-eq-valid, >>=-eq-valid, valid-injective, and_then-eq-none, invalid-ne-valid,
}
use evm_assigner.Eof.Headers.{validate_eof_headers, front}
use evm_assigner.Eof.Types.{validate_types, read_types, check_types, steps_of_4}
use evm_assigner.Eof.Code.{scan_instructions, validate_instructions, type_of}
use evm_assigner.Eof.Jumps.{validate_rjump_destinations}
use evm_assigner.Eof.StackHeight.{validate_max_stack_height}
use evm_assigner.Eof.Validate.{
  header_of, error_of, read_header, check_height, validate_section, validate_sections,
  validate_eof1, validate_eof,
}
use evm_assigner.Eof.Starts.{Starts}
use evm_assigner.Eof.Rules.{Rules, scan_instructions-Rules}
use evm_assigner.Eof.Marks.{validate_rjump_destinations-Starts}
use evm_assigner.Eof.Covers.{check_types-IsBounded}
use evm_assigner.Eof.Terminates.{validate_max_stack_height-some}
use evm_assigner.Eof.Sections.{validate_eof_headers_sound}
use evm_assigner.Eof.Bodies.{get_code-more}

-- When validate_instructions succeeds for a code section, every instruction of it (the first one
-- stands at 0, the next ones behind the immediates of the ones before) has an opcode that the
-- revision defines for EOF code and immediates that lie in the section; a CALLF names a section of
-- the header that returns, a JUMPF a section of the header, and a DATALOADN 32 bytes of the
-- declared data.
pub validate_instructions-Rules :
    (rev : Revision) (header : Eof1Header) (code_idx : ℕ) (container : List ℕ) (i : ℕ)
    → validate_instructions rev header code_idx container ≡ valid tt
    → Starts (get_code header container code_idx) 0 i
    → Rules
        (get_baseline_cost_table rev 1)
        header.types
        header.data_size
        (get_code header container code_idx)
        i
unfolding validate_instructions
validate_instructions-Rules rev header code_idx container i e p =
    let code = get_code header container code_idx in
    let (result, scanned, _) =
      >>=-eq-valid
        (scan_instructions (get_baseline_cost_table rev 1) header.types header.data_size code
          (length code) 0 false)
        _ e in
    scan_instructions-Rules (get_baseline_cost_table rev 1) header.types header.data_size code
      (length code) 0 false result i (omega arith) scanned p

section-some :
    (rev : Revision) (header : Eof1Header) (code_idx : ℕ) (container : List ℕ)
    → 0 < length (get_code header container code_idx)
    → check_types header.types ≡ valid tt
    → validate_section rev header code_idx container ≢ none
unfolding validate_section
section-some rev header code_idx container more bounded e =
    let code = get_code header container code_idx in
    elim (and_then-eq-none (some (validate_instructions rev header code_idx container)) _ e) [
      | inl out ↦ none-ne-some _ (sym out)
      | inr (_, instructions, e1) ↦
          elim (and_then-eq-none
            (some (fail_if (not (validate_rjump_destinations code)) invalid_rjump_destination)) _
            e1) [
              | inl out ↦ none-ne-some _ (sym out)
              | inr (_, jumps, e2) ↦
                  let rules = λ (i : ℕ) (p : Starts code 0 i).
                    validate_instructions-Rules rev header code_idx container i
                      (some-injective _ _ instructions) p in
                  validate_max_stack_height-some code code_idx header.types
                    (λ i place post_pos p offset.
                      (validate_rjump_destinations-Starts code i place post_pos
                        (passed (validate_rjump_destinations code) (some-injective _ _ jumps)) p
                        offset).1)
                    (λ i p called.
                      let (known, returns) = (rules i p).callf called in
                      (check_types-IsBounded header.types _ bounded known, returns))
                    more (no_heights (validate_max_stack_height code code_idx header.types) e2)
            ]
    ]
  where
    no_heights :
        (r : Option (Validated ℤ))
        → map_some (check_height (type_of header.types code_idx).max_stack_height) r ≡ none
        → r ≡ none
    no_heights none e = refl
    no_heights (some r) e = absurd (none-ne-some _ (sym e))

    passed :
        (accepted : Bool)
        → fail_if (not accepted) invalid_rjump_destination ≡ valid tt
        → accepted ≡ true
    passed true e = refl
    passed false e = absurd (invalid-ne-valid e)

read_header-parts :
    (container : List ℕ) (header : Eof1Header)
    → read_header container ≡ valid header
    → (headers : EofSectionHeaders) × (types : List EofCodeType) × (validate_eof_headers container
        ≡ valid headers)
      × (check_types types ≡ valid tt)
      × (header_of container headers types ≡ header)
unfolding read_header validate_types
read_header-parts container header e =
    let (headers, validated, e1) = >>=-eq-valid (validate_eof_headers container) _ e in
    let (types, checked, e2) =
      >>=-eq-valid (validate_types container (eof_header_size headers) (front headers.type_sizes)) _
        e1 in
    let read =
      read_types (steps_of_4 (front headers.type_sizes)) container (eof_header_size headers) in
    let first = get_or read 0 default_type in
    let (_, e3) =
      fail_if-eq-valid (not (first.inputs == 0) || not (first.outputs == non_returning_function))
        invalid_first_section_type _ checked in
    let (_, bounded, e4) = >>=-eq-valid (check_types read) _ e3 in
    (
      headers,
      types,
      validated,
      subst (λ ts. check_types ts ≡ valid tt) (valid-injective e4) bounded,
      valid-injective e2,
    )

sections-some :
    (rev : Revision) (header : Eof1Header) (container : List ℕ) (n code_idx : ℕ)
    → ((k : ℕ) → k < code_idx + n → 0 < length (get_code header container k))
    → check_types header.types ≡ valid tt
    → validate_sections rev header container n code_idx ≢ none
unfolding validate_sections
sections-some rev header container zero code_idx more bounded e = none-ne-some _ (sym e)
sections-some rev header container (suc n) code_idx more bounded e =
    elim (and_then-eq-none (validate_section rev header code_idx container) _ e) [
      | inl out ↦
          section-some rev header code_idx container (more code_idx (omega arith)) bounded out
      | inr (_, _, rest) ↦
          sections-some rev header container n (code_idx + 1)
            (λ k less. more k (omega (arith, less))) bounded rest
    ]

eof1-some : (rev : Revision) (container : List ℕ) → validate_eof1 rev container ≢ none
unfolding validate_eof1
eof1-some rev container e = elim (and_then-eq-none (some (read_header container)) _ e) [
  | inl out ↦ none-ne-some _ (sym out)
  | inr (header, read, e1) ↦
      let (headers, types, validated, bounded, same) =
        read_header-parts container header (some-injective _ _ read) in
      let form = validate_eof_headers_sound container headers validated in
      elim (and_then-eq-none (validate_sections rev header container (length header.code_sizes) 0) _
        e1) [
          | inl out ↦
              sections-some rev (header_of container headers types) container
                (length headers.all_code_sizes) 0
                (λ k less. get_code-more container headers form types k (omega (arith, less)))
                bounded
                (subst
                  (λ (h : Eof1Header).
                    validate_sections rev h container (length h.code_sizes) 0 ≡ none)
                  (sym same) out)
          | inr (_, _, rest) ↦ none-ne-some _ (sym rest)
        ]
]

-- The tests of validate_eof and the validation behind them.
branches :
    (other_prefix version_1 early : Bool) {m : Option EofValidationError}
    (error : EofValidationError)
    → m ≡ some error
    → (error : EofValidationError) × ((if other_prefix
          then some invalid_prefix
          else if version_1
          then (if early then some eof_version_unknown else m)
          else some eof_version_unknown)
        ≡ some error)
branches true version_1 early error e = (invalid_prefix, refl)
branches false true true error e = (eof_version_unknown, refl)
branches false true false error e = (error, e)
branches false false early error e = (eof_version_unknown, refl)

-- The validation of an EOF container comes to an end for every revision and every container, also
-- one that is not valid: fuel of the size of a code section is enough for the worklist of
-- validate_max_stack_height whenever the validations before it have accepted the section.
pub validate_eof-terminates :
    (rev : Revision) (container : List ℕ)
    → (error : EofValidationError) × (validate_eof rev container ≡ some error)
unfolding validate_eof
validate_eof-terminates rev container = elim (Option-cases (validate_eof1 rev container)) [
  | inl out ↦ absurd (eof1-some rev container out)
  | inr (r, e) ↦
      branches (not (is_eof_container container)) (get_eof_version container == 1)
        (ltb (rank rev) (rank prague)) (error_of r) (ap (map_some error_of) e)
]
