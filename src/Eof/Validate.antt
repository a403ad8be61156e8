-- ===== src/Eof/Validate.antt =====
-- `validate_eof1` and `validate_eof` of lib/assigner/evmone/eof.cpp: all validations, in order.
use evm_assigner.Base.{
  ℕ, zero, suc, ◌+◌, ◌%◌, ◌^◌, ℤ, pos, not, ◌==◌, ltb, if◌then◌else◌, Option, some, List, [], ◌∷◌,
  length, get_or,
}
use evm_assigner.Revision.{Revision, rank, prague}
use evm_assigner.Eof.{
  EofValidationError, Validated, valid, invalid, ◌>>=◌, fail_if, and_then, map_some, Eof1Header,
  EofSectionHeaders, EofCodeType, eof_header_size, get_code, is_eof_container, get_eof_version,
  success, invalid_prefix, eof_version_unknown, invalid_rjump_destination, invalid_max_stack_height,
}
use evm_assigner.Eof.Headers.{validate_eof_headers, front}
use evm_assigner.Eof.Types.{validate_types}
use evm_assigner.Eof.Code.{validate_instructions, type_of}
use evm_assigner.Eof.Jumps.{validate_rjump_destinations}
use evm_assigner.Eof.StackHeight.{validate_max_stack_height, ==ℤ}

-- The offsets of the code sections, as `uint16_t`.
unfoldable pub code_offsets_from : ℕ → List ℕ → List ℕ
code_offsets_from offset [] = []
code_offsets_from offset (size ∷ sizes) = offset % 2 ^ 16 ∷ code_offsets_from (offset + size) sizes

abbrev pub header_of : List ℕ → EofSectionHeaders → List EofCodeType → Eof1Header
header_of container section_headers types = record {
  version = get_or container 2 0;
  code_sizes = section_headers.all_code_sizes;
  code_offsets =
      code_offsets_from (eof_header_size section_headers + front section_headers.type_sizes)
        section_headers.all_code_sizes;
  data_size = front section_headers.data_sizes;
  types = types;
}

-- The header before the code is validated.
unfoldable pub read_header : List ℕ → Validated Eof1Header
read_header container = do
  section_headers ← validate_eof_headers container
  types ←
      validate_types container (eof_header_size section_headers) (front section_headers.type_sizes)
  valid (header_of container section_headers types)

-- The comparison of the height found with the declared one.
abbrev pub check_height : ℕ → Validated ℤ → Validated (Unit {0})
check_height declared r =
    r >>= λ height. fail_if (not (==ℤ height (pos declared))) invalid_max_stack_height

-- One code section.
unfoldable pub validate_section : Revision → Eof1Header → ℕ → List ℕ → Option (Validated (Unit {0}))
validate_section rev header code_idx container =
    let code = get_code header container code_idx in
    and_then (some (validate_instructions rev header code_idx container)) λ _.
      and_then (some (fail_if (not (validate_rjump_destinations code)) invalid_rjump_destination))
        λ _.
          map_some (check_height (type_of header.types code_idx).max_stack_height)
            (validate_max_stack_height code code_idx header.types)

-- `n` code sections, from `code_idx` on.
unfoldable pub validate_sections :
    Revision → Eof1Header → List ℕ → ℕ → ℕ → Option (Validated (Unit {0}))
validate_sections rev header container zero code_idx = some (valid tt)
validate_sections rev header container (suc n) code_idx =
    and_then (validate_section rev header code_idx container)
      λ _. validate_sections rev header container n (code_idx + 1)

unfoldable pub validate_eof1 : Revision → List ℕ → Option (Validated Eof1Header)
validate_eof1 rev container = and_then (some (read_header container)) λ header.
    and_then (validate_sections rev header container (length header.code_sizes) 0)
      λ _. some (valid header)

-- `success` for a header.
abbrev pub error_of {ℓ} : {A : Type ℓ} → Validated A → EofValidationError
error_of (valid a) = success
error_of (invalid error) = error

unfoldable pub validate_eof : Revision → List ℕ → Option EofValidationError
validate_eof rev container =
    if not (is_eof_container container)
    then some invalid_prefix
    else if get_eof_version container == 1
    then (if ltb (rank rev) (rank prague)
        then some eof_version_unknown
        else map_some error_of (validate_eof1 rev container))
    else some eof_version_unknown
