-- ===== src/Eof/ReadHeader.antt =====
-- `read_valid_eof1_header` of lib/assigner/evmone/eof.cpp: the header of a container that has been
-- validated, read without checks.
use evm_assigner.Base.{
  ℕ, zero, suc, ◌==◌, leb, if◌then◌else◌, Option, none, some, List, [], ◌∷◌, drop, length,
}
use evm_assigner.Eof.{
  map_some, Eof1Header, EofSectionHeaders, no_headers, emplace_back, uint16_be, eof_header_size,
  terminator, code_section, data_section,
}
use evm_assigner.Eof.Headers.{front}
use evm_assigner.Eof.Types.{read_types, steps_of_4}
use evm_assigner.Eof.Validate.{header_of}

-- `n` sizes of a section; `none` where the source reads behind the container or writes behind the
-- array of sections.
unfoldable pub read_sizes : ℕ → ℕ → EofSectionHeaders → List ℕ → Option (EofSectionHeaders × List ℕ)
read_sizes section_id zero headers rest = some (headers, rest)
read_sizes section_id (suc n) headers [] = none
read_sizes section_id (suc n) headers (h ∷ []) = none
read_sizes section_id (suc n) headers (h ∷ (l ∷ rest)) =
    if leb section_id data_section
    then read_sizes section_id n (emplace_back headers section_id (uint16_be h l)) rest
    else none

-- The sizes behind the id of a section.
unfoldable pub read_section : ℕ → EofSectionHeaders → List ℕ → Option (EofSectionHeaders × List ℕ)
read_section section_id headers [] = none
read_section section_id headers (h ∷ []) = none
read_section section_id headers (h ∷ (l ∷ rest)) =
    if section_id == code_section
    then read_sizes section_id (uint16_be h l) headers rest
    else read_sizes section_id 1 headers (h ∷ (l ∷ rest))

-- The loop up to the terminator; every round reads a byte, so the size of the container is enough
-- fuel.
unfoldable pub read_sections : ℕ → EofSectionHeaders → List ℕ → Option EofSectionHeaders
read_sections fuel headers [] = none
read_sections zero headers (section_id ∷ rest) = none
read_sections (suc fuel) headers (section_id ∷ rest) =
    if section_id == terminator then some headers else elim (read_section section_id headers rest) [
      | none ↦ none
      | some s ↦ read_sections fuel s.0 s.1
    ]

unfoldable pub read_valid_eof1_header : List ℕ → Option Eof1Header
read_valid_eof1_header container =
    map_some
      (λ headers.
        header_of container headers
          (read_types (steps_of_4 (front headers.type_sizes)) container (eof_header_size headers)))
      (read_sections (length container) no_headers (drop 3 container))
