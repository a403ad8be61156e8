-- ===== src/Eof/Readers.antt =====
-- The two readers of the header in lib/assigner/evmone/eof.cpp, the validating and the trusting one.
use evm_assigner.Base.{
  ℕ, suc, ◌+◌, ◌≤◌, ◌≡◌, refl, sym, ap, ◌∙◌, arith, false, not, ◌||◌, ◌==◌, some, List, [], ◌∷◌,
  length, drop, get_or,
}
use mathlib.Core.Option.{some-injective}
use evm_assigner.Revision.{Revision}
use evm_assigner.Eof.{
  valid, map_some, Eof1Header, EofCodeType, EofSectionHeaders, no_headers, emplace_back, uint16_be,
  eof_header_size, code_section, data_section, terminator, type_section, default_type,
  non_returning_function, invalid_first_section_type,
}
use evm_assigner.Eof.Inversion.{and_then-eq-valid, valid-injective, fail_if-eq-valid, >>=-eq-valid}
use evm_assigner.Eof.Headers.{validate_eof_headers, front}
use evm_assigner.Eof.Types.{validate_types, read_types, check_types, steps_of_4}
use evm_assigner.Eof.Validate.{header_of, read_header, validate_sections, validate_eof1}
use evm_assigner.Eof.ReadHeader.{read_sizes, read_section, read_sections, read_valid_eof1_header}
use evm_assigner.Eof.Grammar.{CodeSizes, IsContainer, with_sizes, append_nil, append_assoc}
use evm_assigner.Eof.Complete.{length-drop_cons}
use evm_assigner.Eof.Bodies.{types_inside}
use evm_assigner.Eof.Sections.{validate_eof_headers_sound}

read_sizes_lem :
    (bytes sizes rest : List ℕ) (headers : EofSectionHeaders)
    → CodeSizes bytes sizes rest
    → read_sizes code_section (length sizes) headers bytes ≡ some (with_sizes headers sizes, rest)
unfolding read_sizes
read_sizes_lem bytes _ rest headers (CodeSizes.none_left _) =
    ap (λ sizes. some (record headers { all_code_sizes = sizes }, rest))
      (sym (append_nil headers.all_code_sizes))
read_sizes_lem _ _ rest headers (CodeSizes.one_more h l bytes sizes _ positive form) =
    read_sizes_lem bytes sizes rest (emplace_back headers code_section (uint16_be h l)) form
    ∙ ap (λ all. some (record headers { all_code_sizes = all }, rest))
        (append_assoc headers.all_code_sizes (uint16_be h l ∷ []) sizes)

-- A round of the loop, at an id that is not the terminator.
section_round :
    (fuel id : ℕ) (headers : EofSectionHeaders) (rest : List ℕ) (s : EofSectionHeaders × List ℕ)
    → id == terminator ≡ false
    → read_section id headers rest ≡ some s
    → read_sections (suc fuel) headers (id ∷ rest) ≡ read_sections fuel s.0 s.1
unfolding read_sections
section_round fuel id headers rest s other read = rw (other, read) refl

module _ (container : List ℕ) (h : EofSectionHeaders) (form : IsContainer container h) where
  abbrev headers1 : EofSectionHeaders
  headers1 = emplace_back no_headers type_section (uint16_be form.type_high form.type_low)

  abbrev behind_codes : List ℕ
  behind_codes = data_section ∷ form.data_high ∷ form.data_low ∷ terminator ∷ form.bodies

  trusting_run :
      (fuel : ℕ)
      → read_sections (suc (suc (suc (suc fuel)))) no_headers (
          type_section ∷ form.type_high ∷ form.type_low ∷ code_section ∷ form.number_high
          ∷ form.number_low ∷ form.size_bytes)
        ≡ some h
  unfolding read_sections read_section read_sizes
  trusting_run fuel =
      section_round (suc (suc fuel)) code_section headers1
        (form.number_high ∷ form.number_low ∷ form.size_bytes)
        (with_sizes headers1 form.sizes, behind_codes) refl
        (ap (λ n. read_sizes code_section n headers1 form.size_bytes) (sym form.number)
          ∙ read_sizes_lem form.size_bytes form.sizes behind_codes headers1 form.code_sizes)
      ∙ ap some (sym form.read)

  abbrev spare : ℕ
  spare = 5 + length form.size_bytes

  read_sections_lem : read_sections (length container) no_headers (drop 3 container) ≡ some h
  read_sections_lem =
      ap (λ n. read_sections n no_headers (drop 3 container)) enough_fuel
      ∙ ap (λ r. read_sections (suc (suc (suc (suc spare)))) no_headers r) form.shape
      ∙ trusting_run spare
    where
      enough_fuel : length container ≡ suc (suc (suc (suc spare)))
      enough_fuel = omega (arith, length-drop_cons 3 container _ _ form.shape)

validate_types-eq-valid :
    (container : List ℕ) (header_size type_section_size : ℕ) (types : List EofCodeType)
    → validate_types container header_size type_section_size ≡ valid types
    → read_types (steps_of_4 type_section_size) container header_size ≡ types
unfolding validate_types
validate_types-eq-valid container header_size type_section_size types e =
    let read = read_types (steps_of_4 type_section_size) container header_size in
    let first = get_or read 0 default_type in
    let (_, e1) =
      fail_if-eq-valid (not (first.inputs == 0) || not (first.outputs == non_returning_function))
        invalid_first_section_type _ e in
    let (_, _, e2) = >>=-eq-valid (check_types read) _ e1 in valid-injective e2

-- The header that has been validated is the one that is read later.
read_header-eq-valid :
    (container : List ℕ) (header : Eof1Header)
    → read_header container ≡ valid header
    → read_valid_eof1_header container ≡ some header
unfolding read_header read_valid_eof1_header
read_header-eq-valid container header e =
    let (headers, validated, e1) = >>=-eq-valid (validate_eof_headers container) _ e in
    let (types, checked, e2) =
      >>=-eq-valid (validate_types container (eof_header_size headers) (front headers.type_sizes)) _
        e1 in
    let run =
      read_sections_lem container headers
        (validate_eof_headers_sound container headers validated) in
    ap
      (map_some λ (headers : EofSectionHeaders).
        header_of container headers
          (read_types (steps_of_4 (front headers.type_sizes)) container (eof_header_size headers)))
      run
    ∙ ap (λ types. some (header_of container headers types))
        (validate_types-eq-valid container (eof_header_size headers) (front headers.type_sizes)
          types checked)
    ∙ ap some (valid-injective e2)

-- The bytes of the types, which are read without a look at the size, are there.
read_header-inside :
    (container : List ℕ) (header : Eof1Header)
    → read_header container ≡ valid header
    → (headers : EofSectionHeaders) × (validate_eof_headers container ≡ valid headers)
      × (eof_header_size headers + front headers.type_sizes ≤ length container)
unfolding read_header
read_header-inside container header e =
    let (headers, validated, e1) = >>=-eq-valid (validate_eof_headers container) _ e in
    (
      headers,
      validated,
      types_inside container headers (validate_eof_headers_sound container headers validated),
    )

validate_eof1-header :
    (rev : Revision) (container : List ℕ) (header : Eof1Header)
    → validate_eof1 rev container ≡ some (valid header)
    → read_header container ≡ valid header
unfolding validate_eof1
validate_eof1-header rev container header e =
    let (header', read, e1) = and_then-eq-valid (some (read_header container)) _ e in
    let (_, _, e2) =
      and_then-eq-valid (validate_sections rev header' container (length header'.code_sizes) 0) _
        e1 in
    some-injective _ _ read ∙ some-injective _ _ e2

-- For a container that validate_eof1 accepts, read_valid_eof1_header, which checks nothing, returns
-- the header that validate_eof1 returned, and the type section, which it reads without a look at
-- the size, ends within the container: the sections that validate_eof_headers finds have a header
-- and types of no more bytes than the container.
pub read_valid_eof1_header_lem :
    (rev : Revision) (container : List ℕ) (header : Eof1Header)
    → validate_eof1 rev container ≡ some (valid header)
    → (read_valid_eof1_header container ≡ some header)
      × (headers : EofSectionHeaders) × (validate_eof_headers container ≡ valid headers)
      × (eof_header_size headers + front headers.type_sizes ≤ length container)
read_valid_eof1_header_lem rev container header e =
    let read = validate_eof1-header rev container header e in
    let (headers, validated, inside) = read_header-inside container header read in
    (read_header-eq-valid container header read, headers, validated, inside)
