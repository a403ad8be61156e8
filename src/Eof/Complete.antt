-- ===== src/Eof/Complete.antt =====
-- The containers of the form of `IsContainer` are accepted by `validate_eof_headers`
-- (lib/assigner/evmone/eof.cpp), and by nothing else.
use evm_assigner.Base.{
  ℕ, zero, suc, ◌+◌, ◌≤◌, ◌<◌, ◌≡◌, ◌↔◌, refl, sym, ap, ◌∙◌, arith, false, not, ◌||◌, ◌==◌, ltb,
  List, [], ◌∷◌, length, drop,
}
use evm_assigner.Eof.{
  valid, ◌>>=◌, EofSectionHeaders, no_headers, emplace_back, uint16_be, terminator, type_section,
  code_section, data_section, code_section_number_limit, section_headers_not_terminated,
  zero_section_size, too_many_code_sections, invalid_section_bodies_size, invalid_type_section_size,
}
use evm_assigner.Eof.Inversion.{fail_if-false}
use evm_assigner.Eof.Headers.{
  HeaderReader, section_id, section_size, terminated, is_empty, is_terminated, read_round,
  read_section_id, read_code_sizes, read_section_size, read_headers, first_reader, check_bodies,
  validate_eof_headers,
}
use evm_assigner.Eof.Grammar.{CodeSizes, IsContainer, with_sizes, read_code_sizes_complete}
use evm_assigner.Eof.Machine.{reader, finish}
use evm_assigner.Eof.Sections.{HasBodies, terminated_end, validate_eof_headers_sound}

-- A round that succeeds, away from the end.
advance :
    (fuel : ℕ) (s s' : HeaderReader)
    → is_empty s.rest || is_terminated s.state ≡ false
    → read_round s.state s.rest s ≡ valid s'
    → finish (suc fuel) s ≡ finish fuel s'
unfolding finish read_headers
advance fuel s s' active step = rw (active, step) refl

type_round :
    (high low : ℕ) (rest : List ℕ)
    → 0 < uint16_be high low
    → read_section_size
        (reader section_size type_section 0 no_headers code_section (high ∷ low ∷ rest))
      ≡ valid (
          reader section_id type_section 0
            (emplace_back no_headers type_section (uint16_be high low))
            code_section
            rest)
unfolding read_section_size
type_round high low rest positive = fail_if-false _ zero_section_size _ (ground arith)

number_round :
    (high low : ℕ) (headers : EofSectionHeaders) (rest : List ℕ)
    → 0 < uint16_be high low
    → uint16_be high low ≤ code_section_number_limit
    → read_section_id
        (reader section_id type_section 0 headers code_section [])
        code_section
        (high ∷ low ∷ rest)
      ≡ valid (reader section_size code_section (uint16_be high low) headers data_section rest)
unfolding read_section_id
number_round high low headers rest positive limited =
    fail_if-false (uint16_be high low == 0) zero_section_size _ (ground arith)
    ∙ fail_if-false (ltb code_section_number_limit (uint16_be high low)) too_many_code_sections _
        (ground arith)

data_round :
    (num high low : ℕ) (headers : EofSectionHeaders) (rest : List ℕ)
    → read_section_size
        (reader section_size data_section num headers terminator (high ∷ low ∷ rest))
      ≡ valid (
          reader section_id data_section num
            (emplace_back headers data_section (uint16_be high low))
            terminator
            rest)
unfolding read_section_size
data_round num high low headers rest = fail_if-false _ zero_section_size _ (ground arith)

CodeSizes-nonempty :
    (bytes sizes : List ℕ) (x : ℕ) (xs : List ℕ)
    → CodeSizes bytes sizes (x ∷ xs)
    → is_empty bytes || false ≡ false
CodeSizes-nonempty _ _ x xs (CodeSizes.none_left _) = refl
CodeSizes-nonempty _ _ x xs (CodeSizes.one_more h l bytes sizes _ positive form) = refl

sizes_round :
    (num : ℕ) (headers : EofSectionHeaders) (bytes sizes : List ℕ) (x : ℕ) (xs : List ℕ)
    → CodeSizes bytes sizes (x ∷ xs)
    → length sizes ≡ num
    → read_round section_size bytes
        (reader section_size code_section num headers data_section bytes)
      ≡ valid (reader section_id code_section num (with_sizes headers sizes) data_section (x ∷ xs))
unfolding read_section_size
sizes_round num headers [] sizes x xs form count =
    absurd (ground (arith, CodeSizes-nonempty [] sizes x xs form))
sizes_round num headers (b ∷ bytes) sizes x xs form count =
    ap (λ m. m >>= λ p. valid (reader section_id code_section num p.0 data_section p.1))
      (ap (λ n. read_code_sizes n headers (b ∷ bytes)) (sym count)
        ∙ read_code_sizes_complete (b ∷ bytes) sizes (x ∷ xs) headers form)

checks_pass :
    (s : HeaderReader)
    → s.state ≡ terminated
    → HasBodies s.section_headers s.rest
    → check_bodies s ≡ valid s.section_headers
unfolding check_bodies
checks_pass s t (total, quadruple) =
    fail_if-false (not (is_terminated s.state)) section_headers_not_terminated _ (rw (t) refl)
    ∙ fail_if-false _ invalid_section_bodies_size _ (ground arith)
    ∙ fail_if-false _ invalid_type_section_size _ (ground arith)

pub length-drop_cons :
    (n : ℕ) (xs : List ℕ) (y : ℕ) (ys : List ℕ)
    → drop n xs ≡ y ∷ ys
    → length xs ≡ n + suc (length ys)
length-drop_cons zero xs y ys e = ap length e ∙ omega arith
length-drop_cons (suc n) [] y ys e = absurd (cc)
length-drop_cons (suc n) (x ∷ xs) y ys e = omega (arith, length-drop_cons n xs y ys e)

module _ (container : List ℕ) (h : EofSectionHeaders) (form : IsContainer container h) where
  type_size : ℕ
  type_size = uint16_be form.type_high form.type_low

  number : ℕ
  number = uint16_be form.number_high form.number_low

  headers1 : EofSectionHeaders
  headers1 = emplace_back no_headers type_section type_size

  headers2 : EofSectionHeaders
  headers2 = with_sizes headers1 form.sizes

  behind_data : List ℕ
  behind_data = terminator ∷ form.bodies

  complete_run :
      (fuel : ℕ)
      → finish (suc (suc (suc (suc (suc (suc (suc fuel))))))) (
          reader section_id 0 0 no_headers type_section (
            type_section ∷ form.type_high ∷ form.type_low ∷ code_section ∷ form.number_high
            ∷ form.number_low ∷ form.size_bytes))
        ≡ valid h
  unfolding type_size number headers1 headers2 behind_data read_section_id
  complete_run fuel =
      advance _ _ _ refl refl
      ∙ advance _ _ _ refl (
          type_round form.type_high form.type_low _ (omega (arith, form.type_size, form.number-lt)))
      ∙ advance _ _ _ refl (
          number_round form.number_high form.number_low headers1 form.size_bytes
            (omega (arith, form.number, form.number-lt))
            (omega (arith, form.number, form.number-le)))
      ∙ advance _ _ _
          (CodeSizes-nonempty form.size_bytes form.sizes data_section
            (form.data_high ∷ form.data_low ∷ behind_data) form.code_sizes)
          (sizes_round number headers1 form.size_bytes form.sizes data_section
            (form.data_high ∷ form.data_low ∷ behind_data) form.code_sizes form.number)
      ∙ advance _ _ _ refl refl
      ∙ advance _ _ _ refl (data_round number form.data_high form.data_low headers2 behind_data)
      ∙ advance _ _ _ refl refl
      ∙ terminated_end fuel _ refl
      ∙ checks_pass _ refl (form.body_size, form.type_size)
      ∙ ap valid (sym form.read)

  abbrev spare : ℕ
  spare = 2 + length form.size_bytes

  enough_fuel : length container ≡ suc (suc (suc (suc (suc (suc (suc spare))))))
  enough_fuel = omega (arith, length-drop_cons 3 container _ _ form.shape)

  pub validate_eof_headers_complete : validate_eof_headers container ≡ valid h
  unfolding validate_eof_headers finish
  validate_eof_headers_complete =
      ap (λ n. read_headers n (first_reader container) >>= check_bodies) enough_fuel
      ∙ ap
          (λ r.
            read_headers (suc (suc (suc (suc (suc (suc (suc spare)))))))
              (reader section_id 0 0 no_headers type_section r)
            >>= check_bodies)
          form.shape
      ∙ complete_run spare

-- validate_eof_headers returns section headers exactly where the container, behind its first three
-- bytes, has the form of a version 1 header: the type section with its size, the code sections with
-- a number between 1 and 1024 and as many sizes, none of them 0, the data section with its size,
-- the terminator, and bodies of just these sizes, the type section with four bytes for each code
-- section; the headers returned are these sizes.
pub validate_eof_headers_iff :
    (container : List ℕ) (headers : EofSectionHeaders)
    → (validate_eof_headers container ≡ valid headers) ↔ IsContainer container headers
validate_eof_headers_iff container headers =
    (validate_eof_headers_sound container headers, validate_eof_headers_complete container headers)
