-- ===== src/Eof/Machine.antt =====
-- The machine of `validate_eof_headers` (lib/assigner/evmone/eof.cpp), round by round: the rounds that
-- read an id or one size.
use evm_assigner.Base.{
  ℕ, zero, suc, ◌≡◌, refl, sym, ap, ◌∙◌, false, not, ◌&&◌, ◌==◌, ==_iff, Bool-cases, inl, inr, List,
  [], ◌∷◌,
}
use mathlib.Core.Path.{subst}
use evm_assigner.Eof.{
  get_section_missing_error, EofValidationError, Validated, valid, invalid, ◌>>=◌, ◌>>◌, fail_if,
  EofSectionHeaders, emplace_back, uint16_be, code_section, data_section, zero_section_size,
  incomplete_section_size,
}
use evm_assigner.Eof.Inversion.{invalid-ne-valid, valid-injective, fail_if-eq-valid, >>=-eq-valid}
use evm_assigner.Eof.Headers.{
  take_uint16, HeaderState, HeaderReader, section_id, section_size, read_section_id,
  read_section_size, read_headers, check_bodies,
}

abbrev pub reader : HeaderState → ℕ → ℕ → EofSectionHeaders → ℕ → List ℕ → HeaderReader
reader state id section_num headers expected rest = record {
  state = state;
  id = id;
  section_num = section_num;
  section_headers = headers;
  rest = rest;
  expected_section_id = expected;
}

-- A run to its end, with the checks behind the loop.
unfoldable pub finish : ℕ → HeaderReader → Validated EofSectionHeaders
finish fuel s = read_headers fuel s >>= check_bodies

pub bind_assoc :
    (fuel : ℕ) (m : Validated HeaderReader) {h : EofSectionHeaders}
    → ((m >>= read_headers fuel) >>= check_bodies) ≡ valid h
    → (m >>= finish fuel) ≡ valid h
unfolding finish
bind_assoc fuel (valid s) e = e
bind_assoc fuel (invalid error) e = absurd (invalid-ne-valid e)

not_expected :
    (s : HeaderReader) (byte : ℕ) (rest : List ℕ)
    → byte == s.expected_section_id ≡ false
    → (error : EofValidationError) × (read_section_id s byte rest ≡ invalid error)
unfolding read_section_id
not_expected s byte rest differs =
    (get_section_missing_error s.expected_section_id, rw (differs) refl)

id_expected :
    (s : HeaderReader) (byte : ℕ) (rest : List ℕ) {s' : HeaderReader}
    → read_section_id s byte rest ≡ valid s'
    → byte ≡ s.expected_section_id
id_expected s byte rest read = elim (Bool-cases (byte == s.expected_section_id)) [
  | inl same ↦ (==_iff byte s.expected_section_id).0 same
  | inr differs ↦ absurd (invalid-ne-valid (sym (not_expected s byte rest differs).1 ∙ read))
]

-- A round that reads an id has found the id that was expected.
pub id_step :
    (fuel id num expected : ℕ) (headers : EofSectionHeaders) (rest : List ℕ) (h : EofSectionHeaders)
    → finish fuel (reader section_id id num headers expected rest) ≡ valid h
    → (fuel' : ℕ) × (rest' : List ℕ) × (rest ≡ expected ∷ rest')
      × ((read_section_id (reader section_id id num headers expected []) expected rest'
            >>= finish fuel')
          ≡ valid h)
unfolding finish read_headers check_bodies read_section_id
id_step zero id num expected headers rest h e = absurd (invalid-ne-valid e)
id_step (suc fuel) id num expected headers [] h e = absurd (invalid-ne-valid e)
id_step (suc fuel) id num expected headers (byte ∷ rest) h e =
    let s = reader section_id id num headers expected (byte ∷ rest) in
    let e' = bind_assoc fuel (read_section_id s byte rest) e in
    let (s', read, _) = >>=-eq-valid (read_section_id s byte rest) (finish fuel) e' in
    let found : byte ≡ expected = id_expected s byte rest read in
    (
      fuel,
      rest,
      ap (λ b. b ∷ rest) found,
      subst (λ b. (read_section_id s b rest >>= finish fuel) ≡ valid h) found e',
    )

-- The size of the type section or of the data section.
abbrev one_size : HeaderReader → Validated HeaderReader
one_size s = take_uint16 s.rest incomplete_section_size >>= λ p.
    fail_if (p.0 == 0 && not (s.id == data_section)) zero_section_size
    >> valid (record s {
      state = section_id;
      section_headers = emplace_back s.section_headers s.id p.0;
      rest = p.1;
    })

not_code_section :
    (s : HeaderReader) → s.id == code_section ≡ false → read_section_size s ≡ one_size s
unfolding read_section_size
not_code_section s other = rw (other) refl

pub size_step :
    (fuel id num expected : ℕ) (headers : EofSectionHeaders) (rest : List ℕ) (h : EofSectionHeaders)
    → id == code_section ≡ false
    → finish fuel (reader section_size id num headers expected rest) ≡ valid h
    → (fuel' : ℕ) × (high : ℕ) × (low : ℕ) × (rest' : List ℕ) × (rest ≡ high ∷ low ∷ rest')
      × (finish fuel'
            (reader section_id id num (emplace_back headers id (uint16_be high low)) expected rest')
          ≡ valid h)
unfolding finish read_headers check_bodies
size_step zero id num expected headers rest h other e = absurd (invalid-ne-valid e)
size_step (suc fuel) id num expected headers [] h other e = absurd (invalid-ne-valid e)
size_step (suc fuel) id num expected headers (x ∷ []) h other e =
    let s = reader section_size id num headers expected (x ∷ []) in
    let (s', read, _) = >>=-eq-valid _ _ (bind_assoc fuel (read_section_size s) e) in
    absurd (invalid-ne-valid (sym (not_code_section s other) ∙ read))
size_step (suc fuel) id num expected headers (x ∷ (y ∷ rest)) h other e =
    let s = reader section_size id num headers expected (x ∷ y ∷ rest) in
    let after =
      subst (λ m. (m >>= finish fuel) ≡ valid h) (not_code_section s other)
        (bind_assoc fuel (read_section_size s) e) in
    let (s', read, end) = >>=-eq-valid (one_size s) (finish fuel) after in
    let (_, kept) = fail_if-eq-valid _ zero_section_size _ read in
    (
      fuel,
      x,
      y,
      rest,
      refl,
      subst (λ s'. finish fuel s' ≡ valid h) (sym (valid-injective kept)) end,
    )
