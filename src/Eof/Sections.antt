-- ===== src/Eof/Sections.antt =====
-- The machine of `validate_eof_headers` (lib/assigner/evmone/eof.cpp), from its first round to its
-- last.
use evm_assigner.Base.{
  ℕ, zero, suc, ◌+◌, ◌*◌, ◌≤◌, ◌<◌, ◌≡◌, refl, sym, ap, ◌∙◌, arith, not, ◌==◌, ltb, List, [], ◌∷◌,
  length, drop,
}
use mathlib.Core.Path.{subst}
use evm_assigner.Eof.{
  valid, ◌>>=◌, EofSectionHeaders, no_headers, emplace_back, uint16_be, terminator, type_section,
  code_section, data_section, code_section_number_limit, zero_section_size, too_many_code_sections,
  invalid_section_bodies_size, invalid_type_section_size,
}
use evm_assigner.Eof.Inversion.{invalid-ne-valid, valid-injective, fail_if-eq-valid, >>=-eq-valid}
use evm_assigner.Eof.Headers.{
  HeaderReader, section_id, section_size, terminated, read_section_id, read_code_sizes,
  read_section_size, read_headers, check_bodies, validate_eof_headers, sum, front,
}
use evm_assigner.Eof.Grammar.{CodeSizes, IsContainer, with_sizes, read_code_sizes_sound}
use evm_assigner.Eof.Machine.{reader, finish, bind_assoc, id_step, size_step}

-- The number and the sizes of the code sections.
code_step :
    (fuel : ℕ) (headers : EofSectionHeaders) (rest : List ℕ) (h : EofSectionHeaders)
    → finish fuel (reader section_id type_section 0 headers code_section rest) ≡ valid h
    → (fuel' : ℕ) × (high : ℕ) × (low : ℕ) × (rest' : List ℕ) × (rest
        ≡ code_section ∷ high ∷ low ∷ rest')
      × (0 < uint16_be high low)
      × (uint16_be high low ≤ code_section_number_limit)
      × (finish fuel'
            (reader section_size code_section (uint16_be high low) headers data_section rest')
          ≡ valid h)
unfolding read_section_id
code_step fuel headers rest h e =
    let (fuel', rest', shape, e') = id_step fuel type_section 0 code_section headers rest h e in
    from_number fuel' rest' shape e'
  where
    from_number :
        (fuel' : ℕ) (rest' : List ℕ)
        → rest ≡ code_section ∷ rest'
        → ((read_section_id
                (reader section_id type_section 0 headers code_section [])
                code_section
                rest'
              >>= finish fuel')
            ≡ valid h)
        → (fuel' : ℕ) × (high : ℕ) × (low : ℕ) × (rest' : List ℕ) × (rest
            ≡ code_section ∷ high ∷ low ∷ rest')
          × (0 < uint16_be high low)
          × (uint16_be high low ≤ code_section_number_limit)
          × (finish fuel'
                (reader section_size code_section (uint16_be high low) headers data_section rest')
              ≡ valid h)
    from_number fuel' [] shape e = absurd (invalid-ne-valid e)
    from_number fuel' (x ∷ []) shape e = absurd (invalid-ne-valid e)
    from_number fuel' (x ∷ (y ∷ rest')) shape e =
        let (s', read, end) = >>=-eq-valid _ (finish fuel') e in
        let (some_number, more) = fail_if-eq-valid (uint16_be x y == 0) zero_section_size _ read in
        let (limited, kept) =
          fail_if-eq-valid (ltb code_section_number_limit (uint16_be x y)) too_many_code_sections _
            more in
        (
          fuel',
          x,
          y,
          rest',
          shape,
          ground arith,
          ground arith,
          subst (λ s'. finish fuel' s' ≡ valid h) (sym (valid-injective kept)) end,
        )

sizes_step :
    (fuel num : ℕ) (headers : EofSectionHeaders) (rest : List ℕ) (h : EofSectionHeaders)
    → finish fuel (reader section_size code_section num headers data_section rest) ≡ valid h
    → (fuel' : ℕ) × (sizes : List ℕ) × (rest' : List ℕ) × CodeSizes rest sizes rest'
      × (length sizes ≡ num)
      × (finish fuel'
            (reader section_id code_section num (with_sizes headers sizes) data_section rest')
          ≡ valid h)
unfolding finish read_headers check_bodies read_section_size
sizes_step zero num headers rest h e = absurd (invalid-ne-valid e)
sizes_step (suc fuel) num headers [] h e = absurd (invalid-ne-valid e)
sizes_step (suc fuel) num headers (x ∷ xs) h e =
    let s = reader section_size code_section num headers data_section (x ∷ xs) in
    let (s', read, end) =
      >>=-eq-valid (read_section_size s) (finish fuel) (bind_assoc fuel (read_section_size s) e) in
    let (p, codes, kept) = >>=-eq-valid (read_code_sizes num headers (x ∷ xs)) _ read in
    let (sizes, form, count, same) = read_code_sizes_sound num headers (x ∷ xs) p.0 p.1 codes in
    let e'' : finish fuel (reader section_id code_section num p.0 data_section p.1) ≡ valid h =
      subst (λ s'. finish fuel s' ≡ valid h) (sym (valid-injective kept)) end in
    (
      fuel,
      sizes,
      p.1,
      form,
      count,
      subst (λ hs. finish fuel (reader section_id code_section num hs data_section p.1) ≡ valid h)
          same e'',
    )

pub terminated_end :
    (fuel : ℕ) (s : HeaderReader) → s.state ≡ terminated → finish fuel s ≡ check_bodies s
unfolding finish read_headers
terminated_end zero s t = refl
terminated_end (suc fuel) s t = ends s s.rest t
  where
    ends :
        (s : HeaderReader) (rest : List ℕ)
        → s.state ≡ terminated
        → finish (suc fuel) (record s { rest = rest }) ≡ check_bodies (record s { rest = rest })
    ends s [] t = refl
    ends s (x ∷ xs) t = rw (t) refl

-- The sums that are checked behind the loop.
abbrev pub HasBodies : EofSectionHeaders → List ℕ → Type 0
HasBodies headers bodies =
    (front headers.type_sizes + sum headers.all_code_sizes + front headers.data_sizes
      ≡ length bodies)
    × (front headers.type_sizes ≡ length headers.all_code_sizes * 4)

end_step :
    (fuel num : ℕ) (headers : EofSectionHeaders) (rest : List ℕ) (h : EofSectionHeaders)
    → finish fuel (reader section_id data_section num headers terminator rest) ≡ valid h
    → (bodies : List ℕ) × (rest ≡ terminator ∷ bodies) × HasBodies headers bodies × (headers ≡ h)
unfolding read_section_id check_bodies
end_step fuel num headers rest h e =
    let (fuel', bodies, shape, e') = id_step fuel data_section num terminator headers rest h e in
    let checked =
      sym (terminated_end fuel' (reader terminated terminator num headers terminator bodies) refl)
      ∙ e' in
    let all = front headers.type_sizes + sum headers.all_code_sizes + front headers.data_sizes in
    let (total, more) =
      fail_if-eq-valid (not (all == length bodies)) invalid_section_bodies_size _ checked in
    let (quadruple, kept) =
      fail_if-eq-valid (not (front headers.type_sizes == length headers.all_code_sizes * 4))
        invalid_type_section_size _ more in
    (bodies, shape, (ground arith, ground arith), valid-injective kept)

-- A run that succeeds, from the first reader on.
pub validate_eof_headers_sound :
    (container : List ℕ) (h : EofSectionHeaders)
    → validate_eof_headers container ≡ valid h
    → IsContainer container h
unfolding validate_eof_headers finish read_section_id
validate_eof_headers_sound container h e =
    let (f1, r1, shape1, e1) =
      id_step (length container) 0 0 type_section no_headers (drop 3 container) h e in
    let (f2, th, tl, r2, shape2, e2) =
      size_step f1 type_section 0 code_section no_headers r1 h refl e1 in
    let headers1 = emplace_back no_headers type_section (uint16_be th tl) in
    let (f3, nh, nl, r3, shape3, positive, limited, e3) = code_step f2 headers1 r2 h e2 in
    let (f4, sizes, r4, form, count, e4) = sizes_step f3 (uint16_be nh nl) headers1 r3 h e3 in
    let headers2 = with_sizes headers1 sizes in
    let (f5, r5, shape5, e5) =
      id_step f4 code_section (uint16_be nh nl) data_section headers2 r4 h e4 in
    let (f6, dh, dl, r6, shape6, e6) =
      size_step f5 data_section (uint16_be nh nl) terminator headers2 r5 h refl e5 in
    let (bodies, shape7, (total, quadruple), same) =
      end_step f6 (uint16_be nh nl) (emplace_back headers2 data_section (uint16_be dh dl)) r6 h
        e6 in
    record {
      type_high = th;
      type_low = tl;
      number_high = nh;
      number_low = nl;
      size_bytes = r3;
      sizes = sizes;
      data_high = dh;
      data_low = dl;
      bodies = bodies;
      shape = shape1 ∙ ap (λ r. type_section ∷ r) (shape2 ∙ ap (λ r. th ∷ tl ∷ r) shape3);
      code_sizes =
          subst (λ r. CodeSizes r3 sizes r)
            (shape5 ∙ ap (λ r. data_section ∷ r) (shape6 ∙ ap (λ r. dh ∷ dl ∷ r) shape7)) form;
      number = count;
      number-lt = omega (arith, count, positive);
      number-le = omega (arith, count, limited);
      type_size = quadruple;
      body_size = total;
      read = sym same;
    }
