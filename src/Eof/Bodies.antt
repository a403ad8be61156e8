-- ===== src/Eof/Bodies.antt =====
-- The code sections of a container whose headers lib/assigner/evmone/eof.cpp has accepted, as
-- places in the container.
use evm_assigner.Base.{
  ℕ, zero, suc, ◌+◌, ◌*◌, ◌≤◌, ◌<◌, ◌≡◌, sym, arith, List, [], ◌∷◌, length, get_or,
}
use mathlib.Core.Path.{subst}
use evm_assigner.Eof.{
  EofSectionHeaders, EofCodeType, uint16_be, eof_header_size, get_code, substr, data_section,
  terminator,
}
use evm_assigner.Eof.Headers.{sum, front}
use evm_assigner.Eof.Validate.{code_offsets_from, header_of}
use evm_assigner.Eof.Grammar.{CodeSizes, IsContainer}
use evm_assigner.Eof.Complete.{length-drop_cons}

CodeSizes-length :
    (bytes sizes rest : List ℕ)
    → CodeSizes bytes sizes rest
    → length bytes ≡ length sizes * 2 + length rest
CodeSizes-length _ _ rest (CodeSizes.none_left _) = omega arith
CodeSizes-length _ _ rest (CodeSizes.one_more h l bytes sizes _ positive form) =
    omega (arith, CodeSizes-length bytes sizes rest form)

CodeSizes-positive :
    (bytes sizes rest : List ℕ) (k : ℕ)
    → CodeSizes bytes sizes rest
    → k < length sizes
    → 0 < get_or sizes k 0
CodeSizes-positive _ _ rest k (CodeSizes.none_left _) less = absurd (omega (arith, less))
CodeSizes-positive _ _ rest zero (CodeSizes.one_more h l bytes sizes _ positive form) less =
    positive
CodeSizes-positive _ _ rest (suc k) (CodeSizes.one_more h l bytes sizes _ positive form) less =
    CodeSizes-positive bytes sizes rest k form (omega (arith, less))

-- An offset, which may have wrapped around, and its size stay below the end of the sections.
offsets-le :
    (offset : ℕ) (sizes : List ℕ) (k : ℕ)
    → k < length sizes
    → get_or (code_offsets_from offset sizes) k 0 + get_or sizes k 0 ≤ offset + sum sizes
unfolding code_offsets_from
offsets-le offset [] k less = absurd (omega (arith, less))
offsets-le offset (size ∷ sizes) zero less = omega arith
offsets-le offset (size ∷ sizes) (suc k) less =
    omega (arith, offsets-le (offset + size) sizes k (omega (arith, less)))

some_bytes :
    (size offset : ℕ) (container : List ℕ)
    → 0 < size
    → offset < length container
    → 0 < length (substr container offset size)
some_bytes size offset [] more inside = absurd (omega (arith, inside))
some_bytes zero offset (x ∷ container) more inside = absurd (omega (arith, more))
some_bytes (suc size) zero (x ∷ container) more inside = omega arith
some_bytes (suc size) (suc offset) (x ∷ container) more inside =
    some_bytes (suc size) offset container more (omega (arith, inside))

module _ (container : List ℕ) (headers : EofSectionHeaders)
    (form : IsContainer container headers) where
  sections : EofSectionHeaders
  sections = record {
    type_sizes = uint16_be form.type_high form.type_low ∷ [];
    all_code_sizes = form.sizes;
    data_sizes = uint16_be form.data_high form.data_low ∷ [];
  }

  -- The header and the bodies are the container.
  container_size :
      length container
      ≡ eof_header_size sections
        + uint16_be form.type_high form.type_low
        + sum form.sizes
        + uint16_be form.data_high form.data_low
  unfolding eof_header_size sections
  container_size = omega (
    arith,
    length-drop_cons 3 container _ _ form.shape,
    CodeSizes-length form.size_bytes form.sizes
        (data_section ∷ form.data_high ∷ form.data_low ∷ terminator ∷ form.bodies) form.code_sizes,
    form.body_size,
  )

  -- The type section lies in the container.
  pub types_inside : eof_header_size headers + front headers.type_sizes ≤ length container
  unfolding sections
  types_inside =
      subst
        (λ (hs : EofSectionHeaders). eof_header_size hs + front hs.type_sizes ≤ length container)
        (sym form.read) (omega (arith, container_size))

  code_bytes :
      (types : List EofCodeType) (k : ℕ)
      → k < length form.sizes
      → 0 < length (get_code (header_of container sections types) container k)
  unfolding get_code sections
  code_bytes types k less =
      some_bytes _ _ container
        (CodeSizes-positive form.size_bytes form.sizes _ k form.code_sizes less)
        (omega (
          arith,
          container_size,
          CodeSizes-positive form.size_bytes form.sizes _ k form.code_sizes less,
          offsets-le (eof_header_size sections + uint16_be form.type_high form.type_low) form.sizes
              k less,
        ))

  -- No code section is empty.
  pub get_code-more :
      (types : List EofCodeType) (k : ℕ)
      → k < length headers.all_code_sizes
      → 0 < length (get_code (header_of container headers types) container k)
  unfolding sections
  get_code-more types k less =
      subst (λ hs. 0 < length (get_code (header_of container hs types) container k)) (sym form.read)
        (code_bytes types k
          (subst (λ (hs : EofSectionHeaders). k < length hs.all_code_sizes) form.read less))
