-- ===== src/Eof/Grammar.antt =====
-- The containers whose section headers `validate_eof_headers` (lib/assigner/evmone/eof.cpp)
-- accepts, by the form of their bytes.
use evm_assigner.Base.{
  ℕ, zero, suc, ◌+◌, ◌*◌, ◌≤◌, ◌<◌, ◌≡◌, refl, sym, ap, ◌∙◌, arith, ◌==◌, List, [], ◌∷◌, ◌++◌,
  length, drop,
}
use evm_assigner.Eof.{
  zero_section_size, valid, EofSectionHeaders, emplace_back, uint16_be, terminator, type_section,
  code_section, data_section, code_section_number_limit,
}
use mathlib.Core.Path.{subst}
use evm_assigner.Eof.Inversion.{invalid-ne-valid, valid-injective, fail_if-eq-valid, fail_if-false}
use evm_assigner.Eof.Headers.{read_code_sizes, sum}

-- Bytes that hold sizes, none of them 0, two bytes each, and the bytes behind them.
pub data CodeSizes : List ℕ → List ℕ → List ℕ → Type 0 where
  none_left : (rest : List ℕ) → CodeSizes rest [] rest
  one_more :
      (h l : ℕ) (bytes sizes rest : List ℕ)
      → 0 < uint16_be h l
      → CodeSizes bytes sizes rest
      → CodeSizes (h ∷ (l ∷ bytes)) (uint16_be h l ∷ sizes) rest

-- A prefix of three bytes, the headers of the type, the code and the data section, the
-- terminator, and bodies of the sizes in the headers.
pub record IsContainer (container : List ℕ) (headers : EofSectionHeaders) : Type 0 where
  pub type_high : ℕ
  pub type_low : ℕ
  pub number_high : ℕ
  pub number_low : ℕ
  pub size_bytes : List ℕ
  pub sizes : List ℕ
  pub data_high : ℕ
  pub data_low : ℕ
  pub bodies : List ℕ
  pub shape :
      drop 3 container
      ≡ type_section ∷ type_high ∷ type_low ∷ code_section ∷ number_high ∷ number_low ∷ size_bytes
  pub code_sizes :
      CodeSizes size_bytes sizes (data_section ∷ data_high ∷ data_low ∷ terminator ∷ bodies)
  pub number : length sizes ≡ uint16_be number_high number_low
  pub number-lt : 0 < length sizes
  pub number-le : length sizes ≤ code_section_number_limit
  pub type_size : uint16_be type_high type_low ≡ length sizes * 4
  pub body_size :
      uint16_be type_high type_low + sum sizes + uint16_be data_high data_low ≡ length bodies
  pub read : headers ≡ record {
    type_sizes = uint16_be type_high type_low ∷ [];
    all_code_sizes = sizes;
    data_sizes = uint16_be data_high data_low ∷ [];
  }

pub append_nil : (xs : List ℕ) → xs ++ [] ≡ xs
append_nil [] = refl
append_nil (x ∷ xs) = ap (λ ys. x ∷ ys) (append_nil xs)

pub append_assoc : (xs ys zs : List ℕ) → (xs ++ ys) ++ zs ≡ xs ++ (ys ++ zs)
append_assoc [] ys zs = refl
append_assoc (x ∷ xs) ys zs = ap (λ ws. x ∷ ws) (append_assoc xs ys zs)

abbrev pub with_sizes : EofSectionHeaders → List ℕ → EofSectionHeaders
with_sizes headers sizes = record headers { all_code_sizes = headers.all_code_sizes ++ sizes }

-- Reading the sizes of the code sections.
pub read_code_sizes_complete :
    (bytes sizes rest : List ℕ) (headers : EofSectionHeaders)
    → CodeSizes bytes sizes rest
    → read_code_sizes (length sizes) headers bytes ≡ valid (with_sizes headers sizes, rest)
unfolding read_code_sizes
read_code_sizes_complete bytes _ rest headers (none_left _) =
    ap (λ sizes. valid (record headers { all_code_sizes = sizes }, rest))
      (sym (append_nil headers.all_code_sizes))
read_code_sizes_complete _ _ rest headers (one_more h l bytes sizes _ positive p) =
    let e =
      read_code_sizes_complete bytes sizes rest (emplace_back headers code_section (uint16_be h l))
        p in
    let a = append_assoc headers.all_code_sizes (uint16_be h l ∷ []) sizes in
    fail_if-false (uint16_be h l == 0) zero_section_size _ (ground arith)
    ∙ e
    ∙ ap (λ all. valid (record headers { all_code_sizes = all }, rest)) a

pub read_code_sizes_sound :
    (n : ℕ) (headers : EofSectionHeaders) (bytes : List ℕ) (headers' : EofSectionHeaders)
    (rest : List ℕ)
    → read_code_sizes n headers bytes ≡ valid (headers', rest)
    → (sizes : List ℕ) × CodeSizes bytes sizes rest
      × (length sizes ≡ n)
      × (headers' ≡ with_sizes headers sizes)
unfolding read_code_sizes
read_code_sizes_sound zero headers bytes headers' rest h =
    let e = valid-injective h in
    (
      [],
      subst (λ r. CodeSizes bytes [] r) (ap (λ (s : EofSectionHeaders × List ℕ). s.1) e)
          (none_left bytes),
      refl,
      sym (ap (λ (s : EofSectionHeaders × List ℕ). s.0) e)
          ∙ ap (λ all. record headers { all_code_sizes = all })
              (sym (append_nil headers.all_code_sizes)),
    )
read_code_sizes_sound (suc n) headers [] headers' rest h = absurd (invalid-ne-valid h)
read_code_sizes_sound (suc n) headers (x ∷ []) headers' rest h = absurd (invalid-ne-valid h)
read_code_sizes_sound (suc n) headers (x ∷ (y ∷ bytes)) headers' rest h =
    let size = uint16_be x y in
    let (positive, tail) = fail_if-eq-valid (size == 0) zero_section_size _ h in
    let (sizes, form, count, e) =
      read_code_sizes_sound n (emplace_back headers code_section size) bytes headers' rest tail in
    (
      size ∷ sizes,
      one_more x y bytes sizes rest (ground arith) form,
      ap suc count,
      e
          ∙ ap (λ all. record headers { all_code_sizes = all })
              (append_assoc headers.all_code_sizes (size ∷ []) sizes),
    )
