-- ===== src/Eof/Targets.antt =====
-- What `validate_rjump_destinations` of lib/assigner/evmone/eof.cpp has found of the relative jumps
-- when it succeeds.
use evm_assigner.Base.{
  if-true, if-false, ℕ, zero, suc, ◌+◌, ◌*◌, ◌≤◌, ◌<◌, ◌≡◌, ◌⊎◌, refl, sym, ◌∙◌, arith, pos_part,
  is_neg, Bool, true, false, ◌||◌, ◌==◌, leb, Bool-cases, inl, inr, Option, none, some, List, [],
  ◌∷◌, ◌++◌, length, get_or,
}
use mathlib.Core.Path.{subst}
use mathlib.Core.Option.{none-ne-some, some-injective}
use evm_assigner.Eof.{rel_offset_size}
use evm_assigner.Eof.Inversion.{}
use evm_assigner.Eof.Code.{op_rjump_byte, op_rjumpi_byte, op_rjumpv_byte}
use evm_assigner.Eof.Jumps.{
  ◌>>=◌, immediates, destination, check_rjump_destination, check_table, instruction_destinations,
  none_immediate,
}

-- The offsets of the jump at `i`: where they stand, and the position that they count from.
pub data IsOffset (code : List ℕ) (i : ℕ) : ℕ → ℕ → Type 0 where
  jump_offset :
      (get_or code i 0 ≡ op_rjump_byte) ⊎ (get_or code i 0 ≡ op_rjumpi_byte)
      → IsOffset code i (i + 1) (i + 3)
  table_offset :
      (k : ℕ)
      → get_or code i 0 ≡ op_rjumpv_byte
      → k ≤ get_or code (i + 1) 0
      → IsOffset code i (i + 2 + k * 2) (i + immediates code i + 1)

-- The destination lies in the code and the map does not have it.
abbrev pub Allowed : List ℕ → (ℕ → Bool) → ℕ → ℕ → Type 0
Allowed code map place post_pos =
    (is_neg (destination code place post_pos) ≡ false)
    × (pos_part (destination code place post_pos) < length code)
    × (map (pos_part (destination code place post_pos)) ≡ false)

pub >>=-eq-some :
    {A B : Type 0} (m : Option A) (f : A → Option B) {b : B}
    → (m >>= f) ≡ some b
    → (a : A) × (m ≡ some a) × (f a ≡ some b)
>>=-eq-some none f e = absurd (none-ne-some _ e)
>>=-eq-some (some a) f e = (a, refl, e)

module _ (code : List ℕ) (map : ℕ → Bool) where
  none_immediate-append :
      (ds : List ℕ) (d : ℕ)
      → none_immediate map (ds ++ (d ∷ [])) ≡ true
      → (none_immediate map ds ≡ true) × (map d ≡ false)
  unfolding none_immediate
  none_immediate-append [] d e = (refl, ground arith)
  none_immediate-append (x ∷ ds) d e = ground (arith, none_immediate-append ds d)

  check_one :
      (place post_pos : ℕ) (ds ds' : List ℕ)
      → check_rjump_destination code place post_pos ds ≡ some ds'
      → none_immediate map ds' ≡ true
      → (none_immediate map ds ≡ true) × Allowed code map place post_pos
  unfolding check_rjump_destination
  check_one place post_pos ds ds' e ok =
      let d = destination code place post_pos in
      elim (Bool-cases (is_neg d || leb (length code) (pos_part d))) [
        | inl outside ↦ absurd (none-ne-some _ (sym (if-true _ none _ outside) ∙ e))
        | inr inside ↦
            let same = some-injective _ _ (sym (if-false _ none _ inside) ∙ e) in
            let (before, free) =
              none_immediate-append ds (pos_part d)
                (subst (λ ds. none_immediate map ds ≡ true) (sym same) ok) in
            (before, (ground arith, ground arith, free))
      ]

  moved :
      (place place' post_pos post_pos' : ℕ)
      → place ≡ place'
      → post_pos ≡ post_pos'
      → Allowed code map place post_pos
      → Allowed code map place' post_pos'
  moved place place' post_pos post_pos' e e' a =
      subst (λ p. Allowed code map p post_pos') e (subst (λ q. Allowed code map place q) e' a)

  entries :
      (n place post_pos : ℕ)
      → Allowed code map place post_pos
      → ((k : ℕ) → k < n → Allowed code map (place + rel_offset_size + k * 2) post_pos)
      → (k : ℕ) → k < suc n
      → Allowed code map (place + k * 2) post_pos
  entries n place post_pos first others zero less =
      moved place (place + 0 * 2) post_pos post_pos (omega arith) refl first
  entries n place post_pos first others (suc k) less =
      moved (place + 2 + k * 2) (place + suc k * 2) post_pos post_pos (omega arith) refl
        (others k (omega (arith, less)))

  check_all :
      (n place post_pos : ℕ) (ds ds' : List ℕ)
      → check_table code n place post_pos ds ≡ some ds'
      → none_immediate map ds' ≡ true
      → (none_immediate map ds ≡ true)
        × ((k : ℕ) → k < n → Allowed code map (place + k * 2) post_pos)
  unfolding check_table
  check_all zero place post_pos ds ds' e ok = (
    subst (λ ds. none_immediate map ds ≡ true) (sym (some-injective _ _ e)) ok,
    λ k less. absurd (omega (arith, less)),
  )
  check_all (suc n) place post_pos ds ds' e ok =
      let (ds1, first, rest) = >>=-eq-some (check_rjump_destination code place post_pos ds) _ e in
      let (ok1, others) = check_all n (place + rel_offset_size) post_pos ds1 ds' rest ok in
      let (ok0, allowed) = check_one place post_pos ds ds1 first ok1 in
      (ok0, entries n place post_pos allowed others)

  pub instruction-Allowed :
      (i : ℕ) (ds ds' : List ℕ)
      → instruction_destinations code i ds ≡ some ds'
      → none_immediate map ds' ≡ true
      → (none_immediate map ds ≡ true)
        × ((place post_pos : ℕ) → IsOffset code i place post_pos → Allowed code map place post_pos)
  unfolding instruction_destinations
  instruction-Allowed i ds ds' e ok =
      let op = get_or code i 0 in
      let jumps = op == op_rjump_byte || op == op_rjumpi_byte in
      elim (Bool-cases jumps) [
        | inl jump ↦
            let (ok0, allowed) =
              check_one (i + 1) (i + rel_offset_size + 1) ds ds' (sym (if-true jumps _ _ jump) ∙ e)
                ok in
            (ok0, at_jump jump allowed)
        | inr other ↦ elim (Bool-cases (op == op_rjumpv_byte)) [
          | inl table ↦
              let (ok0, allowed) =
                check_all (get_or code (i + 1) 0 + 1) (i + 1 + 1) (i + 1 + immediates code i) ds ds'
                  (sym (if-true (op == op_rjumpv_byte) _ _ table)
                    ∙ sym (if-false jumps _ _ other)
                    ∙ e)
                  ok in
              (ok0, at_table table allowed)
          | inr plain ↦ (
            subst (λ ds. none_immediate map ds ≡ true)
                (sym (
                  some-injective _ _ (
                    sym (if-false (op == op_rjumpv_byte) _ _ plain)
                    ∙ sym (if-false jumps _ _ other)
                    ∙ e)))
                ok,
            at_other other plain,
          )
        ]
      ]
    where
      at_jump :
          get_or code i 0 == op_rjump_byte || get_or code i 0 == op_rjumpi_byte ≡ true
          → Allowed code map (i + 1) (i + rel_offset_size + 1)
          → (place post_pos : ℕ) → IsOffset code i place post_pos
          → Allowed code map place post_pos
      at_jump jump allowed _ _ (jump_offset e) = moved _ _ _ _ refl (omega arith) allowed
      at_jump jump allowed _ _ (table_offset k e less) = absurd (ground arith)

      at_table :
          get_or code i 0 == op_rjumpv_byte ≡ true
          → ((k : ℕ)
              → k < get_or code (i + 1) 0 + 1
              → Allowed code map (i + 1 + 1 + k * 2) (i + 1 + immediates code i))
          → (place post_pos : ℕ) → IsOffset code i place post_pos
          → Allowed code map place post_pos
      at_table table allowed _ _ (jump_offset (inl e)) = absurd (ground arith)
      at_table table allowed _ _ (jump_offset (inr e)) = absurd (ground arith)
      at_table table allowed _ _ (table_offset k e less) =
          moved _ _ _ _ (omega arith) (omega arith) (allowed k (omega (arith, less)))

      at_other :
          get_or code i 0 == op_rjump_byte || get_or code i 0 == op_rjumpi_byte ≡ false
          → get_or code i 0 == op_rjumpv_byte ≡ false
          → (place post_pos : ℕ) → IsOffset code i place post_pos
          → Allowed code map place post_pos
      at_other other plain _ _ (jump_offset (inl e)) = absurd (ground arith)
      at_other other plain _ _ (jump_offset (inr e)) = absurd (ground arith)
      at_other other plain _ _ (table_offset k e less) = absurd (ground arith)
