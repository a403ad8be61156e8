-- ===== src/Eof/Marks.antt =====
-- The map of the immediates in `validate_rjump_destinations` of lib/assigner/evmone/eof.cpp, and
-- where the relative jumps of a code that it accepts lead.
use evm_assigner.Base.{
  if-true, if-false, ℕ, zero, suc, ◌+◌, ◌≤◌, ◌<◌, ◌≡◌, sym, ap, ◌∙◌, arith, pos_part, is_neg, Bool,
  true, false, leb, Bool-cases, Option-cases, inl, inr, some, List, length,
}
use mathlib.Core.Path.{subst}
use mathlib.Core.Option.{some-injective}
use evm_assigner.Eof.Inversion.{}
use evm_assigner.Eof.Jumps.{
  JumpScan, fill_n, immediates, destination, instruction_destinations, scan_jumps, none_immediate,
  empty_scan, check_destinations, validate_rjump_destinations,
}
use evm_assigner.Eof.Starts.{Starts, Starts-all, Starts-le, Starts-lt, place-cases}
use evm_assigner.Eof.Targets.{IsOffset, Allowed, >>=-eq-some, instruction-Allowed}

module _ (code : List ℕ) (map : ℕ → Bool) where
  -- All offsets of the instructions from `i` on, if the destinations found are not in the map.
  scan-Allowed :
      (fuel i : ℕ) (s s' : JumpScan) (j : ℕ)
      → length code ≤ i + fuel
      → scan_jumps code fuel i s ≡ some s'
      → none_immediate map s'.rjumpdests ≡ true
      → (none_immediate map s.rjumpdests ≡ true)
        × (Starts code i j
            → (place post_pos : ℕ) → IsOffset code j place post_pos
            → Allowed code map place post_pos)
  unfolding scan_jumps
  scan-Allowed zero i s s' j enough e ok = (
    subst (λ s. none_immediate map s.rjumpdests ≡ true) (sym (some-injective _ _ e)) ok,
    λ p. absurd (omega (arith, enough, Starts-le code i j p, Starts-lt code i j p)),
  )
  scan-Allowed (suc fuel) i s s' j enough e ok = elim (Bool-cases (leb (length code) i)) [
    | inl over ↦ (
      subst (λ s. none_immediate map s.rjumpdests ≡ true)
          (sym (some-injective _ _ (sym (if-true (leb (length code) i) _ _ over) ∙ e))) ok,
      λ p. absurd (ground (arith, Starts-le code i j p, Starts-lt code i j p)),
    )
    | inr inside ↦
        let (ds, found, rest) =
          >>=-eq-some (instruction_destinations code i s.rjumpdests) _
            (sym (if-false (leb (length code) i) _ _ inside) ∙ e) in
        let (ok1, later) =
          scan-Allowed fuel (i + immediates code i + 1) _ s' j (omega (arith, enough)) rest ok in
        let (ok0, allowed) = instruction-Allowed code map i s.rjumpdests ds found ok1 in
        (
          ok0,
          Starts-all code
              (λ j.
                (place post_pos : ℕ)
                → IsOffset code j place post_pos
                → Allowed code map place post_pos)
              i j allowed later,
        )
  ]

false-ne-true : false ≡ true → ⊥
false-ne-true h = cc

module _ (code : List ℕ) where
  fill_kept :
      (map : ℕ → Bool) (start n place : ℕ) → map place ≡ true → fill_n map start n true place ≡ true
  fill_kept map start n place marked = ground arith

  fill_marked :
      (map : ℕ → Bool) (i n place : ℕ)
      → i < place
      → place ≤ i + n
      → fill_n map (i + 1) n true place ≡ true
  fill_marked map i n place behind within = ground arith

  -- What is marked stays marked, and the immediates of the instructions from `i` on are marked.
  scan_marks :
      (fuel i : ℕ) (s s' : JumpScan) (j place : ℕ)
      → length code ≤ i + fuel
      → scan_jumps code fuel i s ≡ some s'
      → (s.immediate_map place ≡ true → s'.immediate_map place ≡ true)
        × (Starts code i j
            → j < place
            → place ≤ j + immediates code j
            → s'.immediate_map place ≡ true)
  unfolding scan_jumps
  scan_marks zero i s s' j place enough e = (
    λ marked. subst (λ s. s.immediate_map place ≡ true) (some-injective _ _ e) marked,
    λ p. absurd (omega (arith, enough, Starts-le code i j p, Starts-lt code i j p)),
  )
  scan_marks (suc fuel) i s s' j place enough e = elim (Bool-cases (leb (length code) i)) [
    | inl over ↦ (
      λ marked.
          subst (λ s. s.immediate_map place ≡ true)
            (some-injective _ _ (sym (if-true (leb (length code) i) _ _ over) ∙ e)) marked,
      λ p. absurd (ground (arith, Starts-le code i j p, Starts-lt code i j p)),
    )
    | inr inside ↦
        let (ds, found, rest) =
          >>=-eq-some (instruction_destinations code i s.rjumpdests) _
            (sym (if-false (leb (length code) i) _ _ inside) ∙ e) in
        let (kept, others) =
          scan_marks fuel (i + immediates code i + 1) _ s' j place (omega (arith, enough)) rest in
        (
          λ marked. kept (fill_kept s.immediate_map (i + 1) (immediates code i) place marked),
          Starts-all code
              (λ j. j < place → place ≤ j + immediates code j → s'.immediate_map place ≡ true) i j
              (λ behind within.
                kept (fill_marked s.immediate_map i (immediates code i) place behind within))
              others,
        )
  ]

  -- In a code that validate_rjump_destinations accepts, the offset of every relative jump (RJUMP,
  -- RJUMPI and all entries of the table of RJUMPV) at the start of an instruction leads to a place
  -- that is not negative, lies in the code and is again the start of an instruction.
  pub validate_rjump_destinations-Starts :
      (i place post_pos : ℕ)
      → validate_rjump_destinations code ≡ true
      → Starts code 0 i
      → IsOffset code i place post_pos
      → (is_neg (destination code place post_pos) ≡ false)
        × Starts code 0 (pos_part (destination code place post_pos))
  unfolding validate_rjump_destinations
  validate_rjump_destinations-Starts i place post_pos accepted p offset =
      elim (Option-cases (scan_jumps code (length code) 0 empty_scan)) [
        | inl failed ↦ absurd (false-ne-true (sym (ap check_destinations failed) ∙ accepted))
        | inr (s, scanned) ↦
            let free : none_immediate s.immediate_map s.rjumpdests ≡ true =
              sym (ap check_destinations scanned) ∙ accepted in
            let (_, allowed) =
              scan-Allowed code s.immediate_map (length code) 0 empty_scan s i (omega arith) scanned
                free in
            let (in_code, inside, unmarked) = allowed p place post_pos offset in
            let target = pos_part (destination code place post_pos) in
            (
              in_code,
              elim (place-cases (length code) code 0 target (omega (arith, inside)) (omega arith)
                  inside) [
                    | inl start ↦ start
                    | inr q ↦
                        let (_, marked) =
                          scan_marks (length code) 0 empty_scan s q.start target (omega arith)
                            scanned in
                        absurd (false-ne-true (sym unmarked ∙ marked q.starts q.behind q.within))
                  ],
            )
      ]
