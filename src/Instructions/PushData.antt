-- ===== src/Instructions/PushData.antt =====
-- The word that PUSH (lib/assigner/evmone/instructions.hpp) makes of its data.
use evm_assigner.Base.{
  ℕ, zero, suc, ◌+◌, ◌*◌, ◌/◌, ◌%◌, ◌^◌, ◌≤◌, ◌<◌, ◌≡◌, refl, sym, ap, ap₂, ◌∙◌, arith, List, ◌∷◌,
  ◌==◌, true, if◌then◌else◌, take, drop, length, Bool-cases, inl, inr,
}
use native.Mathlib.Nat.{zero-div}
use evm_assigner.Intx.{Intx, IsIntx, be_value}
use evm_assigner.Word.{load_partial_data}
use evm_assigner.Word.Bytes.{IsBytes, be_value-take-lt, pow_bytes, load_partial_data-set_word}
use evm_assigner.Word.Split.{drop-IsBytes, length-drop_le, be_value-split}
use evm_assigner.Word.Assign.{set_word-div}
use evm_assigner.State.{ExecutionState, log_stack}
use evm_assigner.Instructions.Access.{stack_list, stack_list-congr}
use evm_assigner.Instructions.Stack.{load_full_words, push_data, push, log_pushed}

module _ ⦃intx : Intx⦄ (laws : IsIntx intx) where
  -- One full word, and then the words below it.
  one_word :
      (n : ℕ) (bytes : List ℕ) (r : ℕ)
      → n < 4
      → 8 ≤ length bytes
      → IsBytes bytes
      → r < 2 ^ 256
      → (load_full_words n (drop 8 bytes) (intx.set_word r n (be_value (take 8 bytes)))
          ≡ intx.set_word r n (be_value (take 8 bytes)) / 2 ^ (64 * n) * 2 ^ (64 * n)
            + be_value (take (8 * n) (drop 8 bytes)))
      → load_full_words (suc n) bytes r
        ≡ (r / 2 ^ (64 * suc n) * 2 ^ 64 + be_value (take 8 bytes)) * 2 ^ (64 * n)
          + be_value (take (8 * n) (drop 8 bytes))
  unfolding load_full_words
  one_word n bytes r h long p fits below =
      ap (load_full_words n (drop 8 bytes))
        (load_partial_data-set_word laws r n bytes 8 (omega arith) (omega arith) long p)
      ∙ below
      ∙ ap (λ (t : ℕ). t * 2 ^ (64 * n) + be_value (take (8 * n) (drop 8 bytes)))
          (set_word-div laws r n (be_value (take 8 bytes)) h
            (be_value-take-lt bytes 8 (omega arith) long p) fits)

  no_words : (bytes : List ℕ) (r : ℕ) → load_full_words 0 bytes r ≡ r
  unfolding load_full_words
  no_words bytes r = refl

  load_full_words_lem :
      (n : ℕ) (bytes : List ℕ) (r : ℕ)
      → n ≤ 4
      → 8 * n ≤ length bytes
      → IsBytes bytes
      → r < 2 ^ 256
      → load_full_words n bytes r ≡ r / 2 ^ (64 * n) * 2 ^ (64 * n) + be_value (take (8 * n) bytes)
  load_full_words_lem zero bytes r h long p fits = omega (arith, no_words bytes r)
  load_full_words_lem (suc zero) bytes r h long p fits = omega (
    arith,
    one_word 0 bytes r (omega arith) (omega arith) p fits (
        load_full_words_lem zero (drop 8 bytes) (intx.set_word r 0 (be_value (take 8 bytes)))
          (omega arith) (length-drop_le 8 0 bytes (omega arith)) (drop-IsBytes 8 bytes p)
          (laws.set_word-lt r 0 _ (omega arith)
            (be_value-take-lt bytes 8 (omega arith) (omega arith) p) fits)),
    be_value-split 8 0 bytes (omega arith),
  )
  load_full_words_lem (suc (suc zero)) bytes r h long p fits = omega (
    arith,
    one_word 1 bytes r (omega arith) (omega arith) p fits (
        load_full_words_lem (suc zero) (drop 8 bytes) (intx.set_word r 1 (be_value (take 8 bytes)))
          (omega arith) (length-drop_le 8 8 bytes (omega arith)) (drop-IsBytes 8 bytes p)
          (laws.set_word-lt r 1 _ (omega arith)
            (be_value-take-lt bytes 8 (omega arith) (omega arith) p) fits)),
    be_value-split 8 8 bytes (omega arith),
  )
  load_full_words_lem (suc (suc (suc zero))) bytes r h long p fits = omega (
    arith,
    one_word 2 bytes r (omega arith) (omega arith) p fits (
        load_full_words_lem (suc (suc zero)) (drop 8 bytes)
          (intx.set_word r 2 (be_value (take 8 bytes))) (omega arith)
          (length-drop_le 8 16 bytes (omega arith)) (drop-IsBytes 8 bytes p)
          (laws.set_word-lt r 2 _ (omega arith)
            (be_value-take-lt bytes 8 (omega arith) (omega arith) p) fits)),
    be_value-split 8 16 bytes (omega arith),
  )
  load_full_words_lem (suc (suc (suc (suc zero)))) bytes r h long p fits = omega (
    arith,
    one_word 3 bytes r (omega arith) (omega arith) p fits (
        load_full_words_lem (suc (suc (suc zero))) (drop 8 bytes)
          (intx.set_word r 3 (be_value (take 8 bytes))) (omega arith)
          (length-drop_le 8 24 bytes (omega arith)) (drop-IsBytes 8 bytes p)
          (laws.set_word-lt r 3 _ (omega arith)
            (be_value-take-lt bytes 8 (omega arith) (omega arith) p) fits)),
    be_value-split 8 24 bytes (omega arith),
  )
  load_full_words_lem (suc (suc (suc (suc (suc n))))) bytes r h long p fits = absurd (omega arith)

  -- The partial word stands above the full words.
  partial_start : ℕ → List ℕ → ℕ
  partial_start len bytes =
      if len % 8 == 0 then 0 else load_partial_data 0 bytes (len % 8) (len / 8)

  partial_start_lem :
      (len : ℕ) (bytes : List ℕ)
      → len ≤ 32
      → 8 ≤ length bytes
      → IsBytes bytes
      → (partial_start len bytes / 2 ^ (64 * (len / 8)) ≡ be_value (take (len % 8) bytes))
        × (partial_start len bytes < 2 ^ 256)
  unfolding partial_start
  partial_start_lem len bytes high long p = elim (Bool-cases (len % 8 == 0)) [
    | inl whole ↦ rw whole (
      zero-div (2 ^ (64 * (len / 8))) ∙ ap (λ (m : ℕ). be_value (take m bytes)) (no_part whole),
      omega arith,
    )
    | inr part ↦
        rw
          (
            part,
            load_partial_data-set_word laws 0 (len / 8) bytes (len % 8) (ground arith) (omega arith)
                long p,
          )
          (
            set_word-div laws 0 (len / 8) (be_value (take (len % 8) bytes)) (ground arith)
                  (be_value-take-lt bytes (len % 8) (omega arith) long p) (omega arith)
                ∙ omega (arith, zero-div (2 ^ (64 * suc (len / 8)))),
            laws.set_word-lt 0 (len / 8) _ (ground arith)
                (be_value-take-lt bytes (len % 8) (omega arith) long p) (omega arith),
          )
  ]
    where
      no_part : (len % 8 == 0) ≡ true → 0 ≡ len % 8
      no_part whole = ground arith

  -- The word of the data, for every length.
  pub push_data_lem :
      (len : ℕ) (bytes : List ℕ)
      → len ≤ 32
      → 32 ≤ length bytes
      → IsBytes bytes
      → push_data len bytes ≡ be_value (take len bytes)
  unfolding push_data partial_start
  push_data_lem len bytes high long p =
      let (above, fits) = partial_start_lem len bytes high (omega arith) p in
      load_full_words_lem (len / 8) (drop (len % 8) bytes) (partial_start len bytes) (omega arith)
        (length-drop_le (len % 8) (8 * (len / 8)) bytes (omega arith))
        (drop-IsBytes (len % 8) bytes p) fits
      ∙ ap
          (λ (t : ℕ).
            t * 2 ^ (64 * (len / 8)) + be_value (take (8 * (len / 8)) (drop (len % 8) bytes)))
          above
      ∙ ap
          (λ (t : ℕ).
            be_value (take (len % 8) bytes) * t
            + be_value (take (8 * (len / 8)) (drop (len % 8) bytes)))
          (ap (λ (t : ℕ). 2 ^ t) (bits (len / 8)) ∙ pow_bytes (8 * (len / 8)))
      ∙ sym (be_value-split (len % 8) (8 * (len / 8)) bytes (omega arith))
      ∙ ap (λ (m : ℕ). be_value (take m bytes)) (parts len)
    where
      bits : (n : ℕ) → 64 * n ≡ 8 * (8 * n)
      bits n = omega arith

      parts : (len : ℕ) → len % 8 + 8 * (len / 8) ≡ len
      parts len = omega arith

  -- Logging leaves the stack as it is.
  log_pushed-stack_space :
      (top i n : ℕ) (state : ExecutionState) (j : ℕ)
      → (log_pushed top i n state).stack_space j ≡ state.stack_space j
  unfolding log_pushed log_stack
  log_pushed-stack_space top i zero state j = refl
  log_pushed-stack_space top i (suc n) state j =
      log_pushed-stack_space top (suc i) n (log_stack state top (suc i) i true) j

  -- For a length of at most 32, with at least 32 bytes of code behind the opcode, PUSH puts the
  -- big-endian number of its data bytes on the stack, leaves the items below, and continues behind
  -- the data.
  pub push-stack_list :
      (len n pos : ℕ) (state : ExecutionState)
      → len ≤ 32
      → 32 ≤ length (drop (pos + 1) state.executable_code)
      → IsBytes (drop (pos + 1) state.executable_code)
      → ((push len n state pos).0 ≡ pos + 1 + len)
        × (stack_list (push len n state pos).1 (suc n)
            ≡ be_value (take len (drop (pos + 1) state.executable_code)) ∷ stack_list state n)
  unfolding push
  push-stack_list len n pos state high long p = (
    omega arith,
    ap₂ ◌∷◌
        (log_pushed-stack_space (n + 1) 0 (len / 32 + len % 32) _ (suc n)
          ∙ ground (arith, push_data_lem len (drop (pos + 1) state.executable_code) high long p))
        (stack_list-congr (push len n state pos).1 state n
          (λ i le. log_pushed-stack_space (n + 1) 0 (len / 32 + len % 32) _ i ∙ ground arith)),
  )
