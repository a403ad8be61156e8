-- ===== src/Memory/Grow.antt =====
-- What the memory checks of lib/assigner/evmone/instructions.hpp leave: the memory and the gas.
use evm_assigner.Base.{
  ℕ, ◌+◌, ◌-◌, ◌*◌, ◌/◌, ◌%◌, ◌^◌, ◌≤◌, ◌<◌, ◌≡◌, ◌≢◌, ◌⊎◌, inl, inr, refl, arith, ℤ, pos, ◌-ℤ◌,
  is_neg, not, ltb, ◌==◌, Bool, true, false, Bool-cases, -ℤ_parts, eq_of_parts, ltb→lt,
}
use native.Mathlib.Nat.{mul-le-mul}
use evm_assigner.Intx.{Intx, IsIntx}
use evm_assigner.Word.{to_uint64}
use evm_assigner.Memory.{
  Memory, grow, grow_memory, check_memory, check_memory_range, num_words, words_cost,
  grown_capacity, max_buffer_size,
}

-- Whole words and pages, and no more words than the checks let through.
pub record IsMemory (memory : Memory) : Type 0 where
  pub fits : memory.size ≤ memory.capacity
  pub whole_words : memory.size % 32 ≡ 0
  pub bounded : memory.size ≤ 2 ^ 33

-- From `memory` and `gas` to `memory'` and `gas'`, where the range ends at `stop`.
pub record IsGrown (memory : Memory) (gas : ℤ) (memory' : Memory) (gas' : ℤ) (stop : ℕ)
    : Type 0 where
  pub grown-IsMemory : IsMemory memory'
  pub reaches : stop ≤ memory'.size
  pub grows : memory.size ≤ memory'.size
  pub keeps : (i : ℕ) → i < memory.size → memory'.bytes i ≡ memory.bytes i
  pub zeros : (i : ℕ) → memory.size ≤ i → i < memory'.size → memory'.bytes i ≡ 0
  pub pays :
      gas' ≡ gas -ℤ (pos (words_cost (memory'.size / 32)) -ℤ pos (words_cost (memory.size / 32)))

num_words_bounds :
    (n : ℕ)
    → n ≤ 2 ^ 33 - 2
    → (n ≤ num_words n * 32) × (num_words n * 32 ≤ 2 ^ 33) × (num_words n * 32 < n + 32)
num_words_bounds n h = (omega arith, omega arith, omega arith)

words_whole : (w : ℕ) → (w * 32 % 32 ≡ 0) × (w * 32 / 32 ≡ w)
words_whole w = (omega arith, omega arith)

grown_capacity_fits : (c n : ℕ) → n ≤ grown_capacity c n
grown_capacity_fits c n = ground arith

grow-IsGrown :
    (memory : Memory) (gas : ℤ) (stop : ℕ)
    → IsMemory memory
    → memory.size < stop
    → stop ≤ 2 ^ 33 - 2
    → IsGrown memory gas
        (grow memory (num_words stop * 32))
        (gas -ℤ (pos (words_cost (num_words stop)) -ℤ pos (words_cost (memory.size / 32))))
        stop
unfolding grow
grow-IsGrown memory gas stop valid longer bound = record {
  grown-IsMemory = record {
    fits = grown_capacity_fits memory.capacity (num_words stop * 32);
    whole_words = (words_whole (num_words stop)).0;
    bounded = (num_words_bounds stop bound).1;
  };
  reaches = (num_words_bounds stop bound).0;
  grows = omega (arith, (num_words_bounds stop bound).0);
  keeps = λ i lt. ground arith;
  zeros = λ i le lt. ground arith;
  pays = rw (words_whole (num_words stop)).1 refl;
}

sub_difference : (gas c : ℤ) → gas ≡ gas -ℤ (c -ℤ c)
sub_difference gas c =
    eq_of_parts gas (gas -ℤ (c -ℤ c)) (omega (arith, -ℤ_parts gas (c -ℤ c), -ℤ_parts c c))

stay-IsGrown :
    (memory : Memory) (gas : ℤ) (stop : ℕ)
    → IsMemory memory
    → stop ≤ memory.size
    → IsGrown memory gas memory gas stop
stay-IsGrown memory gas stop valid short = record {
  grown-IsMemory = valid;
  reaches = short;
  grows = omega arith;
  keeps = λ i lt. refl;
  zeros = λ i le lt. absurd (omega arith);
  pays = sub_difference gas (pos (words_cost (memory.size / 32)));
}

-- The outcomes of a check of the range of `size` bytes from `offset`.
pub data Checked (memory : Memory) (gas : ℤ) (offset size : ℕ) : Bool × (ℤ × Memory) → Type 0 where
  too_far : max_buffer_size < offset → Checked memory gas offset size (false, (gas, memory))
  out_of_gas :
      (gas' : ℤ)
      → is_neg gas' ≡ true
      → memory.size < offset + size
      → gas'
        ≡ gas
          -ℤ (pos (words_cost (num_words (offset + size))) -ℤ pos (words_cost (memory.size / 32)))
      → Checked memory gas offset size (false, (gas', memory))
  passed :
      (gas' : ℤ) (memory' : Memory)
      → is_neg gas' ≡ false
      → IsGrown memory gas memory' gas' (offset + size)
      → Checked memory gas offset size (true, (gas', memory'))

abbrev grown_gas : ℤ → Memory → ℕ → ℤ
grown_gas gas memory stop =
    gas -ℤ (pos (words_cost (num_words stop)) -ℤ pos (words_cost (memory.size / 32)))

grow_memory-Checked :
    (gas : ℤ) (memory : Memory) (offset size : ℕ)
    → IsMemory memory
    → memory.size < offset + size
    → offset + size ≤ 2 ^ 33 - 2
    → Checked memory gas offset size (
      not (is_neg (grow_memory gas memory (offset + size)).0),
      grow_memory gas memory (offset + size),
    )
unfolding grow_memory
grow_memory-Checked gas memory offset size valid longer bound =
    elim (Bool-cases (is_neg (grown_gas gas memory (offset + size)))) [
      | inl negative ↦
          rw negative (out_of_gas (grown_gas gas memory (offset + size)) negative longer refl)
      | inr enough ↦ rw enough (
          passed (grown_gas gas memory (offset + size))
            (grow memory (num_words (offset + size) * 32)) enough
            (grow-IsGrown memory gas (offset + size) valid longer bound))
    ]

module _ ⦃intx : Intx⦄ (laws : IsIntx intx) where
  -- With gas that is not negative, a well-formed memory and a size of at most 32 bits, check_memory
  -- has one of three outcomes: it refuses an offset whose low 64 bits exceed 32 bits, and changes
  -- nothing; it runs out of gas after the quadratic charge, with the memory as it was; or it passes
  -- with gas that is not negative and a well-formed memory that reaches the end of the range, the
  -- old bytes kept, zeros behind them, and exactly the difference of the two memory costs paid.
  pub check_memory-Checked :
      (gas : ℤ) (memory : Memory) (offset size : ℕ)
      → IsMemory memory
      → size ≤ max_buffer_size
      → is_neg gas ≡ false
      → Checked memory gas (to_uint64 offset 0) size (check_memory gas memory offset size)
  check_memory-Checked gas memory offset size valid small paid =
      elim (Bool-cases (ltb max_buffer_size (to_uint64 offset 0))) [
        | inl far ↦ unfold check_memory in rw far (too_far (ltb→lt _ _ far))
        | inr near ↦ elim (Bool-cases (ltb memory.size (to_uint64 offset 0 + size))) [
          | inl longer ↦
              unfold check_memory in
              rw (near, no_wrap near, longer)
                (grow_memory-Checked gas memory (to_uint64 offset 0) size valid (ltb→lt _ _ longer)
                  (ground arith))
          | inr short ↦
              unfold check_memory in
              rw (near, no_wrap near, short, paid)
                (passed gas memory paid
                  (stay-IsGrown memory gas (to_uint64 offset 0 + size) valid (ground arith)))
        ]
      ]
    where
      no_wrap :
          ltb max_buffer_size (to_uint64 offset 0) ≡ false
          → (to_uint64 offset 0 + size) % 2 ^ 64 ≡ to_uint64 offset 0 + size
      no_wrap near = ground arith

  -- With gas that is not negative and a well-formed memory, the check of the copy instructions has
  -- three cases, of which no two hold together: an empty range passes, and nothing changes,
  -- whatever the offset is; a size that is not 0 and whose low 64 bits exceed 32 bits is refused,
  -- and nothing changes; and any other size has the outcomes of the check for its low 64 bits.
  pub check_memory_range_cases :
      (gas : ℤ) (memory : Memory) (offset size : ℕ)
      → IsMemory memory
      → is_neg gas ≡ false
      → ((size ≡ 0) × (check_memory_range gas memory offset size ≡ (true, (gas, memory))))
        ⊎ ((size ≢ 0)
            × (max_buffer_size < to_uint64 size 0)
            × (check_memory_range gas memory offset size ≡ (false, (gas, memory))))
        ⊎ ((size ≢ 0)
            × (to_uint64 size 0 ≤ max_buffer_size)
            × Checked memory gas
                (to_uint64 offset 0)
                (to_uint64 size 0)
                (check_memory_range gas memory offset size))
  check_memory_range_cases gas memory offset size valid paid = elim (Bool-cases (size == 0)) [
    | inl empty ↦ inl (ground arith, unfold check_memory_range in rw empty refl)
    | inr some_bytes ↦ elim (Bool-cases (ltb max_buffer_size (to_uint64 size 0))) [
      | inl far ↦ inr (
          inl (
            not_empty some_bytes,
            ltb→lt _ _ far,
            unfold check_memory_range in rw (some_bytes, far) refl,
          ))
      | inr near ↦
          let short : to_uint64 size 0 ≤ max_buffer_size = ground arith in
          inr (
            inr (
              not_empty some_bytes,
              short,
              unfold check_memory_range in
                  rw (some_bytes, near)
                    (check_memory-Checked gas memory offset (to_uint64 size 0) valid short paid),
            ))
    ]
  ]
    where
      not_empty : (size == 0) ≡ false → size ≢ 0
      not_empty h e = absurd (ground (arith, e))

  -- For an offset whose low 64 bits are at most 32 bits long, and a size of at most 32 bits, the
  -- square of the word count is below 2 ^ 57 and the cost below 2 ^ 49, so that the signed 64-bit
  -- arithmetic of grow_memory does not overflow on the new size.
  pub words_cost-lt :
      (offset size : ℕ)
      → to_uint64 offset 0 ≤ max_buffer_size
      → size ≤ max_buffer_size
      → (num_words (to_uint64 offset 0 + size) * num_words (to_uint64 offset 0 + size) < 2 ^ 57)
        × (words_cost (num_words (to_uint64 offset 0 + size)) < 2 ^ 49)
  words_cost-lt offset size near small =
      few_words (num_words (to_uint64 offset 0 + size)) (omega arith)
    where
      few_words : (w : ℕ) → w ≤ 2 ^ 28 → (w * w < 2 ^ 57) × (words_cost w < 2 ^ 49)
      few_words w h = (omega (arith, mul-le-mul h h), omega (arith, mul-le-mul h h))
