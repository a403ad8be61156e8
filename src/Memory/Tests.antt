-- ===== src/Memory/Tests.antt =====
-- The theorems on memory checks, at an empty memory and a thousand gas.
use evm_assigner.Base.{ℕ, ◌+◌, ◌*◌, ◌^◌, ◌<◌, ◌≡◌, ◌≢◌, ◌≤◌, ◌⊎◌, refl, arith, pos, true, false}
use evm_assigner.Samples.{sample_intx, sample_intx-IsIntx}
use evm_assigner.Word.{to_uint64}
use evm_assigner.Memory.{
  empty_memory, check_memory, check_memory_range, num_words, words_cost, max_buffer_size,
}
use evm_assigner.Memory.Grow.{
  IsMemory, Checked, check_memory-Checked, check_memory_range_cases, words_cost-lt,
}

empty_memory-IsMemory : IsMemory empty_memory
empty_memory-IsMemory = record { fits = omega arith; whole_words = refl; bounded = omega arith }

check_memory-Checked_example :
    Checked empty_memory
      (pos 1000)
      (to_uint64 ⦃intx = sample_intx⦄ 5000 0)
      32
      (check_memory ⦃intx = sample_intx⦄ (pos 1000) empty_memory 5000 32)
check_memory-Checked_example =
    check_memory-Checked ⦃intx = sample_intx⦄ sample_intx-IsIntx (pos 1000) empty_memory 5000 32
      empty_memory-IsMemory (omega arith) refl

abbrev forty : ℕ
forty = 40

check_memory_range_cases_example :
    ((forty ≡ 0)
      × (check_memory_range ⦃intx = sample_intx⦄ (pos 1000) empty_memory 7 forty
          ≡ (true, (pos 1000, empty_memory))))
    ⊎ ((forty ≢ 0)
        × (max_buffer_size < to_uint64 ⦃intx = sample_intx⦄ forty 0)
        × (check_memory_range ⦃intx = sample_intx⦄ (pos 1000) empty_memory 7 forty
            ≡ (false, (pos 1000, empty_memory))))
    ⊎ ((forty ≢ 0)
        × (to_uint64 ⦃intx = sample_intx⦄ forty 0 ≤ max_buffer_size)
        × Checked empty_memory
            (pos 1000)
            (to_uint64 ⦃intx = sample_intx⦄ 7 0)
            (to_uint64 ⦃intx = sample_intx⦄ forty 0)
            (check_memory_range ⦃intx = sample_intx⦄ (pos 1000) empty_memory 7 forty))
check_memory_range_cases_example =
    check_memory_range_cases ⦃intx = sample_intx⦄ sample_intx-IsIntx (pos 1000) empty_memory 7 forty
      empty_memory-IsMemory refl

words_cost-lt_example :
    (num_words (to_uint64 ⦃intx = sample_intx⦄ 100000 0 + 32)
        * num_words (to_uint64 ⦃intx = sample_intx⦄ 100000 0 + 32)
      < 2 ^ 57)
    × (words_cost (num_words (to_uint64 ⦃intx = sample_intx⦄ 100000 0 + 32)) < 2 ^ 49)
words_cost-lt_example =
    words_cost-lt ⦃intx = sample_intx⦄ sample_intx-IsIntx 100000 32 (omega arith) (omega arith)
