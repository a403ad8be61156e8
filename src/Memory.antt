-- ===== src/Memory.antt =====
-- The memory of the machine: `Memory` of lib/assigner/evmone/execution_state.hpp, and the gas that
-- its growth costs, of lib/assigner/evmone/instructions.hpp. The bytes are a function of the
-- index; those at and above the size have no meaning.
pub mod Grow
mod Tests
use evm_assigner.Base.{
  ℕ, ◌+◌, ◌-◌, ◌*◌, ◌/◌, ◌%◌, ◌^◌, ℤ, pos, ◌-ℤ◌, is_neg, not, ltb, leb, ◌==◌, ◌&&◌, Bool, true,
  false, if◌then◌else◌,
}
use evm_assigner.Intx.{Intx}
use evm_assigner.Word.{to_uint64}

pub record Memory : Type 0 where
  pub bytes : ℕ → ℕ
  pub size : ℕ
  pub capacity : ℕ

abbrev pub page_size : ℕ
page_size = 4096

abbrev pub empty_memory : Memory
empty_memory = record { bytes = λ i. 0; size = 0; capacity = page_size }

-- The capacity after growth to `new_size`.
abbrev grown_capacity : ℕ → ℕ → ℕ
grown_capacity capacity new_size =
    if ltb capacity new_size
    then if ltb (capacity * 2) new_size
      then (new_size + (page_size - 1)) / page_size * page_size
      else capacity * 2
    else capacity

-- `memset` of the bytes from the old size to the new one, behind a reallocation that keeps the
-- bytes below the old capacity.
unfoldable pub grow : Memory → ℕ → Memory
grow memory new_size = record {
  bytes = λ i. if leb memory.size i && ltb i new_size then 0 else memory.bytes i;
  size = new_size;
  capacity = grown_capacity memory.capacity new_size;
}

abbrev pub clear : Memory → Memory
clear memory = record memory { size = 0 }

abbrev pub max_buffer_size : ℕ
max_buffer_size = 2 ^ 32 - 1

abbrev pub word_size : ℕ
word_size = 32

-- The sum is that of `uint64_t`.
abbrev pub num_words : ℕ → ℕ
num_words size_in_bytes = (size_in_bytes + (word_size - 1)) % 2 ^ 64 / word_size

abbrev pub copy_cost : ℕ → ℕ
copy_cost size_in_bytes = num_words size_in_bytes * 3

abbrev pub words_cost : ℕ → ℕ
words_cost words = 3 * words + words * words / 512

-- The gas left and the memory.
unfoldable pub grow_memory : ℤ → Memory → ℕ → ℤ × Memory
grow_memory gas_left memory new_size =
    let new_words = num_words new_size in
    let current_words = memory.size / word_size in
    let cost = pos (words_cost new_words) -ℤ pos (words_cost current_words) in
    let gas = gas_left -ℤ cost in
    (gas, if not (is_neg gas) then grow memory (new_words * word_size) else memory)

module _ ⦃intx : Intx⦄ where
  -- `check_memory` for a size of machine type: whether it passed, the gas left, and the memory.
  unfoldable pub check_memory : ℤ → Memory → ℕ → ℕ → Bool × (ℤ × Memory)
  unfolding grow_memory
  check_memory gas_left memory offset size =
      let offset_uint = to_uint64 offset 0 in
      if ltb max_buffer_size offset_uint
      then (false, (gas_left, memory))
      else let new_size = (offset_uint + size) % 2 ^ 64 in
        let r =
          if ltb memory.size new_size
          then grow_memory gas_left memory new_size
          else (gas_left, memory) in
        (not (is_neg r.0), r)

  -- `check_memory` for the copy instructions, with a word as the size.
  unfoldable pub check_memory_range : ℤ → Memory → ℕ → ℕ → Bool × (ℤ × Memory)
  unfolding check_memory
  check_memory_range gas_left memory offset size =
      if size == 0
      then (true, (gas_left, memory))
      else let size_uint = to_uint64 size 0 in
        if ltb max_buffer_size size_uint
        then (false, (gas_left, memory))
        else check_memory gas_left memory offset size_uint
