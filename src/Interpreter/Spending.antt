-- ===== src/Interpreter/Spending.antt =====
-- The gas that the instructions leave: the rules that they share, and the memory checks.
pub mod Opcodes
pub mod Callers
pub mod Hosts
pub mod Ranges
use evm_assigner.Base.{
  ℕ, ◌+◌, ◌-◌, ◌*◌, ◌/◌, ◌%◌, ◌^◌, ◌≤◌, ◌<◌, ◌≡◌, refl, arith, ℤ, pos, ◌+ℤ◌, ◌-ℤ◌, ◌≤ℤ◌, +ℤ_parts,
  -ℤ_parts, pos_part, neg_part, is_neg, ltb, not, ◌==◌, Bool, true, false, if◌then◌else◌, List,
}
use native.Mathlib.Nat.{mul-le-mul}
use evm_assigner.Intx.{Intx}
use evm_assigner.Word.{to_uint64}
use evm_assigner.Memory.{
  Memory, grow, grow_memory, check_memory, check_memory_range, num_words, words_cost,
  max_buffer_size, copy_cost,
}
use evm_assigner.State.{ExecutionState, StatusCode}
use evm_assigner.Instructions.Copy.{Outcome}

-- An outcome leaves no more than `gas`.
pub record Falls {S : Type 0} (gas : ℤ) (o : Outcome S) : Type 0 where
  pub falls : o.1.0 ≤ℤ gas

pub sub_falls : (gas : ℤ) (cost : ℕ) → gas -ℤ pos cost ≤ℤ gas
sub_falls gas cost = omega (arith, -ℤ_parts gas (pos cost))

pub ≤ℤ_trans : (a b c : ℤ) → a ≤ℤ b → b ≤ℤ c → a ≤ℤ c
≤ℤ_trans a b c h k = omega arith

module _ {S : Type 0} (gas : ℤ) where
  pub if-Falls :
      (b : Bool) (x y : Outcome S) → Falls gas x → Falls gas y → Falls gas (if b then x else y)
  if-Falls true x y h k = h
  if-Falls false x y h k = k

  -- An outcome that leaves the gas `g`, or that less a cost.
  pub keep-Falls : (g : ℤ) (status : StatusCode) (s : S) → g ≤ℤ gas → Falls gas (status, (g, s))
  keep-Falls g status s h = record { falls = h }

  pub pay-Falls :
      (g : ℤ) (cost : ℕ) (status : StatusCode) (s : S)
      → g ≤ℤ gas
      → Falls gas (status, (g -ℤ pos cost, s))
  pay-Falls g cost status s h = record {
    falls = ≤ℤ_trans (g -ℤ pos cost) g gas (sub_falls g cost) h;
  }

pub ruleset falling = (if-Falls, keep-Falls, pay-Falls)

pub ≤ℤ_refl : (a : ℤ) → a ≤ℤ a
≤ℤ_refl a = omega arith

words_cost_mono : (m n : ℕ) → m ≤ n → words_cost m ≤ words_cost n
words_cost_mono m n h = let k : m * m ≤ n * n = mul-le-mul h h in omega arith

num_words_mono : (size stop : ℕ) → size < stop → stop ≤ 2 ^ 34 → size / 32 ≤ num_words stop
num_words_mono size stop h k = omega arith

grow_memory_falls :
    (gas : ℤ) (memory : Memory) (stop : ℕ)
    → memory.size < stop
    → stop ≤ 2 ^ 34
    → (grow_memory gas memory stop).0 ≤ℤ gas
unfolding grow_memory
grow_memory_falls gas memory stop h k =
    let c =
      words_cost_mono (memory.size / 32) (num_words stop) (num_words_mono memory.size stop h k) in
    let p = -ℤ_parts (pos (words_cost (num_words stop))) (pos (words_cost (memory.size / 32))) in
    let q =
      -ℤ_parts gas (pos (words_cost (num_words stop)) -ℤ pos (words_cost (memory.size / 32))) in
    omega arith

module _ ⦃intx : Intx⦄ where
  pub check_memory_falls :
      (gas : ℤ) (memory : Memory) (offset size : ℕ)
      → size ≤ max_buffer_size
      → (check_memory gas memory offset size).1.0 ≤ℤ gas
  unfolding check_memory
  check_memory_falls gas memory offset size small =
      ground (arith, grow_memory_falls gas memory ((to_uint64 offset 0 + size) % 2 ^ 64))

  pub check_memory_range_falls :
      (gas : ℤ) (memory : Memory) (offset size : ℕ)
      → (check_memory_range gas memory offset size).1.0 ≤ℤ gas
  unfolding check_memory_range
  check_memory_range_falls gas memory offset size =
      ground (arith, check_memory_falls gas memory offset (to_uint64 size 0))
