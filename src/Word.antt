-- ===== src/Word.antt =====
-- lib/assigner/include/zkevm_word.hpp: the 256-bit word of the machine. A `zkevm_word` has one
-- field, its `intx::uint256`, and is held as that value. The operators that only pass on to
-- intx are the fields of `Intx` themselves.
pub mod Bytes
pub mod Limbs
pub mod Split
pub mod Assign
mod Tests
use evm_assigner.Base.{
  ℕ, ◌-◌, ◌*◌, ◌/◌, ◌%◌, ◌^◌, List, ◌++◌, ◌&&◌, ◌==◌, leb, if◌then◌else◌, take, replicate,
}
use evm_assigner.Blueprint.{integral, integral_shl, integral_add, integral_and}
use evm_assigner.Intx.{Intx}

abbrev pub word_size_bytes : ℕ
word_size_bytes = 32

module _ ⦃intx : Intx⦄ where
  -- The constructor from `data` and `len`, at most 32: the bytes are the low ones of the word.
  unfoldable pub of_bytes : List ℕ → ℕ → ℕ
  of_bytes bytes len = intx.load (replicate (32 - len) 0 ++ take len bytes)

  -- Division is by intx only where the divisor is not 0.
  unfoldable pub sdiv : ℕ → ℕ → ℕ
  sdiv value other = if other == 0 then 0 else intx.sdivrem_quot value other

  unfoldable pub smod : ℕ → ℕ → ℕ
  smod value other = if other == 0 then 0 else intx.sdivrem_rem value other

  unfoldable pub addmod : ℕ → ℕ → ℕ → ℕ
  addmod value other m = if m == 0 then 0 else intx.addmod value other m

  unfoldable pub mulmod : ℕ → ℕ → ℕ → ℕ
  mulmod value other m = if m == 0 then 0 else intx.mulmod value other m

  abbrev pub to_uint64 : ℕ → ℕ → ℕ
  to_uint64 value i = intx.word value i

  abbrev pub set_val : ℕ → ℕ → ℕ → ℕ
  set_val value v i = intx.set_word value i v

  -- `store<T>`, for a `T` of `n` bytes: the low `n` bytes, the most significant first.
  abbrev pub store : ℕ → ℕ → List ℕ
  store n value = intx.store n (value % 2 ^ (8 * n))

  -- `to_address`: the low 20 bytes.
  abbrev pub to_address : ℕ → ℕ
  to_address value = value % 2 ^ 160

  -- What `load_partial_data` reads for `len` bytes: a number of a machine type, shifted down
  -- where the type is wider. Other lengths write nothing.
  abbrev pub partial_word : List ℕ → ℕ → ℕ → ℕ
  partial_word bytes wide shift = intx.load (take wide bytes) / 2 ^ shift

  unfoldable pub load_partial_data : ℕ → List ℕ → ℕ → ℕ → ℕ
  load_partial_data value bytes len i =
      if len == 1
      then set_val value (partial_word bytes 1 0) i
      else if len == 2
      then set_val value (partial_word bytes 2 0) i
      else if len == 3
      then set_val value (partial_word bytes 4 8) i
      else if len == 4
      then set_val value (partial_word bytes 4 0) i
      else if leb 5 len && leb len 8
      then set_val value (partial_word bytes 8 (8 * (8 - len))) i
      else value

  -- The operators and conversions to `integral_type`, here of `w` bits.
  module _ (w : ℕ) where
    unfoldable pub and_integral : ℕ → ℕ → ℕ
    and_integral value other =
        let val = integral w (intx.word value 0) in
        let val₁ = integral_add w val (integral_shl w (intx.word value 1) 64) in
        let val₂ = integral_add w val₁ (integral_shl w (intx.word value 2) 128) in
        let val₃ = integral_add w val₂ (integral_shl w (intx.word value 3) 192) in
        integral_and val₃ other

    unfoldable pub to_field_as_address : ℕ → ℕ
    to_field_as_address value =
        let res = integral w (intx.word value 0) in
        let res₁ = integral_add w res (integral_shl w (intx.word value 1) 64) in
        integral_add w res₁ (integral_shl w (intx.word value 2) 128)

    unfoldable pub w_hi : ℕ → ℕ
    w_hi value = integral_add w (integral_shl w (intx.word value 3) 64) (intx.word value 2)

    unfoldable pub w_lo : ℕ → ℕ
    w_lo value = integral_add w (integral_shl w (intx.word value 1) 64) (intx.word value 0)
