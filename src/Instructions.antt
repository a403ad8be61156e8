-- ===== src/Instructions.antt =====
-- The core instructions of lib/assigner/evmone/instructions.hpp that compute on the stack. They
-- assume that the stack requirements have been checked; `top` is the height of the top item.
-- Each logs the items it reads, then its result.
pub mod Access
pub mod Binary
pub mod Environment
pub mod Copy
pub mod Accounts
pub mod Storage
pub mod EofCode
pub mod Blocks
pub mod Calls
pub mod Creation
pub mod Stack
pub mod Moves
pub mod PushData
pub mod MemoryAccess
pub mod Load
pub mod Jumps
mod Tests
use evm_assigner.Base.{
  ℕ, ◌+◌, ◌-◌, ◌*◌, ◌/◌, ◌%◌, ◌^◌, ◌==◌, ltb, leb, if◌then◌else◌, Bool, true, false, ℤ, pos, ◌-ℤ◌,
  is_neg, not, ◌&&◌,
}
use evm_assigner.Intx.{Intx}
use evm_assigner.Revision.{rank}
use evm_assigner.Word.{sdiv, smod, addmod, mulmod, to_uint64}
use evm_assigner.State.{ExecutionState, StatusCode, success, out_of_gas, item, set_item, log_stack}

-- `stack.pop()` gives `x`; the new top item `v` becomes `f x v`.
unfoldable pub binary : (ℕ → ℕ → ℕ) → ℕ → ExecutionState → ExecutionState
binary f top state =
    let s₁ = log_stack state top 2 1 false in
    let s₂ = log_stack s₁ top 1 0 false in
    let s₃ = set_item s₂ (top - 1) 0 (f (item s₂ top 0) (item s₂ (top - 1) 0)) in
    log_stack s₃ (top - 1) 1 0 true

-- The top item `v` becomes `f v`.
unfoldable pub unary : (ℕ → ℕ) → ℕ → ExecutionState → ExecutionState
unary f top state =
    let s₁ = log_stack state top 1 0 false in
    let s₂ = set_item s₁ top 0 (f (item s₁ top 0)) in log_stack s₂ top 1 0 true

-- A `bool` as a word.
abbrev pub word_of_bool : Bool → ℕ
word_of_bool b = if b then 1 else 0

abbrev pub noop : ExecutionState → ExecutionState
noop state = state

abbrev pub pop : ExecutionState → ExecutionState
pop state = state

abbrev pub jumpdest : ExecutionState → ExecutionState
jumpdest state = state

module _ ⦃intx : Intx⦄ where
  abbrev pub add : ℕ → ExecutionState → ExecutionState
  add = binary (λ x v. intx.add v x)

  abbrev pub mul : ℕ → ExecutionState → ExecutionState
  mul = binary (λ x v. intx.mul v x)

  abbrev pub sub : ℕ → ExecutionState → ExecutionState
  sub = binary (λ x v. intx.sub x v)

  abbrev pub div : ℕ → ExecutionState → ExecutionState
  div = binary (λ x v. if v == 0 then 0 else intx.quot x v)

  abbrev pub sdiv_ : ℕ → ExecutionState → ExecutionState
  sdiv_ = binary (λ x v. sdiv x v)

  abbrev pub mod_ : ℕ → ExecutionState → ExecutionState
  mod_ = binary (λ x v. if v == 0 then 0 else intx.rem x v)

  abbrev pub smod_ : ℕ → ExecutionState → ExecutionState
  smod_ = binary (λ x v. smod x v)

  -- Two items are popped, and the result is logged at the new top.
  unfoldable pub addmod_ : ℕ → ExecutionState → ExecutionState
  addmod_ top state =
      let s₁ = log_stack state top 3 2 false in
      let s₂ = log_stack s₁ top 2 1 false in
      let s₃ = log_stack s₂ top 1 0 false in
      let s₄ =
        set_item s₃ (top - 2) 0
          (addmod (item s₃ top 0) (item s₃ (top - 1) 0) (item s₃ (top - 2) 0)) in
      log_stack s₄ (top - 2) 1 0 true

  -- Nothing is popped, so that the write is logged at the old top, with the item there.
  unfoldable pub mulmod_ : ℕ → ExecutionState → ExecutionState
  mulmod_ top state =
      let s₁ = log_stack state top 3 2 false in
      let s₂ = log_stack s₁ top 2 1 false in
      let s₃ = log_stack s₂ top 1 0 false in
      let s₄ = set_item s₃ top 2 (mulmod (item s₃ top 0) (item s₃ top 1) (item s₃ top 2)) in
      log_stack s₄ top 1 0 true

  -- The cost of a byte of the exponent, from SPURIOUS_DRAGON on.
  abbrev exponent_cost : ExecutionState → ℕ
  exponent_cost state = if leb 3 (rank state.rev) then 50 else 10

  unfoldable pub exp : ℕ → ℤ → ExecutionState → StatusCode × (ℤ × ExecutionState)
  exp top gas_left state =
      let s₁ = log_stack state top 2 1 false in
      let s₂ = log_stack s₁ top 1 0 false in
      let exponent = item s₂ (top - 1) 0 in
      let gas =
        gas_left -ℤ pos (intx.count_significant_bytes exponent * exponent_cost state % 2 ^ 32) in
      let s₃ = set_item s₂ (top - 1) 0 (intx.exp (item s₂ top 0) exponent) in
      if is_neg gas
      then (out_of_gas, (gas, s₂))
      else (success, (gas, log_stack s₃ (top - 1) 1 0 true))

  -- The words above the sign word become the sign; the sign word itself is computed, but stays.
  abbrev sign_byte_of : ℕ → ℕ → ℕ
  sign_byte_of ext x = to_uint64 x (to_uint64 ext 0 / 8) / 2 ^ (to_uint64 ext 0 % 8 * 8) % 256

  abbrev sign_ex : ℕ → ℕ → ℕ
  sign_ex ext x = if leb 128 (sign_byte_of ext x) then 2 ^ 64 - 1 else 0

  abbrev extend_word : ℕ → ℕ → ℕ → ℕ → ℕ
  extend_word sign index i x = if ltb index i then intx.set_word x i sign else x

  unfoldable pub sign_extended : ℕ → ℕ → ℕ
  sign_extended ext x =
      let sign = sign_ex ext x in
      let index = to_uint64 ext 0 / 8 in
      if ltb ext 31
      then extend_word sign index 1 (extend_word sign index 2 (extend_word sign index 3 x))
      else x

  abbrev pub signextend : ℕ → ExecutionState → ExecutionState
  signextend = binary sign_extended

  abbrev pub lt : ℕ → ExecutionState → ExecutionState
  lt = binary (λ x v. word_of_bool (ltb x v))

  abbrev pub gt : ℕ → ExecutionState → ExecutionState
  gt = binary (λ x v. word_of_bool (ltb v x))

  abbrev pub slt : ℕ → ExecutionState → ExecutionState
  slt = binary (λ x v. word_of_bool (intx.slt x v))

  abbrev pub sgt : ℕ → ExecutionState → ExecutionState
  sgt = binary (λ x v. word_of_bool (intx.slt v x))

  abbrev pub eq : ℕ → ExecutionState → ExecutionState
  eq = binary (λ x v. word_of_bool (v == x))

  abbrev pub iszero : ℕ → ExecutionState → ExecutionState
  iszero = unary (λ v. word_of_bool (v == 0))

  abbrev pub and_ : ℕ → ExecutionState → ExecutionState
  and_ = binary (λ x v. intx.and v x)

  abbrev pub or_ : ℕ → ExecutionState → ExecutionState
  or_ = binary (λ x v. intx.or v x)

  abbrev pub xor_ : ℕ → ExecutionState → ExecutionState
  xor_ = binary (λ x v. intx.xor v x)

  abbrev pub not_ : ℕ → ExecutionState → ExecutionState
  not_ = unary intx.complement

  -- Byte `n` of `x`, the most significant first.
  unfoldable pub byte_of : ℕ → ℕ → ℕ
  byte_of n x =
      let index = 31 - to_uint64 n 0 % 32 in
      let shifted = to_uint64 x (index / 8) / 2 ^ (index % 8 * 8) in
      if ltb n 32 then shifted % 256 else 0

  abbrev pub byte : ℕ → ExecutionState → ExecutionState
  byte = binary byte_of

  abbrev pub shl : ℕ → ExecutionState → ExecutionState
  shl = binary (λ x v. intx.shl v x)

  abbrev pub shr : ℕ → ExecutionState → ExecutionState
  shr = binary (λ x v. intx.shr v x)

  -- The sign test compares an unsigned word with 0, so that the sign mask is 0.
  unfoldable pub sar_of : ℕ → ℕ → ℕ
  sar_of y x =
      let is_negative = ltb (to_uint64 x 3) 0 in
      let sign_mask = if is_negative then 1 else 0 in
      let mask_shift = if ltb y 256 then 256 - to_uint64 y 0 else 0 in
      intx.or (intx.shr x y) (intx.shl sign_mask mask_shift)

  abbrev pub sar : ℕ → ExecutionState → ExecutionState
  sar = binary sar_of
