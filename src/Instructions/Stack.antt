-- ===== src/Instructions/Stack.antt =====
-- The instructions of lib/assigner/evmone/instructions.hpp that move items: PUSH, DUP and SWAP, and
-- those that push what the machine knows. `top` is the height of the top item before.
use evm_assigner.Base.{
  ℕ, zero, suc, ◌+◌, ◌-◌, ◌/◌, ◌%◌, ◌^◌, ◌==◌, if◌then◌else◌, true, false, List, drop,
}
use evm_assigner.Intx.{Intx}
use evm_assigner.Word.{load_partial_data, to_uint64, set_val}
use evm_assigner.State.{ExecutionState, item, set_item, log_stack}

-- `stack.push(v)` and the write of the new top item.
unfoldable pub push_item : ℕ → ℕ → ExecutionState → ExecutionState
push_item v top state = log_stack (set_item state (top + 1) 0 v) (top + 1) 1 0 true

abbrev pub push0 : ℕ → ExecutionState → ExecutionState
push0 = push_item 0

-- `pos` is the offset in the executable code.
unfoldable pub pc : ℕ → ExecutionState → ℕ → ℕ × ExecutionState
pc top state pos = (pos + 1, push_item pos top state)

abbrev pub msize : ℕ → ExecutionState → ExecutionState
msize top state = push_item state.memory.size top state

module _ ⦃intx : Intx⦄ where
  -- The full words, the most significant first; `n` of them are left.
  unfoldable pub load_full_words : ℕ → List ℕ → ℕ → ℕ
  load_full_words zero bytes r = r
  load_full_words (suc n) bytes r = load_full_words n (drop 8 bytes) (load_partial_data r bytes 8 n)

  -- The word of `len` bytes of push data.
  unfoldable pub push_data : ℕ → List ℕ → ℕ
  unfolding load_full_words
  push_data len bytes =
      let r = if len % 8 == 0 then 0 else load_partial_data 0 bytes (len % 8) (len / 8) in
      load_full_words (len / 8) (drop (len % 8) bytes) r

  -- The writes of `n` items, of which the first has the index `i`.
  unfoldable pub log_pushed : ℕ → ℕ → ℕ → ExecutionState → ExecutionState
  log_pushed top i zero state = state
  log_pushed top i (suc n) state = log_pushed top (suc i) n (log_stack state top (suc i) i true)

  -- The number of logged items is `len / 32 + len % 32`.
  unfoldable pub push : ℕ → ℕ → ExecutionState → ℕ → ℕ × ExecutionState
  unfolding log_pushed
  push len top state pos =
      let pushed =
        set_item state (top + 1) 0 (push_data len (drop (pos + 1) state.executable_code)) in
      (pos + (len + 1), log_pushed (top + 1) 0 (len / 32 + len % 32) pushed)

  -- DUP1 to DUP16.
  unfoldable pub dup : ℕ → ℕ → ExecutionState → ExecutionState
  unfolding push_item
  dup n top state =
      let s = log_stack state top n (n - 1) false in push_item (item s top (n - 1)) top s

  -- The four words of `t` into `a`, the lowest first.
  unfoldable pub copy_words : ℕ → ℕ → ℕ
  copy_words a t =
      set_val (set_val (set_val (set_val a (to_uint64 t 0) 0) (to_uint64 t 1) 1) (to_uint64 t 2) 2)
        (to_uint64 t 3) 3

  -- SWAP1 to SWAP16. The write of the lower item is logged one place too high.
  unfoldable pub swap : ℕ → ℕ → ExecutionState → ExecutionState
  unfolding copy_words
  swap n top state =
      let s₁ = log_stack state top (n + 1) n false in
      let s₂ = log_stack s₁ top 1 0 false in
      let s₃ = set_item s₂ top 0 (item s₂ top n) in
      let s₄ = set_item s₃ top n (copy_words (item s₃ top n) (item s₂ top 0)) in
      let s₅ = log_stack s₄ top 1 0 true in log_stack s₅ top n (n - 1) true

  -- `dup<0>`, which takes the number of the item from the stack; as an `int` it is not negative
  -- below 2 ^ 31. With the top item one higher, the
  -- item `addr` is `stack[addr - 1]`, also where `addr` is 0.
  unfoldable pub dup_top : ℕ → ExecutionState → ExecutionState
  unfolding push_item
  dup_top top state =
      let s₁ = log_stack state top 1 0 false in
      let addr = to_uint64 (item s₁ top 0) 0 % 2 ^ 32 in
      let s₂ = log_stack s₁ top (suc (addr % 2 ^ 16)) addr false in
      push_item (item s₂ top addr) (top - 1) s₂

  -- `swap<0>`, which takes the number of the item from the stack.
  unfoldable pub swap_top : ℕ → ExecutionState → ExecutionState
  unfolding copy_words
  swap_top top state =
      let s₁ = log_stack state top 1 0 false in
      let addr = to_uint64 (item s₁ top 0) 0 % 2 ^ 16 in
      let s₂ = log_stack s₁ (top - 1) (suc addr) addr false in
      let s₃ = log_stack s₂ (top - 1) 1 0 false in
      let s₄ = set_item s₃ (top - 1) 0 (item s₃ (top - 1) addr) in
      let s₅ =
        set_item s₄ (top - 1) addr (copy_words (item s₄ (top - 1) addr) (item s₃ (top - 1) 0)) in
      let s₆ = log_stack s₅ (top - 1) 1 0 true in log_stack s₆ top (suc addr) addr true
