-- ===== src/Instructions/EofCode.antt =====
-- The instructions of lib/assigner/evmone/instructions.hpp for EOF code: relative jumps, DUPN and
-- SWAPN, the data section, and functions. `pos` is the offset of the instruction in the executable
-- code; `none` is the null pointer that ends the run.
use evm_assigner.Base.{
  ℕ, ◌+◌, ◌-◌, ◌*◌, ◌%◌, ◌^◌, ℤ, pos, pos_part, ◌+ℤ◌, ◌-ℤ◌, ltb_ℤ, is_neg, Bool, true, false, not,
  ltb, leb, if◌then◌else◌, Option, none, some, List, [], ◌∷◌, ◌++◌, length, get_or, take, drop,
  replicate, min,
}
use evm_assigner.Intx.{Intx}
use evm_assigner.Memory.{Memory, check_memory_range, copy_cost}
use evm_assigner.Word.{of_bytes, to_uint64}
use evm_assigner.Eof.{EofCodeType, default_type, read_int16_be, read_uint16_be}
use evm_assigner.Rw.{memory_operation}
use evm_assigner.State.{
  ExecutionState, success, out_of_gas, stack_underflow, stack_overflow, stack_limit, item, set_item,
  push_back, log_stack,
}
use evm_assigner.Host.{Environment}
use evm_assigner.Instructions.Stack.{push_item}
use evm_assigner.Instructions.MemoryAccess.{store_bytes, log_bytes}
use evm_assigner.Instructions.Copy.{Outcome, log_reads, copy_bytes, source_index}

-- Where a jump by a relative offset leads; it is not negative in code that has been validated.
abbrev relative : ℕ → ℤ → ℕ
relative pc_post offset = pos_part (pos pc_post +ℤ offset)

unfoldable pub rjump : ExecutionState → ℕ → Option ℕ × ExecutionState
rjump state pc = (some (relative (pc + 3) (read_int16_be state.executable_code (pc + 1))), state)

module _ ⦃intx : Intx⦄ where
  unfoldable pub rjumpi : ℕ → ExecutionState → ℕ → Option ℕ × ExecutionState
  rjumpi top state pc =
      let s = log_stack state top 1 0 false in
      if ltb 0 (to_uint64 (item s top 0) 0) then rjump s pc else (some (pc + 3), s)

  unfoldable pub rjumpv : ℕ → ExecutionState → ℕ → Option ℕ × ExecutionState
  rjumpv top state pc =
      let s = log_stack state top 1 0 false in
      let chosen = to_uint64 (item s top 0) 0 in
      let max_index = get_or state.executable_code (pc + 1) 0 in
      let pc_post = pc + 1 + 1 + (max_index + 1) * 2 in
      if ltb max_index chosen then (some pc_post, s) else (
        some (
            relative pc_post
              (read_int16_be state.executable_code (pc + (2 + chosen % 2 ^ 16 * 2)))),
        s,
      )

-- `n` is one more than the immediate.
unfoldable pub dupn : ℕ → ExecutionState → ℕ → Option ℕ × ExecutionState
dupn top state pc =
    let n = get_or state.executable_code (pc + 1) 0 + 1 in
    let s = log_stack state top n (n - 1) false in
    if ltb (top % 2 ^ 16) n
    then (none, record state { status = stack_underflow })
    else (some (pc + 2), push_item (item s top (n - 1)) top s)

unfoldable pub swapn : ℕ → ExecutionState → ℕ → Option ℕ × ExecutionState
swapn top state pc =
    let n = get_or state.executable_code (pc + 1) 0 + 1 in
    let s₁ = log_stack state top (n + 1) n false in
    let s₂ = log_stack s₁ top 1 0 false in
    let s₃ = set_item (set_item s₂ top 0 (item s₂ top n)) top n (item s₂ top 0) in
    let s₄ = log_stack s₃ top 1 0 true in
    if leb top n
    then (none, record state { status = stack_underflow })
    else (some (pc + 2), log_stack s₄ top (n + 1) n true)

-- Zeros logged from an address on.
unfoldable pub log_zeros : ℕ → ℕ → ExecutionState → ExecutionState
log_zeros addr ℕ.zero s = s
log_zeros addr (ℕ.suc n) s =
    log_zeros (ℕ.suc addr) n
      (push_back s (memory_operation s.call_id addr (length s.rw_trace) true 0))

-- The height that a function needs above its inputs.
abbrev required_size : EofCodeType → ℤ
required_size t = pos t.max_stack_height -ℤ pos t.inputs

module _ ⦃intx : Intx⦄ where
  -- DATACOPY behind the memory check, whose outcome is `r`. The zeros are logged from the start
  -- of the range on.
  unfoldable pub datacopy_checked :
      List ℕ → ℕ → ExecutionState → Bool × (ℤ × Memory) → Outcome ExecutionState
  datacopy_checked section top s r =
      let dst = to_uint64 (item s top 0) 0 in
      let src = source_index section (item s top 1) in
      let size = to_uint64 (item s top 2) 0 in
      let copy_size = min size (length section - src) in
      let grown = record s { memory = r.1.1 } in
      let gas = r.1.0 -ℤ pos (copy_cost size) in
      let bytes = take copy_size (drop src section) in
      let copied = record grown { memory = store_bytes grown.memory dst bytes } in
      let logged = log_bytes dst copy_size true copied in
      let cleared = record logged { memory = copy_bytes grown.memory dst size bytes } in
      if not r.0
      then (out_of_gas, (r.1.0, grown))
      else if is_neg gas
      then (out_of_gas, (gas, grown))
      else (success, (gas, log_zeros dst (size - copy_size) cleared))

module _ {W : Type 0} where
  unfoldable pub datasize : ℕ → Environment W → Environment W
  datasize top env = record env { state = push_item (length env.eof_data) top env.state }

  abbrev callee : Environment W → ℕ → EofCodeType
  callee env index = get_or env.eof_header.types index default_type

  -- The start of a code section in the executable code, which begins with the first one.
  abbrev section_start : Environment W → ℕ → ℕ
  section_start env index =
      get_or env.eof_header.code_offsets index 0 - get_or env.eof_header.code_offsets 0 0

  abbrev overflow : Environment W → Option ℕ × Environment W
  overflow env = (none, record env { state = record env.state { status = stack_overflow } })

  unfoldable pub callf : ℕ → Environment W → ℕ → Option ℕ × Environment W
  callf top env pc =
      let index = read_uint16_be env.state.executable_code (pc + 1) in
      if ltb_ℤ (pos stack_limit) (pos top +ℤ required_size (callee env index))
      then overflow env
      else if leb stack_limit (length env.call_stack)
      then overflow env
      else (some (section_start env index), record env { call_stack = (pc + 3) ∷ env.call_stack })

  -- `none` for an empty call stack, from which the source reads nevertheless.
  abbrev pub pop_call : List ℕ → Environment W → Option ℕ × Environment W
  pop_call [] env = (none, env)
  pop_call (p ∷ calls) env = (some p, record env { call_stack = calls })

  unfoldable pub retf : Environment W → Option ℕ × Environment W
  retf env = pop_call env.call_stack env

  unfoldable pub jumpf : ℕ → Environment W → ℕ → Option ℕ × Environment W
  jumpf top env pc =
      let index = read_uint16_be env.state.executable_code (pc + 1) in
      if ltb_ℤ (pos stack_limit) (pos top +ℤ required_size (callee env index))
      then overflow env
      else (some (section_start env index), env)

  module _ ⦃intx : Intx⦄ where
    -- The write is logged only where the index is not behind the data; the bytes that are there
    -- are the low ones of the word.
    unfoldable pub dataload : ℕ → Environment W → Environment W
    dataload top env =
        let s = log_stack env.state top 1 0 false in
        let begin = to_uint64 (item s top 0) 0 in
        let copied = min (begin + 32) (length env.eof_data) - begin in
        let v =
          of_bytes (take copied (drop begin env.eof_data) ++ replicate (32 - copied) 0) copied in
        if ltb (length env.eof_data) begin
        then record env { state = set_item s top 0 0 }
        else record env { state = log_stack (set_item s top 0 v) top 1 0 true }

    unfoldable pub dataloadn : ℕ → Environment W → ℕ → Option ℕ × Environment W
    dataloadn top env pc =
        let index = read_uint16_be env.state.executable_code (pc + 1) in
        (
          some (pc + 3),
          record env { state = push_item (of_bytes (drop index env.eof_data) 32) top env.state },
        )

    unfoldable pub datacopy : ℕ → ℤ → Environment W → Outcome (Environment W)
    datacopy top gas_left env =
        let s = log_reads top 3 env.state in
        let r =
          datacopy_checked env.eof_data top s
            (check_memory_range gas_left s.memory (item s top 0) (item s top 2)) in
        (r.0, (r.1.0, record env { state = r.1.1 }))
