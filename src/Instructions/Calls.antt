-- ===== src/Instructions/Calls.antt =====
-- The calls of lib/assigner/evmone/instructions.hpp: CALL, CALLCODE, DELEGATECALL and STATICCALL.
-- The host's `call`, which enters the interpreter again, is a parameter.
use evm_assigner.Base.{
  ℕ, zero, suc, ◌+◌, ◌-◌, ◌/◌, ℤ, pos, pos_part, ◌+ℤ◌, ◌-ℤ◌, ltb_ℤ, is_neg, Bool, true, false, not,
  ◌&&◌, ◌||◌, ◌==◌, ltb, leb, if◌then◌else◌, [], length, take, min,
}
use evm_assigner.Revision.{spurious_dragon, tangerine_whistle, prague}
use evm_assigner.Intx.{Intx}
use evm_assigner.Memory.{check_memory_range}
use evm_assigner.Word.{to_uint64, to_address}
use evm_assigner.State.{
  ExecutionState, success, out_of_gas, static_mode_violation, item, set_item, log_stack,
}
use evm_assigner.Eof.{is_eof_container}
use evm_assigner.Host.{
  HostInterface, Environment, Message, CallKind, call, callcode, delegatecall, in_static_mode,
  to_int64, Result, is_success,
}
use evm_assigner.Instructions.MemoryAccess.{memory_bytes, store_bytes}
use evm_assigner.Instructions.Copy.{Outcome}
use evm_assigner.Instructions.Accounts.{charge_account}
use evm_assigner.Instructions.Storage.{since}

-- The opcodes that `call_impl` serves.
pub data CallOpcode : Type 0 where
  op_call op_callcode op_delegatecall op_staticcall : CallOpcode

abbrev is_op_call : CallOpcode → Bool
is_op_call op_call = true
is_op_call _ = false

abbrev is_delegatecall : CallOpcode → Bool
is_delegatecall op_delegatecall = true
is_delegatecall _ = false

abbrev has_value_argument : CallOpcode → Bool
has_value_argument op_call = true
has_value_argument op_callcode = true
has_value_argument _ = false

abbrev kind_of : CallOpcode → CallKind
kind_of op_delegatecall = delegatecall
kind_of op_callcode = callcode
kind_of _ = call

-- The reads of `n` items from the `i`-th downwards.
unfoldable pub log_items : ℕ → ℕ → ℕ → ExecutionState → ExecutionState
log_items top i zero s = s
log_items top i (suc n) s = log_items top (suc i) n (log_stack s top (suc i) i false)

-- What a call finds on the stack, and the height of the stack when its result is pushed.
pub record CallArguments : Type 0 where
  pub gas : ℕ
  pub dst : ℕ
  pub value : ℕ
  pub input_offset : ℕ
  pub input_size : ℕ
  pub output_offset : ℕ
  pub output_size : ℕ
  pub top : ℕ

abbrev call_arguments : ⦃intx : Intx⦄ → CallOpcode → ℕ → ExecutionState → CallArguments
call_arguments op top s =
    let first = if has_value_argument op then 3 else 2 in
    record {
      gas = item s top 0;
      dst = to_address (item s top 1);
      value = if has_value_argument op then item s top 2 else 0;
      input_offset = item s top first;
      input_size = item s top (first + 1);
      output_offset = item s top (first + 2);
      output_size = item s top (first + 3);
      top = top - (first + 3);
    }

-- The recipient, the sender, the value and the flags of the message by the opcode.
abbrev recipient_of : CallOpcode → Message → ℕ → ℕ
recipient_of op_call msg dst = dst
recipient_of op_staticcall msg dst = dst
recipient_of _ msg dst = msg.recipient

abbrev flags_of : CallOpcode → Message → ℕ
flags_of op_staticcall msg = 1
flags_of _ msg = msg.flags

module _ {W : Type 0} ⦃host : HostInterface W⦄ ⦃intx : Intx⦄ where
  unfoldable pub call_message : CallOpcode → CallArguments → ℤ → Environment W → Message
  call_message op a gas env = record {
    kind = kind_of op;
    flags = flags_of op env.msg;
    depth = env.msg.depth + 1;
    gas = gas;
    recipient = recipient_of op env.msg a.dst;
    sender = if is_delegatecall op then env.msg.sender else env.msg.recipient;
    input_data =
        memory_bytes env.state.memory (to_uint64 a.input_offset 0) (to_uint64 a.input_size 0);
    value = if is_delegatecall op then env.msg.value else a.value;
    create2_salt = 0;
    code_address = a.dst;
  }

  -- What the result of the host changes: the item, the output in the memory, the gas used.
  unfoldable pub finish_call :
      CallArguments → ℤ → ℤ → Result × W → Environment W → Outcome (Environment W)
  finish_call a msg_gas gas_left (res, world) env =
      let s = set_item env.state a.top 0 (if is_success res.status_code then 1 else 0) in
      let logged = log_stack s a.top 1 0 true in
      let copy_size = min (to_uint64 a.output_size 0) (length res.output) in
      let memory =
        store_bytes logged.memory (to_uint64 a.output_offset 0) (take copy_size res.output) in
      (
        success,
        (
          gas_left -ℤ (msg_gas -ℤ res.gas_left),
          record env {
            state = record logged { memory = memory };
            return_data = res.output;
            gas_refund = env.gas_refund +ℤ res.gas_refund;
            world = world;
          },
        ),
      )

  -- DELEGATECALL from EOF code to code that is not EOF, from PRAGUE on.
  abbrev leaves_eof : CallOpcode → ℕ → Environment W → Bool
  leaves_eof op dst env =
      is_delegatecall op
      && since prague env
      && is_eof_container env.original_code
      && not (is_eof_container (host.copy_code env.world dst 0 2))

  module _ (host_call : W → Message → Result × W) where
    -- A call whose gas is taken: with the stipend, and with the failures that cost nothing more.
    unfoldable pub send_call :
        CallOpcode → CallArguments → ℤ → ℤ → Environment W → Outcome (Environment W)
    send_call op a granted left env =
        let has_value = not (a.value == 0) in
        let stipend = if has_value then 2300 else 0 in
        let msg_gas = granted +ℤ pos stipend in
        let gas_left = left +ℤ pos stipend in
        if leb 1024 env.msg.depth
        then (success, (gas_left, env))
        else if has_value && ltb (host.get_balance env.world env.msg.recipient) a.value
        then (success, (gas_left, env))
        else if leaves_eof op a.dst env
        then (success, (gas_left, env))
        else finish_call a msg_gas gas_left (host_call env.world (call_message op a msg_gas env))
            env

    -- The gas of a call behind its memory checks: the cost, and the gas that the message gets. The
    -- low word of the gas on the stack is read as an `int64_t`.
    unfoldable pub charge_call :
        CallOpcode → CallArguments → ℤ → Environment W → Outcome (Environment W)
    charge_call op a gas_left env =
        let has_value = not (a.value == 0) in
        let makes_account =
          is_op_call op
          && (has_value || not (since spurious_dragon env))
          && not (host.account_exists env.world a.dst) in
        let cost = (if has_value then 9000 else 0) + (if makes_account then 25000 else 0) in
        let gas = gas_left -ℤ pos cost in
        let requested = to_int64 (to_uint64 a.gas 0) in
        let limit = pos (pos_part gas - pos_part gas / 64) in
        if is_op_call op && has_value && in_static_mode env
        then (static_mode_violation, (gas_left, env))
        else if is_neg gas
        then (out_of_gas, (gas, env))
        else if since tangerine_whistle env
        then send_call op a (if ltb_ℤ limit requested then limit else requested) gas env
        else if ltb_ℤ gas requested
        then (out_of_gas, (gas, env))
        else send_call op a requested gas env

    -- Both memory checks, of the input and then of the output.
    unfoldable pub check_call :
        CallOpcode → CallArguments → ℤ → Environment W → Outcome (Environment W)
    check_call op a gas_left env =
        let r = check_memory_range gas_left env.state.memory a.input_offset a.input_size in
        let grown = record env { state = record env.state { memory = r.1.1 } } in
        let q = check_memory_range r.1.0 r.1.1 a.output_offset a.output_size in
        let grown' = record env { state = record env.state { memory = q.1.1 } } in
        if not r.0
        then (out_of_gas, (r.1.0, grown))
        else if not q.0
        then (out_of_gas, (q.1.0, grown'))
        else charge_call op a q.1.0 grown'

    unfoldable pub call_impl : CallOpcode → ℕ → ℤ → Environment W → Outcome (Environment W)
    call_impl op top gas_left env =
        let s = log_items top 0 (if has_value_argument op then 7 else 6) env.state in
        let a = call_arguments op top s in
        let failing = record env { state = set_item s a.top 0 0; return_data = [] } in
        let charged = charge_account a.dst gas_left failing in
        if charged.0 then (out_of_gas, charged.1) else check_call op a charged.1.0 charged.1.1

    unfoldable pub call_ : ℕ → ℤ → Environment W → Outcome (Environment W)
    call_ = call_impl op_call

    unfoldable pub callcode_ : ℕ → ℤ → Environment W → Outcome (Environment W)
    callcode_ = call_impl op_callcode

    unfoldable pub delegatecall_ : ℕ → ℤ → Environment W → Outcome (Environment W)
    delegatecall_ = call_impl op_delegatecall

    unfoldable pub staticcall : ℕ → ℤ → Environment W → Outcome (Environment W)
    staticcall = call_impl op_staticcall
