-- ===== src/Instructions/Creation.antt =====
-- CREATE and CREATE2 of lib/assigner/evmone/instructions.hpp. The host's `call`, which runs the
-- code of the new account, is a parameter.
use evm_assigner.Base.{
  ℕ, ◌+◌, ◌-◌, ◌*◌, ◌/◌, ℤ, pos, pos_part, ◌+ℤ◌, ◌-ℤ◌, is_neg, Bool, true, false, not, ◌&&◌, ◌==◌,
  ltb, leb, if◌then◌else◌, [],
}
use evm_assigner.Revision.{tangerine_whistle, shanghai}
use evm_assigner.Intx.{Intx}
use evm_assigner.Memory.{Memory, check_memory_range, num_words}
use evm_assigner.Word.{to_uint64}
use evm_assigner.State.{
  ExecutionState, success, out_of_gas, static_mode_violation, item, set_item, log_stack,
}
use evm_assigner.Host.{
  HostInterface, Environment, Message, create, create2, in_static_mode, Result, is_success,
}
use evm_assigner.Instructions.MemoryAccess.{memory_bytes}
use evm_assigner.Instructions.Copy.{Outcome}
use evm_assigner.Instructions.Storage.{since}
use evm_assigner.Instructions.Calls.{log_items}

-- What a creation finds on the stack, and the height of the stack when its result is pushed.
pub record CreateArguments : Type 0 where
  pub endowment : ℕ
  pub init_code_offset : ℕ
  pub init_code_size : ℕ
  pub salt : ℕ
  pub top : ℕ

-- `has_salt` tells CREATE2 from CREATE.
abbrev create_arguments : Bool → ℕ → ExecutionState → CreateArguments
create_arguments has_salt top s = record {
  endowment = item s top 0;
  init_code_offset = item s top 1;
  init_code_size = item s top 2;
  salt = if has_salt then item s top 3 else 0;
  top = if has_salt then top - 3 else top - 2;
}

module _ {W : Type 0} ⦃host : HostInterface W⦄ ⦃intx : Intx⦄ where
  unfoldable pub create_message : Bool → CreateArguments → ℤ → Environment W → Message
  create_message has_salt a gas env = record {
    kind = if has_salt then create2 else create;
    flags = 0;
    depth = env.msg.depth + 1;
    gas = gas;
    recipient = 0;
    sender = env.msg.recipient;
    input_data =
        memory_bytes env.state.memory (to_uint64 a.init_code_offset 0)
          (to_uint64 a.init_code_size 0);
    value = a.endowment;
    create2_salt = a.salt;
    code_address = 0;
  }

  -- What the result of the host changes: the item, the return data, the gas used.
  unfoldable pub finish_creation :
      CreateArguments → ℤ → ℤ → Result × W → Environment W → Outcome (Environment W)
  finish_creation a msg_gas gas_left (res, world) env =
      let s =
        if is_success res.status_code
        then set_item env.state a.top 0 res.create_address
        else env.state in
      (
        success,
        (
          gas_left -ℤ (msg_gas -ℤ res.gas_left),
          record env {
            state = log_stack s a.top 1 0 true;
            return_data = res.output;
            gas_refund = env.gas_refund +ℤ res.gas_refund;
            world = world;
          },
        ),
      )

  module _ (host_call : W → Message → Result × W) where
    -- A creation behind its memory check, whose outcome is `r`.
    unfoldable pub create_checked :
        Bool → CreateArguments → Bool × (ℤ × Memory) → Environment W → Outcome (Environment W)
    create_checked has_salt a r env =
        let grown = record env { state = record env.state { memory = r.1.1 } } in
        let size = to_uint64 a.init_code_size 0 in
        let word_cost = (if has_salt then 6 else 0) + (if since shanghai env then 2 else 0) in
        let gas = r.1.0 -ℤ pos (num_words size * word_cost) in
        let limit = pos (pos_part gas - pos_part gas / 64) in
        let msg_gas = if since tangerine_whistle env then limit else gas in
        let balance = host.get_balance env.world env.msg.recipient in
        if not r.0
        then (out_of_gas, (r.1.0, grown))
        else if since shanghai env && ltb 0xc000 size
        then (out_of_gas, (r.1.0, grown))
        else if is_neg gas
        then (out_of_gas, (gas, grown))
        else if leb 1024 env.msg.depth
        then (success, (gas, grown))
        else if not (a.endowment == 0) && ltb balance a.endowment
        then (success, (gas, grown))
        else finish_creation a msg_gas gas
            (host_call grown.world (create_message has_salt a msg_gas grown)) grown

    unfoldable pub create_impl : Bool → ℕ → ℤ → Environment W → Outcome (Environment W)
    create_impl has_salt top gas_left env =
        let s = log_items top 0 (if has_salt then 4 else 3) env.state in
        let a = create_arguments has_salt top s in
        let failing = record env { state = set_item s a.top 0 0; return_data = [] } in
        if in_static_mode env
        then (static_mode_violation, (gas_left, env))
        else create_checked has_salt a
            (check_memory_range gas_left s.memory a.init_code_offset a.init_code_size) failing

    unfoldable pub create_ : ℕ → ℤ → Environment W → Outcome (Environment W)
    create_ = create_impl false

    unfoldable pub create2_ : ℕ → ℤ → Environment W → Outcome (Environment W)
    create2_ = create_impl true
