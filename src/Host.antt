-- ===== src/Host.antt =====
-- What the instructions see of the world outside: the message and the transaction of
-- lib/assigner/evmc/evmc.h, and the host behind `evmc_host_interface`, a record of functions on a
-- state `W` of the host. Addresses, `evmc_bytes32` and `evmc_uint256be` are held as values.
use evm_assigner.Base.{
  ℕ, ◌%◌, ◌^◌, ℤ, pos, pos_part, ◌+ℤ◌, ◌-ℤ◌, Bool, ◌==◌, List, ltb, if◌then◌else◌, true, false, [],
}
use evm_assigner.Eof.{Eof1Header}
use evm_assigner.Memory.{clear}
use evm_assigner.Revision.{Revision}
use evm_assigner.Gas.Storage.{StorageStatus}
use evm_assigner.State.{StatusCode, success, ExecutionState}

pub data CallKind : Type 0 where
  call delegatecall callcode create create2 : CallKind

pub data AccessStatus : Type 0 where
  access_cold access_warm : AccessStatus

pub record Message : Type 0 where
  pub kind : CallKind
  pub flags : ℕ
  pub depth : ℕ
  pub gas : ℤ
  pub recipient : ℕ
  pub sender : ℕ
  pub input_data : List ℕ
  pub value : ℕ
  pub create2_salt : ℕ
  pub code_address : ℕ

pub record TxContext : Type 0 where
  pub tx_gas_price : ℕ
  pub tx_origin : ℕ
  pub block_coinbase : ℕ
  pub block_number : ℤ
  pub block_timestamp : ℤ
  pub block_gas_limit : ℤ
  pub block_prev_randao : ℕ
  pub chain_id : ℕ
  pub block_base_fee : ℕ
  pub blob_base_fee : ℕ
  pub blob_hashes : List ℕ

-- `copy_code` gives the bytes that it writes to the buffer.
pub record HostInterface (W : Type 0) : Type 0 where
  pub account_exists : W → ℕ → Bool
  pub get_storage : W → ℕ → ℕ → ℕ
  pub set_storage : W → ℕ → ℕ → ℕ → StorageStatus × W
  pub get_balance : W → ℕ → ℕ
  pub get_code_size : W → ℕ → ℕ
  pub get_code_hash : W → ℕ → ℕ
  pub copy_code : W → ℕ → ℕ → ℕ → List ℕ
  pub selfdestruct : W → ℕ → ℕ → Bool × W
  pub get_block_hash : W → ℤ → ℕ
  pub access_account : W → ℕ → AccessStatus × W
  pub access_storage : W → ℕ → ℕ → AccessStatus × W
  pub get_transient_storage : W → ℕ → ℕ → ℕ
  pub set_transient_storage : W → ℕ → ℕ → ℕ → W

-- The execution state with the fields that only some instructions use: the transaction context,
-- which the state asks the host for and keeps, the EOF header of the code analysis, and the call
-- stack, with the last call first.
pub record Environment (W : Type 0) : Type 0 where
  pub state : ExecutionState
  pub msg : Message
  pub tx_context : TxContext
  pub original_code : List ℕ
  pub return_data : List ℕ
  -- The EOF data section.
  pub eof_data : List ℕ
  pub eof_header : Eof1Header
  pub call_stack : List ℕ
  pub gas_refund : ℤ
  pub output_offset : ℕ
  pub output_size : ℕ
  pub world : W

-- The flag `EVMC_STATIC` of the message is its lowest bit.
abbrev pub in_static_mode : {W : Type 0} → Environment W → Bool
in_static_mode env = env.msg.flags % 2 == 1

-- The conversions between `int64_t` and `uint64_t`.
abbrev pub to_int64 : ℕ → ℤ
to_int64 n = if ltb n (2 ^ 63) then pos n else pos n -ℤ pos (2 ^ 64)

abbrev pub int64_to_uint64 : ℤ → ℕ
int64_to_uint64 z = pos_part (z +ℤ pos (2 ^ 64)) % 2 ^ 64

pub record Result : Type 0 where
  pub status_code : StatusCode
  pub gas_left : ℤ
  pub gas_refund : ℤ
  pub output : List ℕ
  pub create_address : ℕ

abbrev pub result : StatusCode → ℤ → List ℕ → ℕ → Result
result status gas_left output create_address = record {
  status_code = status;
  gas_left = gas_left;
  gas_refund = pos 0;
  output = output;
  create_address = create_address;
}

abbrev pub is_success : StatusCode → Bool
is_success success = true
is_success _ = false

-- ExecutionState::reset. The call id, the trace, the stack, the call stack and the analysis stay.
unfoldable pub reset :
    {W : Type 0}
    → Message
    → Revision
    → TxContext
    → W
    → List ℕ
    → List ℕ
    → Environment W
    → Environment W
reset msg rev tx_context world code section env = record env {
  state = record env.state { memory = clear env.state.memory; rev = rev; status = success };
  msg = msg;
  tx_context = tx_context;
  original_code = code;
  return_data = [];
  eof_data = section;
  gas_refund = pos 0;
  output_offset = 0;
  output_size = 0;
  world = world;
}
