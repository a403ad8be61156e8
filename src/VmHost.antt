-- ===== src/VmHost.antt =====
-- lib/assigner/include/vm_host.hpp: the host of the program, its accounts and its calls. A map is
-- a list of pairs of a key and a value. The interpreter, which a call enters again, and the keccak
-- hash are parameters.
pub mod Accounts
mod Tests
use evm_assigner.Base.{
  ℕ, zero, suc, ◌+◌, ◌-◌, ◌*◌, ◌%◌, ◌^◌, ℤ, pos, ◌-ℤ◌, ltb_ℤ, Bool, true, false, not, ◌&&◌, ◌==◌,
  leb, ltb, if◌then◌else◌, Option, none, some, List, [], ◌∷◌, length, get_or, take, drop, min,
}
use Prim.Native.Nat.{bit_xor}
use evm_assigner.Revision.{Revision, shanghai}
use evm_assigner.Intx.{Intx}
use evm_assigner.Gas.Storage.{StorageStatus, assigned, deleted, modified}
use evm_assigner.State.{StatusCode, success, failure, internal_error}
use evm_assigner.Host.{
  HostInterface, Message, CallKind, call, callcode, delegatecall, create, create2, TxContext,
  AccessStatus, access_cold, Result, result, is_success,
}

-- `std::map::find`.
unfoldable pub find : {A : Type 0} → List (ℕ × A) → ℕ → Option A
find [] key = none
find ((k, a) ∷ entries) key = if k == key then some a else find entries key

-- `map[key] = a`.
unfoldable pub assign : {A : Type 0} → List (ℕ × A) → ℕ → A → List (ℕ × A)
assign [] key a = (key, a) ∷ []
assign ((k, b) ∷ entries) key a =
    if k == key then (k, a) ∷ entries else (k, b) ∷ assign entries key a

-- What is behind an iterator, or `d` at the end.
abbrev pub value_or : {A : Type 0} → Option A → A → A
value_or none d = d
value_or (some a) d = a

pub record Account : Type 0 where
  pub balance : ℕ
  pub code : List ℕ
  pub storage : List (ℕ × ℕ)
  pub transient_storage : List (ℕ × ℕ)

abbrev pub new_account : Account
new_account = record { balance = 0; code = []; storage = []; transient_storage = [] }

-- Byte `i`, from the most significant, of the hash of a code: the exclusive or of its bytes that
-- are `i` modulo 32.
unfoldable pub code_hash_byte : List ℕ → ℕ → ℕ
code_hash_byte [] i = 0
code_hash_byte (v ∷ code) i = bit_xor (if v % 32 == i then v else 0) (code_hash_byte code i)

-- The number of the first `n` bytes.
unfoldable pub code_hash : List ℕ → ℕ → ℕ
code_hash code zero = 0
code_hash code (suc n) = code_hash code n * 256 + code_hash_byte code n

pub record VmHost : Type 0 where
  pub accounts : List (ℕ × Account)
  pub tx_context : TxContext

abbrev pub with_accounts : VmHost → List (ℕ × Account) → VmHost
with_accounts host accounts = record host { accounts = accounts }

unfoldable pub account_exists : VmHost → ℕ → Bool
account_exists host addr = elim (find host.accounts addr) [ none ↦ false | some acc ↦ true ]

abbrev pub storage_of : Option Account → List (ℕ × ℕ)
storage_of none = []
storage_of (some acc) = acc.storage

unfoldable pub get_storage : VmHost → ℕ → ℕ → ℕ
get_storage host addr key = value_or (find (storage_of (find host.accounts addr)) key) 0

-- The slot of an account that has it is set; other slots are not made.
unfoldable pub set_slot : VmHost → ℕ → ℕ → ℕ → Account → Option ℕ → StorageStatus × VmHost
set_slot host addr key value acc none = (deleted, host)
set_slot host addr key value acc (some prev) = (
  (if prev == value then assigned else modified),
  with_accounts host
      (assign host.accounts addr (record acc { storage = assign acc.storage key value })),
)

abbrev pub set_in_account : VmHost → ℕ → ℕ → ℕ → Option Account → StorageStatus × VmHost
set_in_account host addr key value none = (deleted, host)
set_in_account host addr key value (some acc) =
    set_slot host addr key value acc (find acc.storage key)

unfoldable pub set_storage : VmHost → ℕ → ℕ → ℕ → StorageStatus × VmHost
set_storage host addr key value = set_in_account host addr key value (find host.accounts addr)

unfoldable pub get_balance : VmHost → ℕ → ℕ
get_balance host addr = (value_or (find host.accounts addr) new_account).balance

unfoldable pub get_code_size : VmHost → ℕ → ℕ
get_code_size host addr = length (value_or (find host.accounts addr) new_account).code

unfoldable pub get_code_hash : VmHost → ℕ → ℕ
get_code_hash host addr = elim (find host.accounts addr) [
  | none ↦ 0
  | some acc ↦ code_hash acc.code 32
]

unfoldable pub copy_code : VmHost → ℕ → ℕ → ℕ → List ℕ
copy_code host addr code_offset buffer_size =
    let code = (value_or (find host.accounts addr) new_account).code in
    if leb (length code) code_offset
    then []
    else take (min buffer_size (length code - code_offset)) (drop code_offset code)

unfoldable pub get_block_hash : VmHost → ℤ → ℕ
get_block_hash host number =
    let current = host.tx_context.block_number in
    if ltb_ℤ number current && not (ltb_ℤ number (current -ℤ pos 256))
    then 0xb10c8a5fb10c8a5fb10c8a5fb10c8a5fb10c8a5fb10c8a5fb10c8a5fb10c8a5f
    else 0

unfoldable pub get_transient_storage : VmHost → ℕ → ℕ → ℕ
get_transient_storage host addr key =
    value_or (find (value_or (find host.accounts addr) new_account).transient_storage key) 0

unfoldable pub set_transient_storage : VmHost → ℕ → ℕ → ℕ → VmHost
set_transient_storage host addr key value = elim (find host.accounts addr) [
  | none ↦ host
  | some acc ↦ with_accounts host (
      assign host.accounts addr
        (record acc { transient_storage = assign acc.transient_storage key value }))
]

instance pub vm_host : HostInterface VmHost
unfolding account_exists get_storage set_storage get_balance get_code_size get_code_hash copy_code
    get_block_hash get_transient_storage set_transient_storage
vm_host = record {
  account_exists = account_exists;
  get_storage = get_storage;
  set_storage = set_storage;
  get_balance = get_balance;
  get_code_size = get_code_size;
  get_code_hash = get_code_hash;
  copy_code = copy_code;
  selfdestruct = λ host addr beneficiary. (false, host);
  get_block_hash = get_block_hash;
  access_account = λ host addr. (access_cold, host);
  access_storage = λ host addr key. (access_cold, host);
  get_transient_storage = get_transient_storage;
  set_transient_storage = set_transient_storage;
}

-- EVMC_LATEST_STABLE_REVISION.
abbrev latest_stable_revision : Revision
latest_stable_revision = shanghai

abbrev pub account_at : VmHost → ℕ → Account
account_at host addr = value_or (find host.accounts addr) new_account

module _ ⦃intx : Intx⦄ where
  -- The value of a CALL, taken from the sender and then added to the account, which may be the same.
  unfoldable pub transfer : VmHost → ℕ → ℕ → ℕ → VmHost
  transfer host sender addr value =
      let from = account_at host sender in
      let paid =
        with_accounts host
          (assign host.accounts sender (record from { balance = intx.sub from.balance value })) in
      let to = account_at paid addr in
      with_accounts paid
        (assign paid.accounts addr (record to { balance = intx.add value to.balance }))

  abbrev is_call : CallKind → Bool
  is_call call = true
  is_call _ = false

  -- The account of the code, made when there is none.
  unfoldable pub ensure_account : VmHost → ℕ → VmHost
  ensure_account host addr = elim (find host.accounts addr) [
    | none ↦ with_accounts host (assign host.accounts addr new_account)
    | some acc ↦ host
  ]

  module _ (keccak : List ℕ → ℕ) (raw_bytes : ℕ → List ℕ)
      (evaluate : VmHost → Revision → Message → List ℕ → Result × VmHost) where
    abbrev run_code : VmHost → Message → List ℕ → Result × VmHost
    run_code host msg [] = (result success msg.gas msg.input_data 0, host)
    run_code host msg (op ∷ code) = evaluate host latest_stable_revision msg (op ∷ code)

    unfoldable handle_call : VmHost → Message → Result × VmHost
    handle_call host msg = elim (find host.accounts msg.sender) [
      | none ↦ (result internal_error (pos 0) [] 0, host)
      | some sender_acc ↦
          let made = ensure_account host msg.code_address in
          let paid =
            if is_call msg.kind
            then transfer made msg.sender msg.code_address msg.value
            else made in
          run_code paid msg (account_at paid msg.code_address).code
    ]

    -- The last 20 bytes of a hash over the sum of the parts; `raw_bytes` are those of a `uint256` as
    -- they lie in the memory.
    unfoldable calculate_address : Message → ℕ
    calculate_address msg =
        let sum =
          intx.add (intx.add (intx.add 0xff msg.create2_salt) (keccak msg.input_data)) msg.sender in
        keccak (raw_bytes sum) % 2 ^ 160

    -- The code of a new account is what its initialisation has put out.
    unfoldable finish_create : ℕ → Result × VmHost → Result × VmHost
    finish_create addr (res, host) =
        let acc = account_at host addr in
        (
          record res { create_address = addr },
          (if is_success res.status_code
              then with_accounts host (assign host.accounts addr (record acc { code = res.output }))
              else host),
        )

    abbrev run_create : VmHost → Message → ℕ → List ℕ → Result × VmHost
    run_create host msg addr [] = (result success msg.gas [] addr, host)
    run_create host msg addr (op ∷ input) = finish_create addr (
        evaluate host latest_stable_revision
          (record msg { kind = call; recipient = addr; input_data = [] }) (op ∷ input))

    unfoldable handle_create : VmHost → Message → Result × VmHost
    handle_create host msg =
        let addr = calculate_address msg in
        elim (find host.accounts addr) [
          | some acc ↦ (result failure (pos 0) [] 0, host)
          | none ↦
              run_create (with_accounts host (assign host.accounts addr new_account)) msg addr
                msg.input_data
        ]

    abbrev call_of_kind : CallKind → VmHost → Message → Result × VmHost
    call_of_kind create = handle_create
    call_of_kind create2 = handle_create
    call_of_kind _ = handle_call

    unfoldable pub host_call : VmHost → Message → Result × VmHost
    unfolding handle_create handle_call calculate_address finish_create
    host_call host msg = call_of_kind msg.kind host msg
