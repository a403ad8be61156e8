-- ===== src/Samples.antt =====
-- A concrete `Intx` and a concrete `Blueprint`, with the documented behaviour that the theorems
-- ask of them: the operations as arithmetic on values, and the numbers themselves as the field.
use evm_assigner.Base.{
  ℕ, zero, suc, ◌+◌, ◌*◌, ◌/◌, ◌%◌, ◌^◌, ◌-◌, ◌<◌, ◌≡◌, refl, sym, ap, ◌∙◌, arith, ltb, ◌==◌,
  ==_iff, pos, if◌then◌else◌, List, [], ◌∷◌, ◌++◌, Bool,
}
use Prim.Native.Nat.{bit_and, bit_or, bit_xor}
use native.Mathlib.Nat.{div-div-eq-div-mul, pow-suc, mul-add}
use Prim.Native.Nat.add
use evm_assigner.Host.{TxContext, Message, CallKind}
use evm_assigner.Intx.{Intx, IsIntx, be_value}
use evm_assigner.Blueprint.{Blueprint, IsBlueprint}

abbrev wrap : ℕ → ℕ
wrap v = v % 2 ^ 256

abbrev word_of : ℕ → ℕ → ℕ
word_of v i = v / 2 ^ (64 * i) % 2 ^ 64

-- The words below `i`, the new word, and those above.
abbrev set_word_of : ℕ → ℕ → ℕ → ℕ
set_word_of v i x =
    v % 2 ^ (64 * i) + x * 2 ^ (64 * i) + v / (2 ^ (64 * i) * 2 ^ 64) * (2 ^ (64 * i) * 2 ^ 64)

abbrev store_of : ℕ → ℕ → List ℕ
store_of zero v = []
store_of (suc n) v = store_of n (v / 256) ++ v % 256 ∷ []

abbrev signed_lt : ℕ → ℕ → Bool
signed_lt a b = ltb ((a + 2 ^ 255) % 2 ^ 256) ((b + 2 ^ 255) % 2 ^ 256)

abbrev pub sample_intx : Intx
sample_intx = record {
  add = λ a b. wrap (a + b);
  sub = λ a b. wrap (a + 2 ^ 256 - b);
  mul = λ a b. wrap (a * b);
  quot = λ a b. a / b;
  rem = λ a b. a % b;
  sdivrem_quot = λ a b. a / b;
  sdivrem_rem = λ a b. a % b;
  addmod = λ a b m. (a + b) % m;
  mulmod = λ a b m. a * b % m;
  exp = λ a b. wrap (a ^ b);
  count_significant_bytes = λ a. if a == 0 then 0 else 1;
  slt = signed_lt;
  and = bit_and;
  or = bit_or;
  xor = bit_xor;
  complement = λ a. 2 ^ 256 - 1 - a;
  shl = λ a b. wrap (a * 2 ^ b);
  shr = λ a b. a / 2 ^ b;
  word = word_of;
  set_word = set_word_of;
  load = be_value;
  store = store_of;
}

pow_above : (m n : ℕ) → 2 ^ (m + n) ≡ 2 ^ m * 2 ^ n
pow_above zero n = rw add.zero (omega arith)
pow_above (suc m) n = rw (add.suc, pow-suc 2 (m + n), pow-suc 2 m, pow_above m n) (omega arith)

high_word : (v k : ℕ) → word_of v (4 + k) ≡ v / 2 ^ 256 / 2 ^ (64 * k) % 2 ^ 64
high_word v k =
    ap (λ (t : ℕ). v / t % 2 ^ 64) (ap (λ (t : ℕ). 2 ^ t) (mul-add 64 4 k) ∙ pow_above 256 (64 * k))
    ∙ ap (λ (t : ℕ). t % 2 ^ 64) (sym (div-div-eq-div-mul v (2 ^ 256) (2 ^ (64 * k))))

above : (k : ℕ) → suc (suc (suc (suc k))) ≡ 4 + k
above k = omega arith

set_word_of_high :
    (v i k x : ℕ)
    → set_word_of v i x / 2 ^ 256 ≡ v / 2 ^ 256
    → word_of (set_word_of v i x) (suc (suc (suc (suc k)))) ≡ word_of v (suc (suc (suc (suc k))))
set_word_of_high v i k x e =
    ap (word_of (set_word_of v i x)) (above k)
    ∙ high_word (set_word_of v i x) k
    ∙ ap (λ (t : ℕ). t / 2 ^ (64 * k) % 2 ^ 64) e
    ∙ sym (high_word v k)
    ∙ ap (word_of v) (sym (above k))

set_word_of_lem :
    (v i j x : ℕ)
    → i < 4
    → x < 2 ^ 64
    → word_of (set_word_of v i x) j ≡ (if i == j then x else word_of v j)
set_word_of_lem v zero zero x h hx = omega arith
set_word_of_lem v zero (suc zero) x h hx = omega arith
set_word_of_lem v zero (suc (suc zero)) x h hx = omega arith
set_word_of_lem v zero (suc (suc (suc zero))) x h hx = omega arith
set_word_of_lem v zero (suc (suc (suc (suc j)))) x h hx =
    ground (arith, set_word_of_high v 0 j x (omega arith))
set_word_of_lem v (suc zero) zero x h hx = omega arith
set_word_of_lem v (suc zero) (suc zero) x h hx = omega arith
set_word_of_lem v (suc zero) (suc (suc zero)) x h hx = omega arith
set_word_of_lem v (suc zero) (suc (suc (suc zero))) x h hx = omega arith
set_word_of_lem v (suc zero) (suc (suc (suc (suc j)))) x h hx =
    ground (arith, set_word_of_high v 1 j x (omega arith))
set_word_of_lem v (suc (suc zero)) zero x h hx = omega arith
set_word_of_lem v (suc (suc zero)) (suc zero) x h hx = omega arith
set_word_of_lem v (suc (suc zero)) (suc (suc zero)) x h hx = omega arith
set_word_of_lem v (suc (suc zero)) (suc (suc (suc zero))) x h hx = omega arith
set_word_of_lem v (suc (suc zero)) (suc (suc (suc (suc j)))) x h hx =
    ground (arith, set_word_of_high v 2 j x (omega arith))
set_word_of_lem v (suc (suc (suc zero))) zero x h hx = omega arith
set_word_of_lem v (suc (suc (suc zero))) (suc zero) x h hx = omega arith
set_word_of_lem v (suc (suc (suc zero))) (suc (suc zero)) x h hx = omega arith
set_word_of_lem v (suc (suc (suc zero))) (suc (suc (suc zero))) x h hx = omega arith
set_word_of_lem v (suc (suc (suc zero))) (suc (suc (suc (suc j)))) x h hx =
    ground (arith, set_word_of_high v 3 j x (omega arith))
set_word_of_lem v (suc (suc (suc (suc i)))) j x h hx = absurd (omega arith)

set_word_of-lt : (v i x : ℕ) → i < 4 → x < 2 ^ 64 → v < 2 ^ 256 → set_word_of v i x < 2 ^ 256
set_word_of-lt v zero x h hx hv = omega arith
set_word_of-lt v (suc zero) x h hx hv = omega arith
set_word_of-lt v (suc (suc zero)) x h hx hv = omega arith
set_word_of-lt v (suc (suc (suc zero))) x h hx hv = omega arith
set_word_of-lt v (suc (suc (suc (suc i)))) x h hx hv = absurd (omega arith)

pub sample_intx-IsIntx : IsIntx sample_intx
sample_intx-IsIntx = record {
  word_lem = λ v i. refl;
  set_word_lem = set_word_of_lem;
  set_word-lt = set_word_of-lt;
  load_lem = λ bytes. refl;
  add_lem = λ a b. refl;
  sub_lem = λ a b h. refl;
}

abbrev pub sample_field : Blueprint ℕ
sample_field = record {
  integral_bits = 256;
  element = λ n. n;
  eqb = ◌==◌;
  add = ◌+◌;
  sub = ◌-◌;
  mul = ◌*◌;
  div = ◌/◌;
}

pub sample_field-IsBlueprint : IsBlueprint sample_field
sample_field-IsBlueprint = record {
  eqb_iff = ==_iff;
  element-injective = λ a b ha hb e. e;
  sub-element = λ a b h. refl;
}

abbrev pub sample_context : TxContext
sample_context = record {
  tx_gas_price = 1;
  tx_origin = 0xa1;
  block_coinbase = 0xc0;
  block_number = pos 1000;
  block_timestamp = pos 7;
  block_gas_limit = pos 30000000;
  block_prev_randao = 0;
  chain_id = 1;
  block_base_fee = 1;
  blob_base_fee = 1;
  blob_hashes = [];
}

-- A call with a gas of 100.
abbrev pub sample_message : Message
sample_message = record {
  kind = CallKind.call;
  flags = 0;
  depth = 0;
  gas = pos 100;
  recipient = 0xb2;
  sender = 0xa1;
  input_data = [];
  value = 0;
  create2_salt = 0;
  code_address = 0xb2;
}
