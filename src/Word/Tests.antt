-- ===== src/Word/Tests.antt =====
-- The theorems on words at concrete values.
use evm_assigner.Base.{ℕ, ◌+◌, ◌*◌, ◌^◌, ◌<◌, ◌≡◌, arith, List, [], ◌∷◌}
use evm_assigner.Blueprint.{integral_and}
use evm_assigner.Samples.{sample_intx, sample_intx-IsIntx}
use evm_assigner.Word.{load_partial_data, to_uint64, and_integral, w_hi, w_lo}
use evm_assigner.Word.Bytes.{load_partial_data_lem}
use evm_assigner.Word.Limbs.{and_integral_lem, w_hi-w_lo}

abbrev code_bytes : List ℕ
code_bytes = 0x01 ∷ 0x02 ∷ 0x03 ∷ 0x04 ∷ 0x05 ∷ 0x06 ∷ 0x07 ∷ 0x08 ∷ []

abbrev large : ℕ
large = 5 * 2 ^ 200 + 7 * 2 ^ 70 + 9

load_partial_data_example :
    to_uint64 ⦃intx = sample_intx⦄ (load_partial_data ⦃intx = sample_intx⦄ large code_bytes 3 1) 1
    ≡ 0x010203
load_partial_data_example =
    load_partial_data_lem ⦃intx = sample_intx⦄ sample_intx-IsIntx large 1 1 code_bytes 3
      (omega arith) (omega arith) (omega arith) (omega arith)
      (
        omega arith,
        (
          omega arith,
          (
            omega arith,
            (omega arith, (omega arith, (omega arith, (omega arith, (omega arith, tt))))),
          ),
        ),
      )

and_integral_example :
    and_integral ⦃intx = sample_intx⦄ 256 large 0xffff ≡ integral_and large 0xffff
and_integral_example =
    and_integral_lem ⦃intx = sample_intx⦄ sample_intx-IsIntx 256 large 0xffff (omega arith)
      (omega arith)

w_hi-w_lo_example :
    (w_hi ⦃intx = sample_intx⦄ 256 large < 2 ^ 128)
    × (w_lo ⦃intx = sample_intx⦄ 256 large < 2 ^ 128)
    × (w_hi ⦃intx = sample_intx⦄ 256 large * 2 ^ 128 + w_lo ⦃intx = sample_intx⦄ 256 large ≡ large)
w_hi-w_lo_example =
    w_hi-w_lo ⦃intx = sample_intx⦄ sample_intx-IsIntx 256 large (omega arith) (omega arith)
