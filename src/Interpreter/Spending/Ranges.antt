-- ===== src/Interpreter/Spending/Ranges.antt =====
-- The gas that the instructions on ranges of the memory leave.
use evm_assigner.Base.{ℕ, ℤ, ◌≤ℤ◌, Bool, List, arith, false}
use evm_assigner.Intx.{Intx}
use evm_assigner.Memory.{Memory}
use evm_assigner.State.{ExecutionState, StatusCode, log_stack, item}
use evm_assigner.Word.{word_size_bytes}
use evm_assigner.Host.{Environment}
use evm_assigner.Instructions.Copy.{
  log_reads, copy_checked, copy_from, calldatacopy, codecopy, returndatacopy_checked,
  returndatacopy, keccak256_checked, keccak256,
}
use evm_assigner.Instructions.EofCode.{datacopy_checked, datacopy}
use evm_assigner.Instructions.Blocks.{mcopy_checked, mcopy, return_impl}
use evm_assigner.Instructions.MemoryAccess.{mload, mload_checked, mstore}
use evm_assigner.Interpreter.Spending.{Falls, falling, check_memory_falls, check_memory_range_falls}

module _ ⦃intx : Intx⦄ where
  module _ (gas : ℤ) (top : ℕ) (s : ExecutionState) (r : Bool × (ℤ × Memory))
      (h : r.1.0 ≤ℤ gas) where
    copy_checked-Falls : (source : List ℕ) → Falls gas (copy_checked source top s r)
    unfolding copy_checked
    copy_checked-Falls source = search (falling, h)

    returndatacopy_checked-Falls :
        (source : List ℕ) → Falls gas (returndatacopy_checked source top s r)
    unfolding returndatacopy_checked
    returndatacopy_checked-Falls source = search (falling, h)

    keccak256_checked-Falls : (keccak : List ℕ → ℕ) → Falls gas (keccak256_checked keccak top s r)
    unfolding keccak256_checked
    keccak256_checked-Falls keccak = search (falling, h)

    datacopy_checked-Falls : (source : List ℕ) → Falls gas (datacopy_checked source top s r)
    unfolding datacopy_checked
    datacopy_checked-Falls source = search (falling, h)

    mcopy_checked-Falls : Falls gas (mcopy_checked top s r)
    unfolding mcopy_checked
    mcopy_checked-Falls = search (falling, h)

    mload_checked-Falls : (index : ℕ) → Falls gas (mload_checked top s index r)
    unfolding mload_checked
    mload_checked-Falls index = search (falling, h)

  module _ (top : ℕ) (gas : ℤ) (state : ExecutionState) where
    pub keccak256-Falls : (keccak : List ℕ → ℕ) → Falls gas (keccak256 keccak top gas state)
    unfolding keccak256
    keccak256-Falls keccak =
        keccak256_checked-Falls gas top _ _ (check_memory_range_falls gas _ _ _) keccak

    pub mcopy-Falls : Falls gas (mcopy top gas state)
    unfolding mcopy
    mcopy-Falls = mcopy_checked-Falls gas top _ _ (check_memory_range_falls gas _ _ _)

    pub mload-Falls : Falls gas (mload top gas state)
    unfolding mload
    mload-Falls =
        let s = log_stack state top 1 0 false in
        mload_checked-Falls gas top s _
          (check_memory_falls gas s.memory (item s top 0) word_size_bytes (omega arith)) _

    pub mstore-Falls : (n : ℕ) → Falls gas (mstore n top gas state)
    unfolding mstore
    mstore-Falls n =
        let s = log_stack (log_stack state top 2 1 false) top 1 0 false in
        let h = check_memory_falls gas s.memory (item s top 0) word_size_bytes (omega arith) in
        search (falling, h)

    copy_from-Falls : (source : List ℕ) → Falls gas (copy_from source top gas state)
    unfolding copy_from
    copy_from-Falls source =
        copy_checked-Falls gas top _ _ (check_memory_range_falls gas _ _ _) source

  module _ {W : Type 0} (top : ℕ) (gas : ℤ) (env : Environment W) where
    pub calldatacopy-Falls : Falls gas (calldatacopy top gas env)
    unfolding calldatacopy
    calldatacopy-Falls = record { falls = (copy_from-Falls top gas env.state _).falls }

    pub codecopy-Falls : Falls gas (codecopy top gas env)
    unfolding codecopy
    codecopy-Falls = record { falls = (copy_from-Falls top gas env.state _).falls }

    pub returndatacopy-Falls : Falls gas (returndatacopy top gas env)
    unfolding returndatacopy
    returndatacopy-Falls = record {
      falls =
          (returndatacopy_checked-Falls gas top _ _ (check_memory_range_falls gas _ _ _) _).falls;
    }

    pub datacopy-Falls : Falls gas (datacopy top gas env)
    unfolding datacopy
    datacopy-Falls = record {
      falls = (datacopy_checked-Falls gas top _ _ (check_memory_range_falls gas _ _ _) _).falls;
    }

    pub return_impl-Falls : (status : StatusCode) → Falls gas (return_impl status top gas env)
    unfolding return_impl
    return_impl-Falls status =
        let s = log_reads top 2 env.state in
        let h = check_memory_range_falls gas s.memory (item s top 0) (item s top 1) in
        search (falling, h)
