-- ===== src/Interpreter/Counting/Stacks.antt =====
-- What the instructions on the stack and on the memory log.
use evm_assigner.Base.{ℕ, ℤ, Bool, List}
use evm_assigner.Intx.{Intx}
use evm_assigner.Memory.{Memory}
use evm_assigner.State.{ExecutionState}
use evm_assigner.Instructions.{binary, unary, addmod_, mulmod_, exp}
use evm_assigner.Instructions.Stack.{pc, push, dup, swap, dup_top, swap_top}
use evm_assigner.Instructions.MemoryAccess.{mload, mload_checked, mstore, jump, jumpi, jump_impl}
use evm_assigner.Instructions.Copy.{
  copy_checked, copy_from, returndatacopy_checked, keccak256_checked, keccak256,
}
use evm_assigner.Instructions.Blocks.{mcopy, mcopy_checked}
use evm_assigner.Instructions.EofCode.{rjump, rjumpi, rjumpv, dupn, swapn, datacopy_checked}
use evm_assigner.Interpreter.Counting.{Follows, Follows, CountedOutcome, CountedMove, counting}

module _ {start : ExecutionState} (top : ℕ) (s : ExecutionState) (h : Follows start s) where
  pub binary-Counted : (f : ℕ → ℕ → ℕ) → Follows start (binary f top s)
  unfolding binary
  binary-Counted f = search counting

  pub unary-Counted : (f : ℕ → ℕ) → Follows start (unary f top s)
  unfolding unary
  unary-Counted f = search counting

  pub pc-Counted : (pos : ℕ) → Follows start (pc top s pos).1
  unfolding pc
  pc-Counted pos = search counting

  pub rjump-CountedMove : (pos : ℕ) → CountedMove start (rjump s pos)
  unfolding rjump
  rjump-CountedMove pos = record { counted = h }

  pub dupn-CountedMove : (pos : ℕ) → CountedMove start (dupn top s pos)
  unfolding dupn
  dupn-CountedMove pos = search counting depth 9

  pub swapn-CountedMove : (pos : ℕ) → CountedMove start (swapn top s pos)
  unfolding swapn
  swapn-CountedMove pos = search counting depth 9

  module _ ⦃intx : Intx⦄ where
    pub addmod_-Counted : Follows start (addmod_ top s)
    unfolding addmod_
    addmod_-Counted = search counting depth 9

    pub mulmod_-Counted : Follows start (mulmod_ top s)
    unfolding mulmod_
    mulmod_-Counted = search counting depth 9

    pub exp-CountedOutcome : (g : ℤ) → CountedOutcome start (exp top g s)
    unfolding exp
    exp-CountedOutcome g = search counting depth 9

    pub push-Counted : (len pos : ℕ) → Follows start (push len top s pos).1
    unfolding push
    push-Counted len pos = search counting

    pub dup-Counted : (n : ℕ) → Follows start (dup n top s)
    unfolding dup
    dup-Counted n = search counting

    pub swap-Counted : (n : ℕ) → Follows start (swap n top s)
    unfolding swap
    swap-Counted n = search counting depth 9

    pub dup_top-Counted : Follows start (dup_top top s)
    unfolding dup_top
    dup_top-Counted = search counting depth 9

    pub swap_top-Counted : Follows start (swap_top top s)
    unfolding swap_top
    swap_top-Counted = search counting depth 9

    mload_checked-CountedOutcome :
        (index : ℕ) (r : Bool × (ℤ × Memory)) → CountedOutcome start (mload_checked top s index r)
    unfolding mload_checked
    mload_checked-CountedOutcome index r = search counting depth 9

    pub mstore-CountedOutcome : (n : ℕ) (g : ℤ) → CountedOutcome start (mstore n top g s)
    unfolding mstore
    mstore-CountedOutcome n g = search counting depth 9

    jump_impl-CountedMove : (dst : ℕ) → CountedMove start (jump_impl s dst)
    unfolding jump_impl
    jump_impl-CountedMove dst = search counting depth 9

    pub rjumpi-CountedMove : (pos : ℕ) → CountedMove start (rjumpi top s pos)
    unfolding rjumpi rjump
    rjumpi-CountedMove pos = search counting depth 9

    pub rjumpv-CountedMove : (pos : ℕ) → CountedMove start (rjumpv top s pos)
    unfolding rjumpv
    rjumpv-CountedMove pos = search counting depth 9

    copy_checked-CountedOutcome :
        (source : List ℕ) (r : Bool × (ℤ × Memory))
        → CountedOutcome start (copy_checked source top s r)
    unfolding copy_checked
    copy_checked-CountedOutcome source r = search counting depth 9

    pub returndatacopy_checked-CountedOutcome :
        (source : List ℕ) (r : Bool × (ℤ × Memory))
        → CountedOutcome start (returndatacopy_checked source top s r)
    unfolding returndatacopy_checked
    returndatacopy_checked-CountedOutcome source r = search counting depth 9

    keccak256_checked-CountedOutcome :
        (keccak : List ℕ → ℕ) (r : Bool × (ℤ × Memory))
        → CountedOutcome start (keccak256_checked keccak top s r)
    unfolding keccak256_checked
    keccak256_checked-CountedOutcome keccak r = search counting depth 9

    pub datacopy_checked-CountedOutcome :
        (source : List ℕ) (r : Bool × (ℤ × Memory))
        → CountedOutcome start (datacopy_checked source top s r)
    unfolding datacopy_checked
    datacopy_checked-CountedOutcome source r = search counting depth 9

    mcopy_checked-CountedOutcome :
        (r : Bool × (ℤ × Memory)) → CountedOutcome start (mcopy_checked top s r)
    unfolding mcopy_checked
    mcopy_checked-CountedOutcome r = search counting depth 9

module _ {start : ExecutionState} (top : ℕ) (s : ExecutionState) (h : Follows start s)
    ⦃intx : Intx⦄ where
  pub mload-CountedOutcome : (g : ℤ) → CountedOutcome start (mload top g s)
  unfolding mload
  mload-CountedOutcome g = search (counting, mload_checked-CountedOutcome)

  pub jump-CountedMove : (pos : ℕ) → CountedMove start (jump top s pos)
  unfolding jump
  jump-CountedMove pos = search (counting, jump_impl-CountedMove)

  pub jumpi-CountedMove : (pos : ℕ) → CountedMove start (jumpi top s pos)
  unfolding jumpi
  jumpi-CountedMove pos = search (counting, jump_impl-CountedMove) depth 9

  pub copy_from-CountedOutcome :
      (source : List ℕ) (g : ℤ) → CountedOutcome start (copy_from source top g s)
  unfolding copy_from
  copy_from-CountedOutcome source g = search (counting, copy_checked-CountedOutcome)

  pub keccak256-CountedOutcome :
      (keccak : List ℕ → ℕ) (g : ℤ) → CountedOutcome start (keccak256 keccak top g s)
  unfolding keccak256
  keccak256-CountedOutcome keccak g = search (counting, keccak256_checked-CountedOutcome)

  pub mcopy-CountedOutcome : (g : ℤ) → CountedOutcome start (mcopy top g s)
  unfolding mcopy
  mcopy-CountedOutcome g = search (counting, mcopy_checked-CountedOutcome)
