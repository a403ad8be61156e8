-- ===== src/Interpreter/Counting/Callers.antt =====
-- What calls, creations, copies and the instructions of EOF code log.
use evm_assigner.Base.{ℕ, ℤ, Bool, List, [], ◌∷◌}
use evm_assigner.Intx.{Intx}
use evm_assigner.Memory.{Memory}
use evm_assigner.Host.{HostInterface, Environment, Message, Result}
use evm_assigner.Instructions.Copy.{calldatacopy, codecopy, returndatacopy}
use evm_assigner.Instructions.Calls.{
  CallOpcode, CallArguments, finish_call, send_call, charge_call, check_call, call_impl,
}
use evm_assigner.Instructions.Creation.{
  CreateArguments, finish_creation, create_checked, create_impl,
}
use evm_assigner.Instructions.EofCode.{
  datasize, callf, retf, jumpf, dataload, dataloadn, datacopy, pop_call,
}
use evm_assigner.Interpreter.Counting.{
  Follows, CountedEnvironment, CountedResult, CountedJump, counting,
}
use evm_assigner.Interpreter.Counting.Stacks.{
  copy_from-CountedOutcome, returndatacopy_checked-CountedOutcome, datacopy_checked-CountedOutcome,
}
use evm_assigner.Interpreter.Counting.Hosts.{charge_account-Counted}
use evm_assigner.State.{ExecutionState}

module _ {start : ExecutionState} {W : Type 0} ⦃host : HostInterface W⦄ ⦃intx : Intx⦄ where
  finish_call-Counted :
      (a : CallArguments) (msg_gas left : ℤ) (r : Result × W) (env : Environment W)
      → Follows start env.state
      → CountedResult start (finish_call a msg_gas left r env)
  unfolding finish_call
  finish_call-Counted a msg_gas left r env h = search counting

  finish_creation-Counted :
      (a : CreateArguments) (msg_gas left : ℤ) (r : Result × W) (env : Environment W)
      → Follows start env.state
      → CountedResult start (finish_creation a msg_gas left r env)
  unfolding finish_creation
  finish_creation-Counted a msg_gas left r env h = search counting

  module _ (host_call : W → Message → Result × W) where
    send_call-Counted :
        (op : CallOpcode) (a : CallArguments) (granted left : ℤ) (env : Environment W)
        → Follows start env.state
        → CountedResult start (send_call host_call op a granted left env)
    unfolding send_call
    send_call-Counted op a granted left env h = search (counting, finish_call-Counted)

    charge_call-Counted :
        (op : CallOpcode) (a : CallArguments) (left : ℤ) (env : Environment W)
        → Follows start env.state
        → CountedResult start (charge_call host_call op a left env)
    unfolding charge_call
    charge_call-Counted op a left env h = search (counting, send_call-Counted) depth 9

    check_call-Counted :
        (op : CallOpcode) (a : CallArguments) (left : ℤ) (env : Environment W)
        → Follows start env.state
        → CountedResult start (check_call host_call op a left env)
    unfolding check_call
    check_call-Counted op a left env h = search (counting, charge_call-Counted)

    pub call_impl-Counted :
        (op : CallOpcode) (top : ℕ) (g : ℤ) (env : Environment W)
        → Follows start env.state
        → CountedResult start (call_impl host_call op top g env)
    unfolding call_impl
    call_impl-Counted op top g env h =
        search (counting, check_call-Counted, charge_account-Counted) depth 9

    create_checked-Counted :
        (has_salt : Bool) (a : CreateArguments) (r : Bool × (ℤ × Memory)) (env : Environment W)
        → Follows start env.state
        → CountedResult start (create_checked host_call has_salt a r env)
    unfolding create_checked
    create_checked-Counted has_salt a r env h = search (counting, finish_creation-Counted) depth 9

    pub create_impl-Counted :
        (has_salt : Bool) (top : ℕ) (g : ℤ) (env : Environment W)
        → Follows start env.state
        → CountedResult start (create_impl host_call has_salt top g env)
    unfolding create_impl
    create_impl-Counted has_salt top g env h = search (counting, create_checked-Counted)

module _ {start : ExecutionState} {W : Type 0} (top : ℕ) (env : Environment W)
    (h : Follows start env.state) where
  pub datasize-Counted : CountedEnvironment start (datasize top env)
  unfolding datasize
  datasize-Counted = search counting

  pub callf-Counted : (pc : ℕ) → CountedJump start (callf top env pc)
  unfolding callf
  callf-Counted pc = search counting

  pub retf-Counted : CountedJump start (retf env)
  unfolding retf
  retf-Counted = popped env.call_stack
    where
      popped : (calls : List ℕ) → CountedJump start (pop_call calls env)
      popped [] = record { counted = h }
      popped (p ∷ calls) = record { counted = h }

  pub jumpf-Counted : (pc : ℕ) → CountedJump start (jumpf top env pc)
  unfolding jumpf
  jumpf-Counted pc = search counting

  module _ ⦃intx : Intx⦄ where
    pub dataload-Counted : CountedEnvironment start (dataload top env)
    unfolding dataload
    dataload-Counted = search counting

    pub dataloadn-Counted : (pc : ℕ) → CountedJump start (dataloadn top env pc)
    unfolding dataloadn
    dataloadn-Counted pc = search counting

    pub datacopy-Counted : (g : ℤ) → CountedResult start (datacopy top g env)
    unfolding datacopy
    datacopy-Counted g = record {
      counted = (datacopy_checked-CountedOutcome top _ (search counting) env.eof_data _).counted;
    }

    pub calldatacopy-Counted : (g : ℤ) → CountedResult start (calldatacopy top g env)
    unfolding calldatacopy
    calldatacopy-Counted g = record {
      counted = (copy_from-CountedOutcome top env.state h env.msg.input_data g).counted;
    }

    pub codecopy-Counted : (g : ℤ) → CountedResult start (codecopy top g env)
    unfolding codecopy
    codecopy-Counted g = record {
      counted = (copy_from-CountedOutcome top env.state h env.original_code g).counted;
    }

    pub returndatacopy-Counted : (g : ℤ) → CountedResult start (returndatacopy top g env)
    unfolding returndatacopy
    returndatacopy-Counted g = record {
      counted =
          (returndatacopy_checked-CountedOutcome top _ (search counting) env.return_data _).counted;
    }
