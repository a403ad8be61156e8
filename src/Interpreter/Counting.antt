-- ===== src/Interpreter/Counting.antt =====
-- What a run has logged, and the code it runs, against the state in which it started: the invariant
-- and the rules that the instructions share.
pub mod Stacks
pub mod Opcodes
pub mod Runs
pub mod Hosts
pub mod Callers
use evm_assigner.Base.{
  ℕ, zero, suc, ◌+◌, ◌≡◌, ◌∙◌, refl, arith, ℤ, Bool, true, false, if◌then◌else◌, Option, List, [],
  ◌∷◌, ◌++◌, length,
}
use evm_assigner.Rw.{RwOperation, storage_operation, memory_operation}
use evm_assigner.Rw.Sort.{All}
use evm_assigner.State.{ExecutionState, StatusCode, log_stack, log_memory, push_back}
use evm_assigner.State.Trace.{IsNumbered, append-IsNumbered, append-All}
use evm_assigner.Host.{Environment}
use evm_assigner.Intx.{Intx}
use evm_assigner.Instructions.Copy.{Outcome, log_reads, log_indexed}
use evm_assigner.Instructions.MemoryAccess.{log_bytes}
use evm_assigner.Instructions.Stack.{log_pushed, push_item}
use evm_assigner.Instructions.Calls.{log_items}
use evm_assigner.Instructions.EofCode.{log_zeros}

-- `start` is where the run started: the call and the code are still those.
pub record Counted (start : ExecutionState) (id : ℕ) (trace : List RwOperation) (code : List ℕ)
    (map : List Bool) : Type 0 where
  pub numbered : IsNumbered 0 trace
  pub same_call : All (λ a. a.id ≡ start.call_id) trace
  pub call_kept : id ≡ start.call_id
  pub code_kept : code ≡ start.executable_code
  pub map_kept : map ≡ start.jumpdest_map

abbrev pub Follows : ExecutionState → ExecutionState → Type 0
Follows start s = Counted start s.call_id s.rw_trace s.executable_code s.jumpdest_map

pub append-Counted :
    {start : ExecutionState} (s : ExecutionState) (a : RwOperation)
    → Follows start s
    → a.rw_id ≡ length s.rw_trace
    → a.id ≡ s.call_id
    → Follows start (record s { rw_trace = s.rw_trace ++ a ∷ [] })
append-Counted {start} s a h e f = record {
  numbered = append-IsNumbered 0 s.rw_trace a h.numbered (omega (arith, e));
  same_call = append-All (λ b. b.id ≡ start.call_id) s.rw_trace a h.same_call (f ∙ h.call_kept);
  call_kept = h.call_kept;
  code_kept = h.code_kept;
  map_kept = h.map_kept;
}

pub log_stack-Counted :
    {start : ExecutionState} (s : ExecutionState) (top d k : ℕ) (is_write : Bool)
    → Follows start s
    → Follows start (log_stack s top d k is_write)
unfolding log_stack
log_stack-Counted s top d k is_write h = append-Counted s _ h refl refl

log_memory-Counted :
    {start : ExecutionState} (s : ExecutionState) (address : ℕ) (is_write : Bool)
    → Follows start s
    → Follows start (log_memory s address is_write)
unfolding log_memory
log_memory-Counted s address is_write h = append-Counted s _ h refl refl

pub log_bytes-Counted :
    {start : ExecutionState} (addr n : ℕ) (is_write : Bool) (s : ExecutionState)
    → Follows start s
    → Follows start (log_bytes addr n is_write s)
unfolding log_bytes
log_bytes-Counted addr zero is_write s h = h
log_bytes-Counted addr (suc n) is_write s h =
    log_bytes-Counted (suc addr) n is_write _ (log_memory-Counted s addr is_write h)

pub log_reads-Counted :
    {start : ExecutionState} (top n : ℕ) (s : ExecutionState)
    → Follows start s
    → Follows start (log_reads top n s)
unfolding log_reads
log_reads-Counted top zero s h = h
log_reads-Counted top (suc n) s h =
    log_reads-Counted top n _ (log_stack-Counted s top (suc n) n false h)

pub log_items-Counted :
    {start : ExecutionState} (top i n : ℕ) (s : ExecutionState)
    → Follows start s
    → Follows start (log_items top i n s)
unfolding log_items
log_items-Counted top i zero s h = h
log_items-Counted top i (suc n) s h =
    log_items-Counted top (suc i) n _ (log_stack-Counted s top (suc i) i false h)

pub log_zeros-Counted :
    {start : ExecutionState} (addr n : ℕ) (s : ExecutionState)
    → Follows start s
    → Follows start (log_zeros addr n s)
unfolding log_zeros
log_zeros-Counted addr zero s h = h
log_zeros-Counted addr (suc n) s h =
    log_zeros-Counted (suc addr) n _ (append-Counted s _ h refl refl)

pub push_item-Counted :
    {start : ExecutionState} (v top : ℕ) (s : ExecutionState)
    → Follows start s
    → Follows start (push_item v top s)
unfolding push_item
push_item-Counted v top s h = log_stack-Counted _ (top + 1) 1 0 true h

module _ {start : ExecutionState} ⦃intx : Intx⦄ where
  pub log_pushed-Counted :
      (top i n : ℕ) (s : ExecutionState) → Follows start s → Follows start (log_pushed top i n s)
  unfolding log_pushed
  log_pushed-Counted top i zero s h = h
  log_pushed-Counted top i (suc n) s h =
      log_pushed-Counted top (suc i) n _ (log_stack-Counted s top (suc i) i true h)

  pub log_indexed-Counted :
      (index dst j n : ℕ) (is_write : Bool) (s : ExecutionState)
      → Follows start s
      → Follows start (log_indexed index dst j n is_write s)
  unfolding log_indexed
  log_indexed-Counted index dst j zero is_write s h = h
  log_indexed-Counted index dst j (suc n) is_write s h =
      log_indexed-Counted index dst (suc j) n is_write _ (append-Counted s _ h refl refl)

pub if-Counted :
    {start : ExecutionState} (b : Bool) (x y : ExecutionState)
    → Follows start x
    → Follows start y
    → Follows start (if b then x else y)
if-Counted true x y h k = h
if-Counted false x y h k = k

-- Outcomes of both kinds of instructions, and what jumps leave.
pub record CountedOutcome (start : ExecutionState) (o : Outcome ExecutionState) : Type 0 where
  pub counted : Follows start o.1.1

pub record CountedMove (start : ExecutionState) (o : Option ℕ × ExecutionState) : Type 0 where
  pub counted : Follows start o.1

pub record CountedEnvironment (start : ExecutionState) {W : Type 0} (env : Environment W)
    : Type 0 where
  pub counted : Follows start env.state

pub record CountedResult (start : ExecutionState) {W : Type 0} (o : Outcome (Environment W))
    : Type 0 where
  pub counted : Follows start o.1.1.state

pub record CountedJump (start : ExecutionState) {W : Type 0} (o : Option ℕ × Environment W)
    : Type 0 where
  pub counted : Follows start o.1.state

module _ {start : ExecutionState} {W : Type 0} where
  pub if-CountedEnvironment :
      (b : Bool) (x y : Environment W)
      → CountedEnvironment start x
      → CountedEnvironment start y
      → CountedEnvironment start (if b then x else y)
  if-CountedEnvironment true x y h k = h
  if-CountedEnvironment false x y h k = k

  pub if-CountedResult :
      (b : Bool) (x y : Outcome (Environment W))
      → CountedResult start x
      → CountedResult start y
      → CountedResult start (if b then x else y)
  if-CountedResult true x y h k = h
  if-CountedResult false x y h k = k

  pub if-CountedJump :
      (b : Bool) (x y : Option ℕ × Environment W)
      → CountedJump start x
      → CountedJump start y
      → CountedJump start (if b then x else y)
  if-CountedJump true x y h k = h
  if-CountedJump false x y h k = k

pub if-CountedOutcome :
    {start : ExecutionState} (b : Bool) (x y : Outcome ExecutionState)
    → CountedOutcome start x
    → CountedOutcome start y
    → CountedOutcome start (if b then x else y)
if-CountedOutcome true x y h k = h
if-CountedOutcome false x y h k = k

pub if-CountedMove :
    {start : ExecutionState} (b : Bool) (x y : Option ℕ × ExecutionState)
    → CountedMove start x
    → CountedMove start y
    → CountedMove start (if b then x else y)
if-CountedMove true x y h k = h
if-CountedMove false x y h k = k

pub ruleset counting = (
  log_stack-Counted, log_bytes-Counted, log_reads-Counted, log_items-Counted, log_zeros-Counted,
  push_item-Counted, log_pushed-Counted, log_indexed-Counted, if-Counted, if-CountedEnvironment,
  if-CountedResult, if-CountedJump, if-CountedOutcome, if-CountedMove,
)
