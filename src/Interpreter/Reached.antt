-- ===== src/Interpreter/Reached.antt =====
-- The positions that a run of `dispatch` over legacy code reaches.
use evm_assigner.Base.{
  ℕ, ◌+◌, ◌≤◌, ◌<◌, ◌≡◌, refl, sym, ap, ◌∙◌, arith, ℤ, Bool, Bool-cases, ◌⊎◌, inl, inr, ltb, some,
  List, [], length, get_or,
}
use mathlib.Core.Path.{subst}
use evm_assigner.Intx.{Intx}
use evm_assigner.Revision.{Revision}
use evm_assigner.Gas.Table.{get_baseline_cost_table}
use evm_assigner.State.{ExecutionState, stack_limit}
use evm_assigner.Host.{HostInterface, Environment, Message, Result}
use evm_assigner.Baseline.{check_requirements, pad_code, analyze_jumpdests}
use evm_assigner.Interpreter.Loop.{invoke}
use evm_assigner.Interpreter.Legacy.{length-jumpdests, length-pad_code, get_behind, checked_step}
use evm_assigner.Interpreter.Counting.{Follows}
use evm_assigner.Interpreter.Counting.Runs.{starts, invoke_checked-Traced}
use evm_assigner.State.Trace.{IsNumbered}
use evm_assigner.Rw.Sort.{All}
use evm_assigner.Rw.{RwOperation}

module _ {W : Type 0} ⦃host : HostInterface W⦄ ⦃intx : Intx⦄ (keccak : List ℕ → ℕ)
    (host_call : W → Message → Result × W) (cost_table : ℕ → ℤ) (gas₀ : ℤ)
    (env₀ : Environment W) where
  -- The positions of `dispatch`, each with the gas and the environment there.
  pub data Reached : ℕ → ℕ → ℤ → Environment W → Type 0 where
    begins : Reached 0 0 gas₀ env₀
    continues :
        (pc top : ℕ) (gas : ℤ) (env : Environment W) (pc' top' : ℕ) (gas' : ℤ)
        (env' : Environment W)
        → Reached pc top gas env
        → invoke keccak host_call cost_table pc top gas env (get_or env.state.executable_code pc 0)
          ≡ (record { code_it = some pc'; stack_top = top' }, (gas', env'))
        → Reached pc' top' gas' env'

-- A position in the padded code, with the code and the call of the start.
record InCode (code : List ℕ) (start : ExecutionState) (pc top : ℕ) (state : ExecutionState)
    : Type 0 where
  pub follows : Follows start state
  pub inside : pc < length code + 33
  pub bounded : top ≤ stack_limit

module _ {W : Type 0} ⦃host : HostInterface W⦄ ⦃intx : Intx⦄ (keccak : List ℕ → ℕ)
    (host_call : W → Message → Result × W) (rev : Revision) (code : List ℕ) (gas₀ : ℤ)
    (env₀ : Environment W) (no_trace : env₀.state.rw_trace ≡ [])
    (padded : env₀.state.executable_code ≡ pad_code code)
    (mapped : env₀.state.jumpdest_map ≡ analyze_jumpdests code) where
  abbrev table : ℕ → ℤ
  table = get_baseline_cost_table rev 0

  begins-InCode : InCode code env₀.state 0 0 env₀.state
  begins-InCode = record {
    follows =
        starts env₀.state (subst (λ t. IsNumbered 0 t) (sym no_trace) tt)
          (subst (λ t. All (λ (a : RwOperation). a.id ≡ env₀.state.call_id) t) (sym no_trace) tt);
    inside = omega arith;
    bounded = omega arith;
  }

  -- Behind the code stands a STOP.
  place_in :
      (pc : ℕ) (env : Environment W)
      → env.state.executable_code ≡ env₀.state.executable_code
      → (pc < length code) ⊎ (get_or env.state.executable_code pc 0 ≡ 0)
  place_in pc env kept = elim (Bool-cases (ltb pc (length code))) [
    | inl inside ↦ inl (ground arith)
    | inr behind ↦
        inr
          (subst (λ c. get_or c pc 0 ≡ 0) (sym (kept ∙ padded)) (get_behind code pc (ground arith)))
  ]

  map_size :
      (env : Environment W)
      → env.state.jumpdest_map ≡ env₀.state.jumpdest_map
      → length env.state.jumpdest_map ≡ length code
  unfolding analyze_jumpdests
  map_size env kept = ap (λ (m : List Bool). length m) (kept ∙ mapped) ∙ length-jumpdests 0 code

  Reached-InCode :
      (pc top : ℕ) (gas : ℤ) (env : Environment W)
      → Reached keccak host_call table gas₀ env₀ pc top gas env
      → InCode code env₀.state pc top env.state
  unfolding invoke
  Reached-InCode pc top gas env begins = begins-InCode
  Reached-InCode pc' top' gas' env' (continues pc top gas env _ _ _ _ before e) =
      let k = Reached-InCode pc top gas env before in
      let op = get_or env.state.executable_code pc 0 in
      let r = check_requirements table gas top op in
      let (inside, bounded) =
        checked_step keccak host_call rev code r pc top pc' top' op gas env (gas', env') refl
          (place_in pc env k.follows.code_kept) k.bounded (map_size env k.follows.map_kept) e in
      record {
        follows =
            subst (λ (f : Environment W). Follows env₀.state f.state) (ap (λ q. q.1.1) e)
              (invoke_checked-Traced keccak host_call table r pc top env op k.follows);
        inside = inside;
        bounded = bounded;
      }

  -- In every position that a run over legacy code reaches, from the start of the code and an empty
  -- stack, with the padded code, its map of jump destinations and an empty trace, the code pointer
  -- is inside the padded code, the stack has at most 1024 items, and the code is still the padded
  -- code; jumps, PUSH data at the end of the code and the instructions for EOF code included.
  pub Reached-inside :
      (pc top : ℕ) (gas : ℤ) (env : Environment W)
      → Reached keccak host_call table gas₀ env₀ pc top gas env
      → (pc < length env.state.executable_code)
        × (top ≤ stack_limit)
        × (env.state.executable_code ≡ pad_code code)
  Reached-inside pc top gas env reached =
      let k = Reached-InCode pc top gas env reached in
      let kept = k.follows.code_kept ∙ padded in
      let size = ap (λ (c : List ℕ). length c) kept ∙ length-pad_code code in
      (omega (arith, k.inside, size), k.bounded, kept)
