-- ===== src/Interpreter/Induction.antt =====
-- What holds at the end of `dispatch`, by induction on its rounds.
use evm_assigner.Base.{ℕ, zero, suc, ◌≡◌, refl, ℤ, Option, none, some, List, get_or}
use mathlib.Core.Path.{subst}
use mathlib.Core.Option.{some-injective}
use evm_assigner.Intx.{Intx}
use evm_assigner.Host.{HostInterface, Environment, Message, Result}
use evm_assigner.Interpreter.Loop.{Position, invoke, dispatch_from, dispatch}

module _ {W : Type 0} ⦃host : HostInterface W⦄ ⦃intx : Intx⦄ (keccak : List ℕ → ℕ)
    (host_call : W → Message → Result × W) (cost_table : ℕ → ℤ) (Holds : ℤ → Environment W → Type 0)
    (Ends : ℤ → Environment W → Type 0) where
  -- A round that goes on keeps `Holds`, and one that ends the loop gives `Ends`.
  abbrev pub IsRound : Position × (ℤ × Environment W) → Type 0
  IsRound next =
      (next.0.code_it ≡ none → Ends next.1.0 next.1.1)
      × ((pc : ℕ) → next.0.code_it ≡ some pc → Holds next.1.0 next.1.1)

  round_ends :
      (fuel : ℕ) (next : Position × (ℤ × Environment W)) (r : ℤ × Environment W)
      → IsRound next
      → ((pc : ℕ)
          → Holds next.1.0 next.1.1
          → dispatch_from keccak host_call cost_table fuel pc next.0.stack_top next.1.0 next.1.1
            ≡ some r
          → Ends r.0 r.1)
      → (o : Option ℕ) → next.0.code_it ≡ o
      → (elim o [
        | none ↦ some next.1
        | some pc ↦
            dispatch_from keccak host_call cost_table fuel pc next.0.stack_top next.1.0 next.1.1
      ])
        ≡ some r
      → Ends r.0 r.1
  round_ends fuel next r round rest none e h =
      subst (λ a. Ends a.0 a.1) (some-injective next.1 r h) (round.0 e)
  round_ends fuel next r round rest (some pc) e h = rest pc (round.1 pc e) h

  module _
      (round : (pc top : ℕ) (gas : ℤ) (env : Environment W)
        → Holds gas env
        → IsRound (
            invoke keccak host_call cost_table pc top gas env
              (get_or env.state.executable_code pc 0))) where
    dispatch_from-ends :
        (fuel pc top : ℕ) (gas : ℤ) (env : Environment W) (r : ℤ × Environment W)
        → Holds gas env
        → dispatch_from keccak host_call cost_table fuel pc top gas env ≡ some r
        → Ends r.0 r.1
    unfolding dispatch_from
    dispatch_from-ends zero pc top gas env r holds e = absurd cc
    dispatch_from-ends (suc fuel) pc top gas env r holds e =
        let next =
          invoke keccak host_call cost_table pc top gas env
            (get_or env.state.executable_code pc 0) in
        round_ends fuel next r (round pc top gas env holds)
          (λ pc' h. dispatch_from-ends fuel pc' next.0.stack_top next.1.0 next.1.1 r h)
          next.0.code_it refl e

    pub dispatch-ends :
        (fuel : ℕ) (gas : ℤ) (env : Environment W) (r : ℤ × Environment W)
        → Holds gas env
        → dispatch keccak host_call cost_table fuel gas env ≡ some r
        → Ends r.0 r.1
    unfolding dispatch
    dispatch-ends fuel gas env r holds e = dispatch_from-ends fuel 0 0 gas env r holds e
