-- ===== src/Instructions/Jumps.antt =====
-- Where JUMP and JUMPI of lib/assigner/evmone/instructions.hpp continue.
use evm_assigner.Base.{
  ℕ, ◌≡◌, sym, ap, arith, Bool, false, not, ◌||◌, leb, List, length, get_or, get_elem?, none, some,
  Bool-cases, inl, inr,
}
use mathlib.Core.Option.{some-injective}
use evm_assigner.Intx.{Intx}
use evm_assigner.Word.{to_uint64}
use evm_assigner.State.{ExecutionState}
use evm_assigner.Baseline.{analyze_jumpdests}
use evm_assigner.Baseline.Jumpdests.{InstructionAt, analyze_jumpdests_iff}
use evm_assigner.Instructions.MemoryAccess.{jump_impl}

abbrev refuses : ⦃intx : Intx⦄ → ExecutionState → ℕ → Bool
refuses state dst =
    leb (length state.jumpdest_map) (to_uint64 dst 0)
    || not (get_or state.jumpdest_map (to_uint64 dst 0) false)

none-ne-some : (n : ℕ) → none ≡ some n → ⊥
none-ne-some n h = cc

-- Where the map of the state is that of a code, a jump that continues does so at the low 64 bits of
-- its destination, which is the place of an instruction of that code and a JUMPDEST, and leaves the
-- state as it was.
pub jump_impl-InstructionAt :
    ⦃intx : Intx⦄ (state state' : ExecutionState) (code : List ℕ) (dst pos : ℕ)
    → state.jumpdest_map ≡ analyze_jumpdests code
    → jump_impl state dst ≡ (some pos, state')
    → (pos ≡ to_uint64 dst 0)
      × (state' ≡ state)
      × InstructionAt code pos
      × (get_elem? code pos ≡ some 0x5b)
unfolding jump_impl
jump_impl-InstructionAt state state' code dst pos e h = elim (Bool-cases (refuses state dst)) [
  | inl refused ↦ absurd (none-ne-some pos (ap (λ r. r.0) (rw refused at h)))
  | inr taken ↦
      let continues : (some (to_uint64 dst 0), state) ≡ (some pos, state') = rw taken at h in
      let at_pos : to_uint64 dst 0 ≡ pos = some-injective _ _ (ap (λ r. r.0) continues) in
      let (p, q) = (analyze_jumpdests_iff code pos).0 (rw (sym e, sym at_pos) (ground arith)) in
      (sym at_pos, sym (ap (λ r. r.1) continues), p, q)
]
