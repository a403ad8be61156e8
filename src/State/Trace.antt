-- ===== src/State/Trace.antt =====
-- The trace that the instructions build, as the rw table takes it: the numbering of its
-- operations.
use evm_assigner.Base.{ℕ, suc, ◌+◌, ◌<◌, ◌≡◌, ◌≢◌, arith, List, [], ◌∷◌, ◌++◌, length}
use evm_assigner.Rw.{RwOperation}
use evm_assigner.Rw.Sort.{All, HasDistinctIds}

-- The rw ids count up from `n`.
abbrev pub IsNumbered : ℕ → List RwOperation → Type 0
IsNumbered n [] = Unit {0}
IsNumbered n (a ∷ ops) = (a.rw_id ≡ n) × IsNumbered (suc n) ops

pub append-IsNumbered :
    (n : ℕ) (ops : List RwOperation) (a : RwOperation)
    → IsNumbered n ops
    → a.rw_id ≡ n + length ops
    → IsNumbered n (ops ++ a ∷ [])
append-IsNumbered n [] a h e = (omega (arith, e), tt)
append-IsNumbered n (b ∷ ops) a h e = (h.0, append-IsNumbered (suc n) ops a h.1 (omega (arith, e)))

pub append-All :
    (P : RwOperation → Type 0) (ops : List RwOperation) (a : RwOperation)
    → All P ops
    → P a
    → All P (ops ++ a ∷ [])
append-All P [] a hs h = (h, tt)
append-All P (b ∷ ops) a hs h = (hs.0, append-All P ops a hs.1 h)

numbered_distinct :
    (n m : ℕ) (ops : List RwOperation) → n < m → IsNumbered m ops → All (λ b. n ≢ b.rw_id) ops
numbered_distinct n m [] lt h = tt
numbered_distinct n m (a ∷ ops) lt h =
    (omega (arith, h.0), numbered_distinct n (suc m) ops (omega arith) h.1)

pub IsNumbered-HasDistinctIds :
    (n : ℕ) (ops : List RwOperation) → IsNumbered n ops → HasDistinctIds ops
IsNumbered-HasDistinctIds n [] h = tt
IsNumbered-HasDistinctIds n (a ∷ ops) h = (
  rw h.0 (numbered_distinct n (suc n) ops (omega arith) h.1),
  IsNumbered-HasDistinctIds (suc n) ops h.1,
)
