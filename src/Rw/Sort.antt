-- ===== src/Rw/Sort.antt =====
-- `std::sort` over `operator<`: an insertion sort stands for it, which places each operation
-- before the first one that is not less than it.
use mathlib.Core.List.{Perm}
use mathlib.Core.List.Perm
use evm_assigner.Base.{
  ◌≡◌, List, [], ◌∷◌, if◌then◌else◌, false, arith, Bool-cases, inl, inr, ◌≢◌, sym,
}
use evm_assigner.Rw.{RwOperation, rw_lt}
use evm_assigner.Rw.Order.{rw_lt_asymm}

insert : RwOperation → List RwOperation → List RwOperation
insert a [] = a ∷ []
insert a (b ∷ ops) = let rest = b ∷ insert a ops in if rw_lt b a then rest else a ∷ b ∷ ops

unfoldable pub sort : List RwOperation → List RwOperation
unfolding insert
sort [] = []
sort (a ∷ ops) = insert a (sort ops)

-- No operation is less than the one before it.
abbrev pub IsSorted : List RwOperation → Type 0
IsSorted [] = Unit {0}
IsSorted (a ∷ []) = Unit {0}
IsSorted (a ∷ b ∷ ops) = (rw_lt b a ≡ false) × IsSorted (b ∷ ops)

insert-IsSorted :
    (a : RwOperation) (ops : List RwOperation) → IsSorted ops → IsSorted (insert a ops)
unfolding insert
insert-IsSorted a [] s = tt
insert-IsSorted a (b ∷ []) s = ground (arith, rw_lt_asymm b a)
insert-IsSorted a (b ∷ c ∷ ops) s = ground (arith, rw_lt_asymm b a, insert-IsSorted a (c ∷ ops) s.1)

pub sort-IsSorted : (ops : List RwOperation) → IsSorted (sort ops)
unfolding sort
sort-IsSorted [] = tt
sort-IsSorted (a ∷ ops) = insert-IsSorted a (sort ops) (sort-IsSorted ops)

insert-perm : (a : RwOperation) (ops : List RwOperation) → Perm (insert a ops) (a ∷ ops)
unfolding insert
insert-perm a [] = Perm.refl _
insert-perm a (b ∷ ops) = elim (Bool-cases (rw_lt b a)) [
  | inl less ↦ rw less (Perm.trans (Perm.cons b (insert-perm a ops)) (Perm.swap a b ops))
  | inr more ↦ rw more (Perm.refl _)
]

pub sort-perm : (ops : List RwOperation) → Perm (sort ops) ops
unfolding sort
sort-perm [] = Perm.refl []
sort-perm (a ∷ ops) = Perm.trans (insert-perm a (sort ops)) (Perm.cons a (sort-perm ops))

-- The sorted trace is a permutation of the trace, in which no operation is less than the one before
-- it.
pub sort_lem : (ops : List RwOperation) → IsSorted (sort ops) × Perm (sort ops) ops
sort_lem ops = (sort-IsSorted ops, sort-perm ops)

-- What holds of all operations holds of them sorted, and so does the distinctness of rw ids.
abbrev pub All : (RwOperation → Type 0) → List RwOperation → Type 0
All P [] = Unit {0}
All P (a ∷ ops) = P a × All P ops

abbrev pub HasDistinctIds : List RwOperation → Type 0
HasDistinctIds [] = Unit {0}
HasDistinctIds (a ∷ ops) = All (λ b. a.rw_id ≢ b.rw_id) ops × HasDistinctIds ops

insert-All :
    (P : RwOperation → Type 0) (a : RwOperation) (ops : List RwOperation)
    → P a
    → All P ops
    → All P (insert a ops)
unfolding insert
insert-All P a [] h hs = (h, tt)
insert-All P a (b ∷ ops) h hs = elim (Bool-cases (rw_lt b a)) [
  | inl less ↦ rw less (hs.0, insert-All P a ops h hs.1)
  | inr more ↦ rw more (h, hs)
]

pub sort-All : (P : RwOperation → Type 0) (ops : List RwOperation) → All P ops → All P (sort ops)
unfolding sort
sort-All P [] hs = tt
sort-All P (a ∷ ops) hs = insert-All P a (sort ops) hs.0 (sort-All P ops hs.1)

insert-HasDistinctIds :
    (a : RwOperation) (ops : List RwOperation)
    → All (λ b. a.rw_id ≢ b.rw_id) ops
    → HasDistinctIds ops
    → HasDistinctIds (insert a ops)
unfolding insert
insert-HasDistinctIds a [] h hs = (tt, tt)
insert-HasDistinctIds a (b ∷ ops) h hs = elim (Bool-cases (rw_lt b a)) [
  | inl less ↦ rw less (
    insert-All (λ c. b.rw_id ≢ c.rw_id) a ops (λ e. h.0 (sym e)) hs.0,
    insert-HasDistinctIds a ops h.1 hs.1,
  )
  | inr more ↦ rw more (h, hs)
]

pub sort-HasDistinctIds : (ops : List RwOperation) → HasDistinctIds ops → HasDistinctIds (sort ops)
unfolding sort
sort-HasDistinctIds [] hs = tt
sort-HasDistinctIds (a ∷ ops) hs =
    insert-HasDistinctIds a (sort ops) (sort-All (λ b. a.rw_id ≢ b.rw_id) ops hs.0)
      (sort-HasDistinctIds ops hs.1)
