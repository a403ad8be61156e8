-- ===== src/Rw/Table/Rows.antt =====
-- `compare_row`: what the loop body of `process_rw_operations` finds and writes for a row, given
-- the sort keys of the row and of the one before it.
use evm_assigner.Base.{
  ℕ, zero, suc, ◌-◌, ◌^◌, ◌<◌, ◌≡◌, refl, ap, arith, List, [], ◌∷◌, Bool, true, ◌&&◌, ◌||◌, leb,
  Bool-cases, inl, inr, some, map, ◌==◌, get_elem?, get_or, length,
}
use mathlib.Core.List.{head-eq_of_cons-eq, tail-eq_of_cons-eq}
use evm_assigner.Blueprint.{Blueprint, IsBlueprint}
use evm_assigner.Intx.{Intx}
use evm_assigner.Rw.{RwOperation}
use evm_assigner.Rw.Digits.{first_diff}
use evm_assigner.Rw.Table.{Table, find_difference, mark_rows}

-- Every number converts to an element without loss.
abbrev pub IsSmall : List ℕ → Type 0
IsSmall [] = Unit {0}
IsSmall (x ∷ xs) = (x < 2 ^ 128) × IsSmall xs

-- The columns that only `static_cells` writes, of which `sorting` is made.
abbrev pub is_static : ℕ → Bool
is_static c = leb c 13 || (leb 20 c && leb c 49)

abbrev pub all_static : List ℕ → Bool
all_static [] = true
all_static (c ∷ cs) = is_static c && all_static cs

pub get_elem?-is_static :
    (cs : List ℕ) (k c : ℕ) → all_static cs ≡ true → get_elem? cs k ≡ some c → is_static c ≡ true
get_elem?-is_static [] k c h e = absurd (cc)
get_elem?-is_static (x ∷ xs) zero c h e = ground arith
get_elem?-is_static (x ∷ xs) (suc k) c h e = get_elem?-is_static xs k c (ground arith) e

pub get_elem?-some : (cs : List ℕ) (k : ℕ) → k < length cs → get_elem? cs k ≡ some (get_or cs k 0)
get_elem?-some [] k h = absurd (omega arith)
get_elem?-some (x ∷ xs) zero h = refl
get_elem?-some (x ∷ xs) (suc k) h = get_elem?-some xs k (omega arith)

module _ {F : Type 0} ⦃field : Blueprint F⦄ ⦃intx : Intx⦄ (laws : IsBlueprint field) where
  pub eqb_element :
      (x y : ℕ)
      → x < 2 ^ 128
      → y < 2 ^ 128
      → field.eqb (field.element x) (field.element y) ≡ (x == y)
  eqb_element x y hx hy = elim (Bool-cases (x == y)) [
    | inl same ↦ rw same ((laws.eqb_iff _ _).1 (ap field.element (ground arith)))
    | inr differ ↦ elim (Bool-cases (field.eqb (field.element x) (field.element y))) [
      | inl e ↦ absurd (ground (arith, laws.element-injective x y hx hy ((laws.eqb_iff _ _).0 e)))
      | inr ne ↦ rw differ ne
    ]
  ]

  -- Where two rows hold the elements of two lists, the first column that differs is the first
  -- place where the lists differ.
  pub find_difference_lem :
      (table : Table F) (row : ℕ) (columns xs ys : List ℕ)
      → map (λ c. table c row) columns ≡ map field.element xs
      → map (λ c. table c (row - 1)) columns ≡ map field.element ys
      → IsSmall xs
      → IsSmall ys
      → find_difference table row columns ≡ first_diff ys xs
  unfolding find_difference first_diff
  find_difference_lem table row [] [] [] e e' hx hy = refl
  find_difference_lem table row [] [] (y ∷ ys) e e' hx hy = absurd (cc)
  find_difference_lem table row [] (x ∷ xs) ys e e' hx hy = absurd (cc)
  find_difference_lem table row (c ∷ cs) [] ys e e' hx hy = absurd (cc)
  find_difference_lem table row (c ∷ cs) (x ∷ xs) [] e e' hx hy = absurd (cc)
  find_difference_lem table row (c ∷ cs) (x ∷ xs) (y ∷ ys) e e' hx hy =
      rw (head-eq_of_cons-eq e, head-eq_of_cons-eq e', eqb_element x y hx.0 hy.0)
        (ground (
          arith,
          find_difference_lem table row cs xs ys (tail-eq_of_cons-eq e) (tail-eq_of_cons-eq e') hx.1
              hy.1,
        ))

  -- The cell of a static column is not touched.
  pub mark_rows-static :
      (table : Table F) (row : ℕ) (a : RwOperation) (d c r : ℕ)
      → is_static c ≡ true
      → mark_rows table row a d c r ≡ table c r
  unfolding mark_rows
  mark_rows-static table row a d c r h = ground arith
