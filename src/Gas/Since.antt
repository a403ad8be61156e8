-- ===== src/Gas/Since.antt =====
-- The costs of the revisions against the revisions that the traits name.
use evm_assigner.Base.{
  sym, ◌∙◌, inl, inr, Bool-cases, ℤ, eq_of_parts, ℕ, ◌≡◌, ◌≢◌, ◌<◌, ◌≤◌, ◌↔◌, refl, arith, Bool,
  true, false, ◌||◌, not, ◌==◌, ltb, is_neg, Option, none, some, List, [], ◌∷◌,
}
use evm_assigner.Opcode.Codes.{holds_below, holds_below_lem}
use evm_assigner.Revision.{
  Revision, rank, later_revisions, frontier, homestead, tangerine_whistle, spurious_dragon,
  byzantium, constantinople, petersburg, istanbul, berlin, london, paris, shanghai, cancun, prague,
}
use evm_assigner.Traits.{traits}
use evm_assigner.Gas.{gas_costs, has_const_gas_cost, same_cost, all_same}

-- Whether the traits place an instruction after a revision.
abbrev pub is_before : Revision → Option Revision → Bool
is_before rev none = true
is_before rev (some since) = ltb (rank rev) (rank since)

abbrev same_bool : Bool → Bool → Bool
same_bool true b = b
same_bool false b = not b

agrees : Revision → ℕ → Bool
agrees rev op =
    op == 0x1c
    || op == 0x5f
    || same_bool (is_neg (gas_costs rev op)) (is_before rev (traits op).since)

agrees_table : (rev : Revision) → holds_below 256 (agrees rev) ≡ true
unfolding holds_below agrees gas_costs traits
agrees_table frontier = refl
agrees_table homestead = refl
agrees_table tangerine_whistle = refl
agrees_table spurious_dragon = refl
agrees_table byzantium = refl
agrees_table constantinople = refl
agrees_table petersburg = refl
agrees_table istanbul = refl
agrees_table berlin = refl
agrees_table london = refl
agrees_table paris = refl
agrees_table shanghai = refl
agrees_table cancun = refl
agrees_table prague = refl

-- For every revision and every byte but those of SHR and PUSH0, the cost table has no cost exactly
-- where the traits place the instruction in a later revision, or know no instruction.
pub gas_costs-traits :
    (rev : Revision) (op : ℕ)
    → op < 256
    → op ≢ 0x1c
    → op ≢ 0x5f
    → is_neg (gas_costs rev op) ≡ is_before rev (traits op).since
unfolding agrees
gas_costs-traits rev op h not_shr not_push0 =
    ground (arith, holds_below_lem 256 (agrees rev) op h (agrees_table rev))

early : Revision → ℕ → Bool
early rev op = not (op == 0x1c || op == 0x5f) || not (is_neg (gas_costs rev op))

early_table : (rev : Revision) → holds_below 256 (early rev) ≡ true
unfolding holds_below early gas_costs
early_table frontier = refl
early_table homestead = refl
early_table tangerine_whistle = refl
early_table spurious_dragon = refl
early_table byzantium = refl
early_table constantinople = refl
early_table petersburg = refl
early_table istanbul = refl
early_table berlin = refl
early_table london = refl
early_table paris = refl
early_table shanghai = refl
early_table cancun = refl
early_table prague = refl

is_before_later :
    (rev rev' : Revision) (since : Option Revision)
    → rank rev ≤ rank rev'
    → is_before rev since ≡ false
    → is_before rev' since ≡ false
is_before_later rev rev' none h e = e
is_before_later rev rev' (some since) h e = ground arith

-- An instruction that has a cost in a revision has one in every later revision.
gas_costs_stay :
    (rev rev' : Revision) (op : ℕ)
    → op < 256
    → rank rev ≤ rank rev'
    → is_neg (gas_costs rev op) ≡ false
    → is_neg (gas_costs rev' op) ≡ false
unfolding early
gas_costs_stay rev rev' op fits later defined = elim (Bool-cases (op == 0x1c || op == 0x5f)) [
  | inl is_early ↦ ground (arith, holds_below_lem 256 (early rev') op fits (early_table rev'))
  | inr ordinary ↦
      gas_costs-traits rev' op fits (ground arith) (ground arith)
      ∙ is_before_later rev rev' (traits op).since later
          (sym (gas_costs-traits rev op fits (ground arith) (ground arith)) ∙ defined)
]

same_cost_sound : (a b : ℤ) → same_cost a b ≡ true → a ≡ b
same_cost_sound a b h = eq_of_parts a b (ground arith)

same_cost_refl : (a b : ℤ) → a ≡ b → same_cost a b ≡ true
same_cost_refl a b h = ground arith

module _ (g : ℤ) (op : ℕ) where
  abbrev HaveCost : List Revision → Type 0
  HaveCost [] = Unit {0}
  HaveCost (r ∷ revs) = (gas_costs r op ≡ g) × HaveCost revs

  all_same_sound : (revs : List Revision) → all_same g op revs ≡ true → HaveCost revs
  unfolding all_same
  all_same_sound [] h = tt
  all_same_sound (r ∷ revs) h =
      (same_cost_sound _ _ (ground arith), all_same_sound revs (ground arith))

  all_same_complete :
      (revs : List Revision) → ((r : Revision) → gas_costs r op ≡ g) → all_same g op revs ≡ true
  unfolding all_same
  all_same_complete [] h = refl
  all_same_complete (r ∷ revs) h =
      rw (same_cost_refl (gas_costs r op) g (h r)) (all_same_complete revs h)

  every_revision :
      gas_costs frontier op ≡ g → HaveCost later_revisions → (r : Revision) → gas_costs r op ≡ g
  every_revision e h frontier = e
  every_revision e h homestead = h.0
  every_revision e h tangerine_whistle = h.1.0
  every_revision e h spurious_dragon = h.1.1.0
  every_revision e h byzantium = h.1.1.1.0
  every_revision e h constantinople = h.1.1.1.1.0
  every_revision e h petersburg = h.1.1.1.1.1.0
  every_revision e h istanbul = h.1.1.1.1.1.1.0
  every_revision e h berlin = h.1.1.1.1.1.1.1.0
  every_revision e h london = h.1.1.1.1.1.1.1.1.0
  every_revision e h paris = h.1.1.1.1.1.1.1.1.1.0
  every_revision e h shanghai = h.1.1.1.1.1.1.1.1.1.1.0
  every_revision e h cancun = h.1.1.1.1.1.1.1.1.1.1.1.0
  every_revision e h prague = h.1.1.1.1.1.1.1.1.1.1.1.1.0

-- has_const_gas_cost holds exactly where every revision has the cost of the first one.
pub has_const_gas_cost_iff :
    (op : ℕ)
    → (has_const_gas_cost op ≡ true) ↔ ((rev : Revision) → gas_costs rev op ≡ gas_costs frontier op)
unfolding has_const_gas_cost
has_const_gas_cost_iff op = (
  λ h.
      every_revision (gas_costs frontier op) op refl
        (all_same_sound (gas_costs frontier op) op later_revisions h),
  all_same_complete (gas_costs frontier op) op later_revisions,
)
