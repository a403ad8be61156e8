-- ===== src/Revision.antt =====
-- evmc_revision of lib/assigner/evmc/evmc.h: the revisions of the machine, in their order.
use evm_assigner.Base.{ℕ, List, [], ◌∷◌}

pub data Revision : Type 0 where
  frontier homestead tangerine_whistle spurious_dragon byzantium constantinople : Revision
  petersburg istanbul berlin london paris shanghai cancun prague : Revision

-- The value in the enumeration.
abbrev pub rank : Revision → ℕ
rank frontier = 0
rank homestead = 1
rank tangerine_whistle = 2
rank spurious_dragon = 3
rank byzantium = 4
rank constantinople = 5
rank petersburg = 6
rank istanbul = 7
rank berlin = 8
rank london = 9
rank paris = 10
rank shanghai = 11
rank cancun = 12
rank prague = 13

abbrev pub max_revision : Revision
max_revision = prague

-- The revisions after the first.
abbrev pub later_revisions : List Revision
later_revisions =
    homestead ∷ tangerine_whistle ∷ spurious_dragon ∷ byzantium ∷ constantinople ∷ petersburg
    ∷ istanbul ∷ berlin ∷ london ∷ paris ∷ shanghai ∷ cancun ∷ prague ∷ []
