-- ===== src/Eof/Count.antt =====
-- How many bytes of a code section the worklist of `validate_max_stack_height`
-- (lib/assigner/evmone/eof.cpp) has not reached.
use evm_assigner.Base.{ℕ, zero, suc, ◌+◌, ◌≤◌, ◌<◌, ◌≡◌, arith, ℤ, true, false, ◌==◌, if◌then◌else◌}
use evm_assigner.Eof.Jumps.{fill_n}
use evm_assigner.Eof.StackHeight.{is_unvisited, loc_immediate, loc_unvisited}

unfoldable pub unvisited : (ℕ → ℤ) → ℕ → ℕ
unvisited heights zero = 0
unvisited heights (suc n) = (if is_unvisited (heights n) then 1 else 0) + unvisited heights n

abbrev pub visited_at : (ℕ → ℤ) → ℕ → ℤ → ℕ → ℤ
visited_at heights i height k = if k == i then height else heights k

visited-le :
    (heights : ℕ → ℤ) (i : ℕ) (height : ℤ) (n : ℕ)
    → is_unvisited height ≡ false
    → unvisited (visited_at heights i height) n ≤ unvisited heights n
unfolding unvisited
visited-le heights i height zero h = omega arith
visited-le heights i height (suc n) h = ground (arith, visited-le heights i height n h)

pub visited-lt :
    (heights : ℕ → ℤ) (i : ℕ) (height : ℤ) (n : ℕ)
    → is_unvisited height ≡ false
    → is_unvisited (heights i) ≡ true
    → i < n
    → unvisited (visited_at heights i height) n < unvisited heights n
unfolding unvisited
visited-lt heights i height zero h new less = absurd (omega (arith, less))
visited-lt heights i height (suc n) h new less =
    ground (arith, visited-lt heights i height n h new, visited-le heights i height n h)

pub filled-le :
    (heights : ℕ → ℤ) (start size n : ℕ)
    → unvisited (fill_n heights start size loc_immediate) n ≤ unvisited heights n
unfolding unvisited
filled-le heights start size zero = omega arith
filled-le heights start size (suc n) = ground (arith, filled-le heights start size n)

-- At first all but the first byte are not reached.
pub first-unvisited :
    (height : ℤ) (n : ℕ)
    → is_unvisited height ≡ false
    → unvisited (λ k. if k == 0 then height else loc_unvisited) (suc n) ≡ n
unfolding unvisited
first-unvisited height zero h = ground arith
first-unvisited height (suc n) h = ground (arith, first-unvisited height n h)
