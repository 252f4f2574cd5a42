-- ===== src/Prelude/Tables.antt =====
-- A Boolean test at every number under a bound: it is run, and then holds of a variable.
use jiufeng.Prelude.{ℕ, zero, suc, ◌<◌, ◌≡◌, Bool, true, false, arith, if◌then◌else◌}

unfoldable pub holds_under : (ℕ → Bool) → ℕ → Bool
holds_under test zero = true
holds_under test (suc top) = if test top then holds_under test top else false

pub test_of_table :
    (test : ℕ → Bool) (bound i : ℕ) → i < bound → holds_under test bound ≡ true → test i ≡ true
unfolding holds_under
test_of_table test zero i small table = elim small [ ]
test_of_table test (suc top) i small table = ground (arith, test_of_table test top i)
