-- ===== src/Concurrent/Tally.antt =====
-- Counts over the records of the bus.
use beta_boot_git_ops.Concurrent.Discipline.{is_bucket_entry}
use beta_boot_git_ops.Emission.{EmissionRecord}
use beta_boot_git_ops.Base.{ℕ, ◌+◌, ◌≡◌, true, List, [], ◌∷◌, ◌++◌, arith}

abbrev pub tally : (EmissionRecord → ℕ) → List EmissionRecord → ℕ
tally f [] = 0
tally f (r ∷ rs) = f r + tally f rs

pub tally-append :
    (f : EmissionRecord → ℕ) (rs rs' : List EmissionRecord)
    → tally f (rs ++ rs') ≡ tally f rs + tally f rs'
tally-append f [] rs' = omega arith
tally-append f (r ∷ rs) rs' = omega (arith, tally-append f rs rs')

-- A count that leaves out the entries of buckets.
abbrev pub IsQuiet : (EmissionRecord → ℕ) → Type 0
IsQuiet f = (r : EmissionRecord) → is_bucket_entry r ≡ true → f r ≡ 0
