-- ===== src/Text/Lines.antt =====
-- `str::lines`: pieces that end in a newline, without it and without a carriage return before it.
pub mod Single
pub mod Many
use mathlib.Core.Option
use beta_boot_git_ops.Base.{ℕ, Text, List, [], ◌∷◌, map, Option, none, some, ◌==◌, if◌then◌else◌}

onto_first : ℕ → List Text → List Text
onto_first c [] = (c ∷ []) ∷ []
onto_first c (l ∷ ls) = (c ∷ l) ∷ ls

-- `split_inclusive('\n')`.
split_inclusive : Text → List Text
unfolding onto_first
split_inclusive [] = []
split_inclusive (c ∷ cs) =
    let rest = split_inclusive cs in if c == 10 then (c ∷ []) ∷ rest else onto_first c rest

strip_suffix : ℕ → Text → Option Text
strip_suffix c [] = none
strip_suffix c (x ∷ []) = if x == c then some [] else none
strip_suffix c (x ∷ y ∷ ys) = Option.map (◌∷◌ x) (strip_suffix c (y ∷ ys))

-- A carriage return goes only with its newline.
chomp : Text → Text
unfolding strip_suffix
chomp l = elim (strip_suffix 10 l) [
  | none ↦ l
  | some l' ↦ elim (strip_suffix 13 l') [ none ↦ l' | some l'' ↦ l'' ]
]

unfoldable pub lines : Text → List Text
unfolding split_inclusive chomp
lines t = map chomp (split_inclusive t)
