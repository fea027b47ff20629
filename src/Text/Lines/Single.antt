-- ===== src/Text/Lines/Single.antt =====
-- A text without a newline is one line.
use mathlib.Core.Option
use beta_boot_git_ops.Text.Lines.{lines, split_inclusive, onto_first, strip_suffix, chomp}
use beta_boot_git_ops.Base.{
  ℕ, ◌≡◌, refl, ap, ◌∙◌, inl, inr, Bool, false, ◌||◌, none, List, [], ◌∷◌, map, arith, ◌==◌,
  Bool-cases, Text,
}

-- Is this character there?
abbrev pub has : ℕ → List ℕ → Bool
has x [] = false
has x (c ∷ cs) = c == x || has x cs

pub has-cons :
    (x c : ℕ) (cs : List ℕ) → has x (c ∷ cs) ≡ false → ((c == x) ≡ false) × (has x cs ≡ false)
has-cons x c cs h = elim (Bool-cases (c == x)) [ inl q ↦ ground arith | inr q ↦ (q, ground arith) ]

split_inclusive-single :
    (c : ℕ) (cs : Text) → has 10 (c ∷ cs) ≡ false → split_inclusive (c ∷ cs) ≡ (c ∷ cs) ∷ []
unfolding split_inclusive onto_first
split_inclusive-single c [] h = rw (has-cons 10 c [] h).0 refl
split_inclusive-single c (d ∷ cs) h =
    let (first, others) = has-cons 10 c (d ∷ cs) h in
    rw first (ap (onto_first c) (split_inclusive-single d cs others))

strip_suffix-single : (t : Text) → has 10 t ≡ false → strip_suffix 10 t ≡ none
unfolding strip_suffix
strip_suffix-single [] h = refl
strip_suffix-single (c ∷ []) h = rw (has-cons 10 c [] h).0 refl
strip_suffix-single (c ∷ d ∷ cs) h =
    ap (Option.map (◌∷◌ c)) (strip_suffix-single (d ∷ cs) (has-cons 10 c (d ∷ cs) h).1)

pub lines-single : (c : ℕ) (cs : Text) → has 10 (c ∷ cs) ≡ false → lines (c ∷ cs) ≡ (c ∷ cs) ∷ []
unfolding lines chomp
lines-single c cs h =
    ap (map chomp) (split_inclusive-single c cs h)
    ∙ ap (λ l. l ∷ []) (rw (strip_suffix-single (c ∷ cs) h, chomp) refl)
