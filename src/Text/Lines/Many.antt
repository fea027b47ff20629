-- ===== src/Text/Lines/Many.antt =====
-- A text that is written line by line is those lines.
use mathlib.Core.Option
use beta_boot_git_ops.Text.Lines.{lines, split_inclusive, onto_first, strip_suffix, chomp}
use beta_boot_git_ops.Text.Lines.Single.{has, has-cons}
use beta_boot_git_ops.Base.{
  ℕ, ◌≡◌, refl, ap, ◌∙◌, Bool, true, false, none, some, [], ◌∷◌, ◌++◌, map, ◌==◌, if◌then◌else◌,
  snoc, Text,
}

split_inclusive-line :
    (l rest : Text)
    → has 10 l ≡ false
    → split_inclusive (l ++ (10 ∷ rest)) ≡ snoc l 10 ∷ split_inclusive rest
unfolding split_inclusive onto_first
split_inclusive-line [] rest h = refl
split_inclusive-line (c ∷ l) rest h =
    let (first, others) = has-cons 10 c l h in
    rw first (ap (onto_first c) (split_inclusive-line l rest others))

map_if :
    (x : ℕ) (t : Text) (b : Bool)
    → Option.map (◌∷◌ x) (if b then some t else none) ≡ (if b then some (x ∷ t) else none)
map_if x t true = refl
map_if x t false = refl

strip_suffix-snoc :
    (t : Text) (q c : ℕ) → strip_suffix c (snoc t q) ≡ (if q == c then some t else none)
unfolding strip_suffix
strip_suffix-snoc [] q c = refl
strip_suffix-snoc (x ∷ []) q c = map_if x [] (q == c)
strip_suffix-snoc (x ∷ y ∷ t) q c =
    ap (Option.map (◌∷◌ x)) (strip_suffix-snoc (y ∷ t) q c) ∙ map_if x (y ∷ t) (q == c)

chomp-line : (t : Text) (q : ℕ) → (q == 13) ≡ false → chomp (snoc (snoc t q) 10) ≡ snoc t q
unfolding chomp
chomp-line t q h = rw (strip_suffix-snoc (snoc t q) 10 10, strip_suffix-snoc t q 13, h, chomp) refl

-- The line's last character is no carriage return.
pub lines-line :
    (t : Text) (q : ℕ) (rest : Text)
    → has 10 (snoc t q) ≡ false
    → (q == 13) ≡ false
    → lines (snoc t q ++ (10 ∷ rest)) ≡ snoc t q ∷ lines rest
unfolding lines
lines-line t q rest h k =
    ap (map chomp) (split_inclusive-line (snoc t q) rest h)
    ∙ ap (λ l. l ∷ lines rest) (chomp-line t q k)
