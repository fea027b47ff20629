-- ===== src/Text/Numbers/Parse.antt =====
-- Numbers are read back as they were printed.
use beta_boot_git_ops.Text.Numbers.{
  decimal, decimal_up_to, read_digits, below_u64, parse_digits, parse_u64,
}
use beta_boot_git_ops.Base.{
  ℕ, zero, suc, ◌+◌, ◌-◌, ◌*◌, ◌/◌, ◌%◌, ◌^◌, ◌<◌, ◌≡◌, refl, ap, ◌∙◌, subst, inl, inr, Bool, true,
  false, ◌&&◌, Option, none, some, [], ◌∷◌, arith, ltb, leb, ◌==◌, ltb→lt, lt→ltb, ==_iff,
  Bool-cases, snoc, is_empty, Text,
}

abbrev is_digit : ℕ → Bool
is_digit c = leb 48 c && leb c 57

-- One more digit.
abbrev then_digit : ℕ → Option ℕ → Option ℕ
then_digit c none = none
then_digit c (some n) = some (n * 10 + (c - 48))

read_digits-snoc :
    (t : Text) (acc c : ℕ)
    → is_digit c ≡ true
    → read_digits acc (snoc t c) ≡ then_digit c (read_digits acc t)
unfolding read_digits
read_digits-snoc [] acc c h = rw h refl
read_digits-snoc (d ∷ t) acc c h = elim (Bool-cases (is_digit d)) [
  | inl q ↦ rw q (read_digits-snoc t (acc * 10 + (d - 48)) c h)
  | inr q ↦ rw q refl
]

digit-is_digit : (d : ℕ) → d < 10 → is_digit (48 + d) ≡ true
digit-is_digit d h = ground arith

read_digits-decimal_up_to : (fuel n : ℕ) → n < fuel → read_digits 0 (decimal_up_to fuel n) ≡ some n
unfolding decimal_up_to
read_digits-decimal_up_to zero n h = elim h [ ]
read_digits-decimal_up_to (suc fuel) n h = elim (Bool-cases (ltb n 10)) [
  | inl small ↦ rw small (
      read_digits-snoc [] 0 (48 + n) (digit-is_digit n (ltb→lt n 10 small))
      ∙ unfold read_digits in ap some (omega arith))
  | inr large ↦ rw large (
      read_digits-snoc (decimal_up_to fuel (n / 10)) 0 (48 + n % 10)
        (digit-is_digit (n % 10) (omega arith))
      ∙ ap (then_digit (48 + n % 10)) (read_digits-decimal_up_to fuel (n / 10) (ground arith))
      ∙ ap some (omega arith))
]

is_empty-snoc : (t : Text) (c : ℕ) → is_empty (snoc t c) ≡ false
is_empty-snoc [] c = refl
is_empty-snoc (d ∷ t) c = refl

is_empty-decimal : (n : ℕ) → is_empty (decimal n) ≡ false
unfolding decimal decimal_up_to
is_empty-decimal n = elim (Bool-cases (ltb n 10)) [
  | inl small ↦ rw small refl
  | inr large ↦ rw large (is_empty-snoc (decimal_up_to n (n / 10)) (48 + n % 10))
]

parse_u64-read_digits :
    (t : Text) (n : ℕ)
    → is_empty t ≡ false
    → read_digits 0 t ≡ some n
    → parse_u64 t ≡ below_u64 (some n)
unfolding parse_u64 parse_digits read_digits
parse_u64-read_digits [] n e h = cc
parse_u64-read_digits (c ∷ cs) n e h = elim (Bool-cases (c == b'+')) [
  | inl plus ↦
      let bad : Path (Option ℕ) none (some n) =
        subst (λ c. read_digits 0 (c ∷ cs) ≡ some n) ((==_iff c b'+').0 plus) h in
      cc
  | inr digit ↦ rw digit (ap below_u64 h)
]

-- A number below the bound is read back from how it is printed.
pub parse_u64-decimal : (n : ℕ) → n < 2 ^ 64 → parse_u64 (decimal n) ≡ some n
unfolding below_u64 decimal
parse_u64-decimal n h =
    parse_u64-read_digits (decimal n) n (is_empty-decimal n)
      (read_digits-decimal_up_to (suc n) n (omega arith))
    ∙ rw (lt→ltb n (2 ^ 64) h) refl
