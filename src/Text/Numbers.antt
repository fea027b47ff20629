-- ===== src/Text/Numbers.antt =====
-- Numbers as `format!` prints them, and as `parse` reads them.
pub mod Parse
use beta_boot_git_ops.Base.{
  ℕ, zero, suc, ◌+◌, ◌-◌, ◌*◌, ◌/◌, ◌%◌, ◌^◌, ◌<◌, ◌≡◌, refl, inl, inr, ◌&&◌, Option, none, some,
  [], ◌∷◌, arith, ltb, leb, ◌==◌, if◌then◌else◌, Bool-cases, snoc, Text,
}

-- The number of rounds is bounded by the number itself.
decimal_up_to : ℕ → ℕ → Text
decimal_up_to zero n = []
decimal_up_to (suc fuel) n =
    let tens = decimal_up_to fuel (n / 10) in
    if ltb n 10 then (48 + n) ∷ [] else snoc tens (48 + n % 10)

unfoldable pub decimal : ℕ → Text
unfolding decimal_up_to
decimal n = decimal_up_to (suc n) n

read_onto : ℕ → Text → ℕ
read_onto acc [] = acc
read_onto acc (c ∷ cs) = read_onto (acc * 10 + (c - 48)) cs

pub read : Text → ℕ
unfolding read_onto
read = read_onto 0

read_onto-snoc : (t : Text) (acc c : ℕ) → read_onto acc (snoc t c) ≡ read_onto acc t * 10 + (c - 48)
unfolding read_onto
read_onto-snoc [] acc c = refl
read_onto-snoc (d ∷ t) acc c = read_onto-snoc t (acc * 10 + (d - 48)) c

read-decimal_up_to : (fuel n : ℕ) → n < fuel → read_onto 0 (decimal_up_to fuel n) ≡ n
unfolding decimal_up_to
read-decimal_up_to zero n h = elim h [ ]
read-decimal_up_to (suc fuel) n h = elim (Bool-cases (ltb n 10)) [
  | inl small ↦ rw small (unfold read_onto in omega arith)
  | inr large ↦
      rw (large, read_onto-snoc)
        (rw (read-decimal_up_to fuel (n / 10) (ground arith)) (omega arith))
]

-- Reading back what was printed gives the number.
pub read-decimal : (n : ℕ) → read (decimal n) ≡ n
unfolding read decimal
read-decimal n = read-decimal_up_to (suc n) n (omega arith)

hex_digit : ℕ → ℕ
hex_digit d = if ltb d 10 then 48 + d else 87 + d

-- `{b:02x}` of a byte.
unfoldable pub hex_byte : ℕ → Text
unfolding hex_digit
hex_byte b = hex_digit (b / 16) ∷ hex_digit (b % 16) ∷ []

-- `str::parse` at `u64`: a sign, and digits that stay below the bound.
unfoldable pub read_digits : ℕ → Text → Option ℕ
read_digits acc [] = some acc
read_digits acc (c ∷ cs) =
    let rest = read_digits (acc * 10 + (c - 48)) cs in if leb 48 c && leb c 57 then rest else none

unfoldable pub below_u64 : Option ℕ → Option ℕ
below_u64 none = none
below_u64 (some n) = if ltb n (2 ^ 64) then some n else none

unfoldable pub parse_digits : Text → Option ℕ
unfolding read_digits below_u64
parse_digits [] = none
parse_digits (c ∷ cs) = below_u64 (read_digits 0 (c ∷ cs))

unfoldable pub parse_u64 : Text → Option ℕ
unfolding parse_digits
parse_u64 [] = none
parse_u64 (c ∷ cs) = if c == b'+' then parse_digits cs else parse_digits (c ∷ cs)
