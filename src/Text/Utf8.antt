-- ===== src/Text/Utf8.antt =====
-- `std::str::from_utf8`, its error and its inverse.
pub mod Strict
pub mod Encoded
use beta_boot_git_ops.Base.{
  ℕ, Text, Bytes, zero, suc, ◌+◌, ◌-◌, ◌*◌, ◌/◌, ◌%◌, Bool, ◌&&◌, ◌||◌, [], ◌∷◌, ◌++◌, Option, none,
  some, Result, ok, err, ltb, leb, ◌==◌, if◌then◌else◌, length, take, drop,
}

pub record Utf8Error : Type 0 where
  pub valid_up_to : ℕ
  pub error_len : Option ℕ

abbrev within : ℕ → ℕ → ℕ → Bool
within lo hi b = leb lo b && leb b hi

is_continuation : ℕ → Bool
is_continuation b = within 0x80 0xBF b

-- Which second byte may follow the first of a sequence of three, and of four.
second_of_three : ℕ → ℕ → Bool
second_of_three a b =
    (a == 0xE0 && within 0xA0 0xBF b)
    || (within 0xE1 0xEC a && within 0x80 0xBF b)
    || (a == 0xED && within 0x80 0x9F b)
    || (within 0xEE 0xEF a && within 0x80 0xBF b)

second_of_four : ℕ → ℕ → Bool
second_of_four a b =
    (a == 0xF0 && within 0x90 0xBF b)
    || (within 0xF1 0xF3 a && within 0x80 0xBF b)
    || (a == 0xF4 && within 0x80 0x8F b)

-- A decoded character with the number of bytes behind its first, or the error's length.
abbrev Decoded : Type 0
Decoded = Result (ℕ × ℕ) (Option ℕ)

char_of_two : ℕ → Bytes → Decoded
unfolding is_continuation
char_of_two a [] = err none
char_of_two a (b ∷ _) =
    if is_continuation b then ok ((a - 0xC0) * 64 + (b - 0x80), 1) else err (some 1)

third_of_three : ℕ → ℕ → Bytes → Decoded
unfolding is_continuation
third_of_three a b [] = err none
third_of_three a b (c ∷ _) =
    if is_continuation c
    then ok ((a - 0xE0) * 4096 + (b - 0x80) * 64 + (c - 0x80), 2)
    else err (some 2)

char_of_three : ℕ → Bytes → Decoded
unfolding second_of_three third_of_three
char_of_three a [] = err none
char_of_three a (b ∷ bs) = if second_of_three a b then third_of_three a b bs else err (some 1)

fourth_of_four : ℕ → ℕ → ℕ → Bytes → Decoded
unfolding is_continuation
fourth_of_four a b c [] = err none
fourth_of_four a b c (d ∷ _) =
    if is_continuation d
    then ok ((a - 0xF0) * 262144 + (b - 0x80) * 4096 + (c - 0x80) * 64 + (d - 0x80), 3)
    else err (some 3)

third_of_four : ℕ → ℕ → Bytes → Decoded
unfolding is_continuation fourth_of_four
third_of_four a b [] = err none
third_of_four a b (c ∷ cs) = if is_continuation c then fourth_of_four a b c cs else err (some 2)

char_of_four : ℕ → Bytes → Decoded
unfolding second_of_four third_of_four
char_of_four a [] = err none
char_of_four a (b ∷ bs) = if second_of_four a b then third_of_four a b bs else err (some 1)

first_char : ℕ → Bytes → Decoded
unfolding char_of_two char_of_three char_of_four
first_char a bs =
    if ltb a 0x80
    then ok (a, 0)
    else if within 0xC2 0xDF a
    then char_of_two a bs
    else if within 0xE0 0xEF a
    then char_of_three a bs
    else if within 0xF0 0xF4 a
    then char_of_four a bs
    else err (some 1)

cons_ok : ℕ → Result Text Utf8Error → Result Text Utf8Error
cons_ok c (ok t) = ok (c ∷ t)
cons_ok c (err e) = err e

-- From byte `pos` on; the next `skip` bytes belong to the character before.
decode_from : ℕ → ℕ → Bytes → Result Text Utf8Error
unfolding first_char cons_ok
decode_from skip pos [] = ok []
decode_from (suc skip) pos (b ∷ bs) = decode_from skip (pos + 1) bs
decode_from zero pos (b ∷ bs) = elim (first_char b bs) [
  | ok (c, more) ↦ cons_ok c (decode_from more (pos + 1) bs)
  | err l ↦ err (record { valid_up_to = pos; error_len = l })
]

unfoldable pub from_utf8 : Bytes → Result Text Utf8Error
unfolding decode_from
from_utf8 bs = decode_from 0 0 bs

unfoldable pub encode_char : ℕ → Bytes
encode_char c =
    if ltb c 0x80
    then c ∷ []
    else if ltb c 0x800
    then (0xC0 + c / 64) ∷ (0x80 + c % 64) ∷ []
    else if ltb c 0x10000
    then (0xE0 + c / 4096) ∷ (0x80 + c / 64 % 64) ∷ (0x80 + c % 64) ∷ []
    else (0xF0 + c / 262144) ∷ (0x80 + c / 4096 % 64) ∷ (0x80 + c / 64 % 64) ∷ (0x80 + c % 64) ∷ []

-- The bytes of a text.
unfoldable pub encode : Text → Bytes
unfolding encode_char
encode [] = []
encode (c ∷ cs) = encode_char c ++ encode cs

-- `str::len`.
abbrev pub byte_len : Text → ℕ
byte_len t = length (encode t)

abbrev unwrap_or_nil : Result Text Utf8Error → Text
unwrap_or_nil (ok t) = t
unwrap_or_nil (err e) = []

-- An error with no length is an incomplete sequence at the end: nothing follows it.
abbrev after_error : Option ℕ → (ℕ → Text) → Text
after_error none rest = []
after_error (some l) rest = rest l

-- `String::from_utf8_lossy`: each malformed piece becomes one U+FFFD. A round takes a byte at least,
-- so the number of bytes is fuel enough.
lossy_up_to : ℕ → Bytes → Text
unfolding from_utf8
lossy_up_to zero bs = []
lossy_up_to (suc fuel) bs = elim (from_utf8 bs) [
  | ok t ↦ t
  | err e ↦
      unwrap_or_nil (from_utf8 (take e.valid_up_to bs))
      ++ (0xFFFD ∷ after_error e.error_len (λ l. lossy_up_to fuel (drop (e.valid_up_to + l) bs)))
]

unfoldable pub from_utf8_lossy : Bytes → Text
unfolding lossy_up_to
from_utf8_lossy bs = lossy_up_to (suc (length bs)) bs
