-- ===== src/Text/Utf8/Encoded.antt =====
-- Encoding and decoding again: the characters are Unicode's scalar values.
use beta_boot_git_ops.Text.Utf8.{
  is_continuation, second_of_three, second_of_four, char_of_two, third_of_three, char_of_three,
  fourth_of_four, third_of_four, char_of_four, first_char, cons_ok, decode_from, from_utf8,
  encode_char, encode,
}
use beta_boot_git_ops.Base.{
  ℕ, ◌+◌, ◌*◌, ◌/◌, ◌%◌, ◌≤◌, ◌<◌, ◌≡◌, refl, ap, ◌∙◌, inl, inr, Bool, true, false, ◌&&◌, ◌||◌, [],
  ◌∷◌, ◌++◌, arith, ltb, leb, ltb→lt, Bool-cases, All, ok, Text, Bytes,
}

-- A `char`: no surrogate, and within Unicode.
unfoldable pub is_scalar : ℕ → Bool
is_scalar c = ltb c 0xD800 || (leb 0xE000 c && ltb c 0x110000)

-- What decodes to a text from any position.
abbrev Decodes : Bytes → Text → Type 0
Decodes bs t = (pos : ℕ) → decode_from 0 pos bs ≡ ok t

decoded :
    (c a more pos : ℕ) (bs : Bytes) (u : Text)
    → first_char a bs ≡ ok (c, more)
    → decode_from more (pos + 1) bs ≡ ok u
    → decode_from 0 pos (a ∷ bs) ≡ ok (c ∷ u)
unfolding decode_from cons_ok
decoded c a more pos bs u e h = rw (e, decode_from) (rw h refl)

one : (c : ℕ) (rest : Bytes) → c < 0x80 → first_char c rest ≡ ok (c, 0)
unfolding first_char
one c rest h = ground arith

two :
    (x y : ℕ) (rest : Bytes)
    → 2 ≤ x
    → x < 32
    → y < 64
    → first_char (0xC0 + x) ((0x80 + y) ∷ rest) ≡ ok (x * 64 + y, 1)
unfolding first_char char_of_two is_continuation
two x y rest h k l = ground arith

three :
    (x y z : ℕ) (rest : Bytes)
    → x < 16
    → y < 64
    → z < 64
    → (x ≡ 0 → 32 ≤ y)
    → (x ≡ 13 → y < 32)
    → first_char (0xE0 + x) ((0x80 + y) ∷ (0x80 + z) ∷ rest) ≡ ok (x * 4096 + y * 64 + z, 2)
unfolding first_char char_of_three second_of_three third_of_three is_continuation
three x y z rest h k l m n = ground arith

four :
    (x y z w : ℕ) (rest : Bytes)
    → x < 5
    → y < 64
    → z < 64
    → w < 64
    → (x ≡ 0 → 16 ≤ y)
    → (x ≡ 4 → y < 16)
    → first_char (0xF0 + x) ((0x80 + y) ∷ (0x80 + z) ∷ (0x80 + w) ∷ rest)
      ≡ ok (x * 262144 + y * 4096 + z * 64 + w, 3)
unfolding first_char char_of_four second_of_four third_of_four fourth_of_four is_continuation
four x y z w rest h k l m n o = ground arith

below : (c : ℕ) → is_scalar c ≡ true → c < 0x110000
unfolding is_scalar
below c h = ground arith

no_surrogate : (c : ℕ) → c / 4096 ≡ 13 → is_scalar c ≡ true → c / 64 % 64 < 32
unfolding is_scalar
no_surrogate c e h = ground arith

shortest : (c : ℕ) → c / 4096 ≡ 0 → 0x800 ≤ c → 32 ≤ c / 64 % 64
shortest c e h = omega (arith, e, h)

shortest_of_four : (c : ℕ) → c / 262144 ≡ 0 → 0x10000 ≤ c → 16 ≤ c / 4096 % 64
shortest_of_four c e h = omega (arith, e, h)

not_ltb : (a b : ℕ) → ltb a b ≡ false → b ≤ a
not_ltb a b h = ground arith

-- A character's bytes before those of a text.
encode_char-Decodes :
    (c : ℕ) (bs : Bytes) (u : Text)
    → is_scalar c ≡ true
    → Decodes bs u
    → Decodes (encode_char c ++ bs) (c ∷ u)
unfolding encode_char decode_from is_scalar
encode_char-Decodes c bs u h d pos = elim (Bool-cases (ltb c 0x80)) [
  | inl small ↦ rw small (decoded c c 0 pos bs u (one c bs (ltb→lt c 0x80 small)) (d (pos + 1)))
  | inr large ↦ elim (Bool-cases (ltb c 0x800)) [
    | inl y ↦
        rw (large, y)
          (decoded c (0xC0 + c / 64) 1 pos ((0x80 + c % 64) ∷ bs) u
            (two (c / 64) (c % 64) bs (ground arith) (ground arith) (omega arith)
              ∙ ap (λ n. ok (n, 1)) (omega arith))
            (d (pos + 1 + 1)))
    | inr n ↦ elim (Bool-cases (ltb c 0x10000)) [
      | inl y ↦
          rw (large, n, y)
            (decoded c (0xE0 + c / 4096) 2 pos ((0x80 + c / 64 % 64) ∷ (0x80 + c % 64) ∷ bs) u
              (three (c / 4096) (c / 64 % 64) (c % 64) bs (ground arith) (omega arith) (omega arith)
                  (λ e. shortest c e (not_ltb c 0x800 n)) (λ e. no_surrogate c e h)
                ∙ ap (λ n. ok (n, 2)) (omega arith))
              (d (pos + 1 + 1 + 1)))
      | inr o ↦
          rw (large, n, o)
            (decoded c (0xF0 + c / 262144) 3 pos
              ((0x80 + c / 4096 % 64) ∷ (0x80 + c / 64 % 64) ∷ (0x80 + c % 64) ∷ bs) u
              (four (c / 262144) (c / 4096 % 64) (c / 64 % 64) (c % 64) bs
                  (omega (arith, below c h)) (omega arith) (omega arith) (omega arith)
                  (λ e. shortest_of_four c e (not_ltb c 0x10000 o))
                  (λ e. omega (arith, e, below c h))
                ∙ ap (λ n. ok (n, 3)) (omega arith))
              (d (pos + 1 + 1 + 1 + 1)))
    ]
  ]
]

decodes : (t : Text) → All (λ c. is_scalar c ≡ true) t → Decodes (encode t) t
unfolding encode decode_from
decodes [] h = λ pos. refl
decodes (c ∷ t) h = encode_char-Decodes c (encode t) t h.0 (decodes t h.1)

-- What is encoded is decoded to itself: nothing is refused.
pub from_utf8-encode_scalars :
    (t : Text) → All (λ c. is_scalar c ≡ true) t → from_utf8 (encode t) ≡ ok t
unfolding from_utf8
from_utf8-encode_scalars t h = decodes t h 0
