-- ===== src/Text/Utf8/Strict.antt =====
-- Decoding is strict: what is decoded has the bytes that were given.
use beta_boot_git_ops.Base.{
  ℕ, Text, Bytes, zero, suc, ◌+◌, ◌-◌, ◌*◌, ◌/◌, ◌%◌, ◌<◌, ◌≤◌, ◌≡◌, refl, ap, ◌∙◌, inl, inr, [],
  ◌∷◌, ◌++◌, true, false, Result, ok, err, Result-cases, take, arith, ltb, Bool-cases, lt→ltb,
  Option,
}
use beta_boot_git_ops.Text.Utf8.{
  Utf8Error, within, is_continuation, second_of_three, second_of_four, char_of_two, third_of_three,
  char_of_three, fourth_of_four, third_of_four, char_of_four, first_char, cons_ok, decode_from,
  from_utf8, encode_char, encode,
}

digits_of_three :
    (x y z : ℕ)
    → y < 64
    → z < 64
    → let n = x * 4096 + y * 64 + z in (n / 4096 ≡ x) × (n / 64 % 64 ≡ y) × (n % 64 ≡ z)
digits_of_three x y z hy hz = omega arith

digits_of_four :
    (x y z w : ℕ)
    → y < 64
    → z < 64
    → w < 64
    → let n = x * 262144 + y * 4096 + z * 64 + w in
      (n / 262144 ≡ x) × (n / 4096 % 64 ≡ y) × (n / 64 % 64 ≡ z) × (n % 64 ≡ w)
digits_of_four x y z w hy hz hw = omega arith

ltb-false : (a b : ℕ) → b ≤ a → ltb a b ≡ false
ltb-false a b h = ground arith

is_continuation_bounds : (b : ℕ) → is_continuation b ≡ true → (0x80 ≤ b) × (b ≤ 0xBF)
unfolding is_continuation
is_continuation_bounds b h = ground arith

-- A second byte makes the sequence minimal.
second_of_three_bounds :
    (a b : ℕ)
    → second_of_three a b ≡ true
    → (0xE0 ≤ a) × (a ≤ 0xEF) × (0x80 ≤ b) × (b ≤ 0xBF) × (32 ≤ (a - 0xE0) * 64 + (b - 0x80))
unfolding second_of_three
second_of_three_bounds a b h = ground arith

second_of_four_bounds :
    (a b : ℕ)
    → second_of_four a b ≡ true
    → (0xF0 ≤ a) × (a ≤ 0xF4) × (0x80 ≤ b) × (b ≤ 0xBF) × (16 ≤ (a - 0xF0) * 64 + (b - 0x80))
unfolding second_of_four
second_of_four_bounds a b h = ground arith

two-encode_char :
    (a b : ℕ)
    → 0xC2 ≤ a
    → a ≤ 0xDF
    → is_continuation b ≡ true
    → encode_char ((a - 0xC0) * 64 + (b - 0x80)) ≡ a ∷ b ∷ []
unfolding encode_char
two-encode_char a b h k hb = ground (arith, is_continuation_bounds b)

encode_char-three :
    (n : ℕ)
    → 0x800 ≤ n
    → n < 0x10000
    → encode_char n ≡ (0xE0 + n / 4096) ∷ (0x80 + n / 64 % 64) ∷ (0x80 + n % 64) ∷ []
unfolding encode_char
encode_char-three n h k =
    rw (ltb-false n 0x80 (omega arith), ltb-false n 0x800 h, lt→ltb n 0x10000 k)

encode_char-four :
    (n : ℕ)
    → 0x10000 ≤ n
    → encode_char n
      ≡ (0xF0 + n / 262144) ∷ (0x80 + n / 4096 % 64) ∷ (0x80 + n / 64 % 64) ∷ (0x80 + n % 64) ∷ []
unfolding encode_char
encode_char-four n h =
    rw (ltb-false n 0x80 (omega arith), ltb-false n 0x800 (omega arith), ltb-false n 0x10000 h)

three-encode_char :
    (a b c : ℕ)
    → second_of_three a b ≡ true
    → is_continuation c ≡ true
    → encode_char ((a - 0xE0) * 4096 + (b - 0x80) * 64 + (c - 0x80)) ≡ a ∷ b ∷ c ∷ []
three-encode_char a b c h hc =
    let (p, q, r, s, m) = second_of_three_bounds a b h in
    let (t, u) = is_continuation_bounds c hc in
    let (x, y, z) = digits_of_three (a - 0xE0) (b - 0x80) (c - 0x80) (omega arith) (omega arith) in
    encode_char-three _ (omega arith) (omega arith) ∙ rw (x, y, z) (ground arith)

four-encode_char :
    (a b c d : ℕ)
    → second_of_four a b ≡ true
    → is_continuation c ≡ true
    → is_continuation d ≡ true
    → encode_char ((a - 0xF0) * 262144 + (b - 0x80) * 4096 + (c - 0x80) * 64 + (d - 0x80))
      ≡ a ∷ b ∷ c ∷ d ∷ []
four-encode_char a b c d h hc hd =
    let (p, q, r, s, m) = second_of_four_bounds a b h in
    let (t, u) = is_continuation_bounds c hc in
    let (v, w) = is_continuation_bounds d hd in
    let (x, y, z, o) =
      digits_of_four (a - 0xF0) (b - 0x80) (c - 0x80) (d - 0x80) (omega arith) (omega arith)
        (omega arith) in
    encode_char-four _ (omega arith) ∙ rw (x, y, z, o) (ground arith)

-- The bytes of the character that a sequence decodes to are those of the sequence.
abbrev Reads : ℕ → Bytes → Result (ℕ × ℕ) (Option ℕ) → Type 0
Reads a bs (ok (c, more)) = encode_char c ≡ a ∷ take more bs
Reads a bs (err l) = Unit

char_of_two-Reads : (a : ℕ) (bs : Bytes) → 0xC2 ≤ a → a ≤ 0xDF → Reads a bs (char_of_two a bs)
unfolding char_of_two
char_of_two-Reads a [] h k = tt
char_of_two-Reads a (b ∷ bs) h k = elim (Bool-cases (is_continuation b)) [
  | inl y ↦ rw y (two-encode_char a b h k y)
  | inr n ↦ rw n tt
]

char_of_three-Reads : (a : ℕ) (bs : Bytes) → Reads a bs (char_of_three a bs)
unfolding char_of_three
char_of_three-Reads a [] = tt
char_of_three-Reads a (b ∷ bs) = elim (Bool-cases (second_of_three a b)) [
  | inl y ↦ rw y (third bs y)
  | inr n ↦ rw n tt
]
  where
    third : (cs : Bytes) → second_of_three a b ≡ true → Reads a (b ∷ cs) (third_of_three a b cs)
    third [] y = tt
    third (c ∷ cs) y = elim (Bool-cases (is_continuation c)) [
      | inl k ↦ rw k (three-encode_char a b c y k)
      | inr n ↦ rw n tt
    ]

char_of_four-Reads : (a : ℕ) (bs : Bytes) → Reads a bs (char_of_four a bs)
unfolding char_of_four
char_of_four-Reads a [] = tt
char_of_four-Reads a (b ∷ bs) = elim (Bool-cases (second_of_four a b)) [
  | inl y ↦ rw y (third bs y)
  | inr n ↦ rw n tt
]
  where
    fourth :
        (c : ℕ) (ds : Bytes)
        → second_of_four a b ≡ true
        → is_continuation c ≡ true
        → Reads a (b ∷ c ∷ ds) (fourth_of_four a b c ds)
    fourth c [] y k = tt
    fourth c (d ∷ ds) y k = elim (Bool-cases (is_continuation d)) [
      | inl l ↦ rw l (four-encode_char a b c d y k l)
      | inr n ↦ rw n tt
    ]

    third : (cs : Bytes) → second_of_four a b ≡ true → Reads a (b ∷ cs) (third_of_four a b cs)
    third [] y = tt
    third (c ∷ cs) y = elim (Bool-cases (is_continuation c)) [
      | inl k ↦ rw k (fourth c cs y k)
      | inr n ↦ rw n tt
    ]

first_char-Reads : (a : ℕ) (bs : Bytes) → Reads a bs (first_char a bs)
unfolding first_char encode_char
first_char-Reads a bs = elim (Bool-cases (ltb a 0x80)) [
  | inl small ↦ rw (small, first_char) (rw small)
  | inr large ↦ elim (Bool-cases (within 0xC2 0xDF a)) [
    | inl two ↦ rw (large, two, first_char) (char_of_two-Reads a bs (ground arith) (ground arith))
    | inr m ↦ elim (Bool-cases (within 0xE0 0xEF a)) [
      | inl three ↦ rw (large, m, three, first_char) (char_of_three-Reads a bs)
      | inr n ↦ elim (Bool-cases (within 0xF0 0xF4 a)) [
        | inl four ↦ rw (large, m, n, four, first_char) (char_of_four-Reads a bs)
        | inr o ↦ rw (large, m, n, o, first_char) tt
      ]
    ]
  ]
]

cons_ok-eq-ok :
    (c : ℕ) (r : Result Text Utf8Error) {t : Text}
    → cons_ok c r ≡ ok t
    → (u : Text) × (r ≡ ok u) × (t ≡ c ∷ u)
unfolding cons_ok
cons_ok-eq-ok c (ok u) h = (u, refl, ground arith)
cons_ok-eq-ok c (err e) h = cc

decode_from-encode :
    (skip pos : ℕ) (bs : Bytes) {t : Text}
    → decode_from skip pos bs ≡ ok t
    → take skip bs ++ encode t ≡ bs
unfolding decode_from encode
decode_from-encode zero pos [] {t} h = (let e : t ≡ [] = ground arith in rw e)
decode_from-encode (suc skip) pos [] {t} h = (let e : t ≡ [] = ground arith in rw e)
decode_from-encode (suc skip) pos (b ∷ bs) h = ap (◌∷◌ b) (decode_from-encode skip (pos + 1) bs h)
decode_from-encode zero pos (b ∷ bs) h = elim (Result-cases (first_char b bs)) [
  | inl ((c, more), e) ↦
      let (u, f, g) = cons_ok-eq-ok c (decode_from more (pos + 1) bs) (rw (e, decode_from) at h) in
      rw g
        (rw (rw e at (first_char-Reads b bs)) (ap (◌∷◌ b) (decode_from-encode more (pos + 1) bs f)))
  | inr (l, e) ↦ absurd (cc (rw (e, decode_from) at h))
]

-- What is decoded from bytes has exactly those bytes as its encoding: nothing is replaced, lost or
-- made up.
pub from_utf8-encode : (bs : Bytes) {t : Text} → from_utf8 bs ≡ ok t → encode t ≡ bs
unfolding from_utf8
from_utf8-encode bs h = decode_from-encode 0 0 bs h
