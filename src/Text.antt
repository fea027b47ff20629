-- ===== src/Text.antt =====
-- What the program uses of Rust's `str` and `String`. A text is the list of its Unicode scalar
-- values, so `chars().count()` is its `length`; its bytes are the UTF-8 encoding, `Utf8.encode`.
pub mod Trims
pub mod Lines
pub mod Numbers
pub mod Utf8
use Prim.Native.Char.{code}
use Prim.Native.String.{String}
use beta_boot_git_ops.Base.{
  ℕ, Text, Bool, true, false, ◌&&◌, ◌||◌, ◌≡◌, ◌↔◌, List, [], ◌∷◌, ◌++◌, Option, none, some, ◌==◌,
  leb, if◌then◌else◌, arith,
}
use mathlib.Core.Option

abbrev pub codes : String → Text
codes String.[] = []
codes (String.◌∷◌ c s) = code c ∷ codes s

-- `==` on `str`.
unfoldable pub text_eq : Text → Text → Bool
text_eq [] [] = true
text_eq (x ∷ xs) (y ∷ ys) = x == y && text_eq xs ys
text_eq _ _ = false

pub text_eq_iff : (s t : Text) → (text_eq s t ≡ true) ↔ (s ≡ t)
unfolding text_eq
text_eq_iff (x ∷ s) (y ∷ t) = ground (arith, text_eq_iff s t)
text_eq_iff _ _ = ground arith

-- `starts_with` of one character.
abbrev pub starts_with : ℕ → Text → Bool
starts_with c [] = false
starts_with c (x ∷ xs) = x == c

-- `strip_prefix(c).unwrap_or(self)`.
abbrev pub strip_prefix_or_self : ℕ → Text → Text
strip_prefix_or_self c [] = []
strip_prefix_or_self c (x ∷ xs) = if x == c then xs else x ∷ xs

-- `split_once`: the text before the first `c`, and the text after it.
unfoldable pub split_once : ℕ → Text → Option (Text × Text)
split_once c [] = none
split_once c (x ∷ xs) =
    let rest = split_once c xs in
    if x == c then some ([], xs) else Option.map (λ p. (x ∷ p.0, p.1)) rest

-- Unicode `White_Space`, as `char::is_whitespace` has it.
unfoldable pub is_whitespace : ℕ → Bool
is_whitespace c =
    (leb 9 c && leb c 13)
    || c == 32
    || c == 0x85
    || c == 0xA0
    || c == 0x1680
    || (leb 0x2000 c && leb c 0x200A)
    || c == 0x2028
    || c == 0x2029
    || c == 0x202F
    || c == 0x205F
    || c == 0x3000

unfoldable pub trim_start : Text → Text
unfolding is_whitespace
trim_start [] = []
trim_start (c ∷ cs) = let rest = trim_start cs in if is_whitespace c then rest else c ∷ cs

trim_end_cons : ℕ → Text → Text
unfolding is_whitespace
trim_end_cons c [] = if is_whitespace c then [] else c ∷ []
trim_end_cons c (d ∷ ds) = c ∷ d ∷ ds

unfoldable pub trim_end : Text → Text
unfolding trim_end_cons
trim_end [] = []
trim_end (c ∷ cs) = trim_end_cons c (trim_end cs)

unfoldable pub trim : Text → Text
unfolding trim_start trim_end
trim t = trim_end (trim_start t)

-- `join` of the pieces with one separator.
unfoldable pub join : Text → List Text → Text
join sep [] = []
join sep (x ∷ []) = x
join sep (x ∷ y ∷ ys) = x ++ (sep ++ join sep (y ∷ ys))

-- `starts_with` and `contains` of a text.
abbrev pub begins_with : Text → Text → Bool
begins_with [] t = true
begins_with (x ∷ needle) [] = false
begins_with (x ∷ needle) (y ∷ t) = x == y && begins_with needle t

unfoldable pub contains : Text → Text → Bool
contains needle [] = begins_with needle []
contains needle (c ∷ cs) = begins_with needle (c ∷ cs) || contains needle cs
