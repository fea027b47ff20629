-- ===== src/Sse/Search.antt =====
-- The search for a terminator, by recursion on the buffer.
use beta_boot_git_ops.Text.{text_eq}
use mathlib.Core.Option
use beta_boot_git_ops.Sse.{windows, position, find}
use beta_boot_git_ops.Base.{
  ℕ, suc, ◌<◌, ◌≡◌, refl, Bool, true, false, ◌&&◌, Option, none, some, [], ◌∷◌, arith, leb, ◌==◌,
  if◌then◌else◌, length, take, Bytes,
}

-- `starts_with` on slices.
abbrev pub begins : Bytes → Bytes → Bool
begins [] hay = true
begins (x ∷ needle) [] = false
begins (x ∷ needle) (y ∷ hay) = x == y && begins needle hay

unfoldable pub locate : Bytes → Bytes → Option ℕ
locate needle [] = none
locate needle (c ∷ cs) =
    if begins needle (c ∷ cs) then some 0 else Option.map suc (locate needle cs)

windows_short : (n : ℕ) (xs : Bytes) → length xs < n → windows n xs ≡ []
unfolding windows
windows_short n [] h = refl
windows_short n (x ∷ xs) h = ground arith

begins-take :
    (needle hay : Bytes)
    → begins needle hay
      ≡ (leb (length needle) (length hay) && text_eq needle (take (length needle) hay))
unfolding text_eq
begins-take [] hay = ground arith
begins-take (x ∷ needle) [] = ground arith
begins-take (x ∷ needle) (y ∷ hay) = ground (arith, begins-take needle hay)

locate_short : (needle hay : Bytes) → length hay < length needle → locate needle hay ≡ none
unfolding locate
locate_short needle [] h = refl
locate_short needle (c ∷ cs) h = ground (arith, begins-take needle (c ∷ cs), locate_short needle cs)

position-locate :
    (needle hay : Bytes)
    → 0 < length needle
    → position (text_eq needle) (windows (length needle) hay) ≡ locate needle hay
unfolding locate windows position
position-locate needle [] h = refl
position-locate needle (c ∷ cs) h =
    ground (arith, begins-take needle (c ∷ cs), position-locate needle cs h, locate_short needle cs)

pub find-locate : (needle hay : Bytes) → 0 < length needle → find hay needle ≡ locate needle hay
unfolding find
find-locate [] hay h = absurd (omega arith)
find-locate (x ∷ needle) hay h =
    ground (arith, position-locate (x ∷ needle) hay h, locate_short (x ∷ needle) hay)
