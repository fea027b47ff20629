-- ===== src/Sse/Frames.antt =====
-- The first frame of a buffer, and how it stands when more bytes arrive.
use mathlib.Core.Option
use beta_boot_git_ops.Sse.{lf_lf, crlf_crlf, first_of_two, frame_end}
use beta_boot_git_ops.Sse.Search.{begins, locate, find-locate}
use beta_boot_git_ops.Base.{
  ℕ, suc, ◌+◌, ◌≡◌, refl, ap, inl, inr, true, false, Option, none, some, [], ◌∷◌, arith,
  if◌then◌else◌, Bool-cases, take, drop, Bytes,
}

abbrev pub Split : Type 0
Split = Option (Bytes × Bytes)

abbrev pub cons_block : ℕ → Split → Split
cons_block c none = none
cons_block c (some (block, rest)) = some (c ∷ block, rest)

-- The bytes before the first terminator, and those after it.
unfoldable pub split_frame : Bytes → Split
split_frame [] = none
split_frame (c ∷ cs) =
    let later = cons_block c (split_frame cs) in
    if begins crlf_crlf (c ∷ cs)
    then some ([], drop 4 (c ∷ cs))
    else if begins lf_lf (c ∷ cs)
    then some ([], drop 2 (c ∷ cs))
    else later

abbrev pub cut : Bytes → Option (ℕ × ℕ) → Split
cut buf none = none
cut buf (some (end, sep)) = some (take end buf, drop (end + sep) buf)

first_of_two-suc :
    (a b : Option ℕ)
    → first_of_two (Option.map suc a) (Option.map suc b)
      ≡ Option.map (λ p. (suc p.0, p.1)) (first_of_two a b)
unfolding first_of_two
first_of_two-suc (some a) (some b) = ground arith
first_of_two-suc none b = ground arith
first_of_two-suc (some a) none = ground arith

cut-suc :
    (c : ℕ) (cs : Bytes) (p : Option (ℕ × ℕ))
    → cut (c ∷ cs) (Option.map (λ q. (suc q.0, q.1)) p) ≡ cons_block c (cut cs p)
cut-suc c cs none = refl
cut-suc c cs (some (end, sep)) = let e : suc end + sep ≡ suc (end + sep) = omega arith in rw e

first_crlf : (a : Option ℕ) → first_of_two (Option.map suc a) (some 0) ≡ some (0, 4)
unfolding first_of_two
first_crlf none = refl
first_crlf (some a) = ground arith

first_lf : (b : Option ℕ) → first_of_two (some 0) (Option.map suc b) ≡ some (0, 2)
unfolding first_of_two
first_lf none = refl
first_lf (some b) = ground arith

crlf_not_lf :
    (c : ℕ) (cs : Bytes) → begins crlf_crlf (c ∷ cs) ≡ true → begins lf_lf (c ∷ cs) ≡ false
crlf_not_lf c cs h = ground arith

located-split_frame :
    (buf : Bytes)
    → cut buf (first_of_two (locate lf_lf buf) (locate crlf_crlf buf)) ≡ split_frame buf
unfolding split_frame locate
located-split_frame [] = unfold first_of_two in refl
located-split_frame (c ∷ cs) = elim (Bool-cases (begins crlf_crlf (c ∷ cs))) [
  | inl crlf ↦ rw (crlf, crlf_not_lf c cs crlf, first_crlf)
  | inr no_crlf ↦ elim (Bool-cases (begins lf_lf (c ∷ cs))) [
    | inl lf ↦ rw (no_crlf, lf, first_lf)
    | inr no_lf ↦
        rw (no_crlf, no_lf, first_of_two-suc, cut-suc) (ap (cons_block c) (located-split_frame cs))
  ]
]

-- The two searches of the code find the first frame.
pub frame_end-split_frame : (buf : Bytes) → cut buf (frame_end buf) ≡ split_frame buf
unfolding frame_end
frame_end-split_frame buf =
    rw (find-locate lf_lf buf (omega arith), find-locate crlf_crlf buf (omega arith))
      (located-split_frame buf)
