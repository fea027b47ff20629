-- ===== src/Sse/Terminators.antt =====
-- Frames and terminators: what the search means for the bytes, and what more bytes change.
use beta_boot_git_ops.Sse.{lf_lf, crlf_crlf}
use beta_boot_git_ops.Sse.Search.{begins}
use beta_boot_git_ops.Sse.Frames.{split_frame, cons_block, Split}
use beta_boot_git_ops.Base.{
  ℕ, ◌≡◌, refl, sym, ap, ◌∙◌, ◌≢◌, ◌⊎◌, inl, inr, true, false, none, some, [], ◌∷◌, ◌++◌, arith,
  Bool-cases, length, drop, Bytes,
}

abbrev pub IsTerminator : Bytes → Type 0
IsTerminator sep = (sep ≡ lf_lf) ⊎ (sep ≡ crlf_crlf)

-- Somewhere in these bytes a frame ends.
abbrev pub HasTerminator : Bytes → Type 0
HasTerminator buf =
    (pre : Bytes) × (sep : Bytes) × (post : Bytes) × IsTerminator sep × (buf ≡ pre ++ (sep ++ post))

pub begins-eq-append :
    (needle hay : Bytes) → begins needle hay ≡ true → hay ≡ needle ++ drop (length needle) hay
begins-eq-append [] hay h = refl
begins-eq-append (x ∷ needle) [] h = cc
begins-eq-append (x ∷ needle) (y ∷ hay) h = ground (arith, begins-eq-append needle hay)

pub begins-append : (needle rest : Bytes) → begins needle (needle ++ rest) ≡ true
begins-append [] rest = refl
begins-append (x ∷ needle) rest = ground (arith, begins-append needle rest)

cons_block-eq-some :
    (c : ℕ) (s : Split) {block rest : Bytes}
    → cons_block c s ≡ some (block, rest)
    → (before : Bytes) × (s ≡ some (before, rest)) × (block ≡ c ∷ before)
cons_block-eq-some c none h = cc
cons_block-eq-some c (some (b, r)) h = (b, ground arith, ground arith)

split_frame_crlf :
    (c : ℕ) (cs : Bytes)
    → begins crlf_crlf (c ∷ cs) ≡ true
    → split_frame (c ∷ cs) ≡ some ([], drop 4 (c ∷ cs))
unfolding split_frame
split_frame_crlf c cs h = rw h

split_frame_lf :
    (c : ℕ) (cs : Bytes)
    → begins crlf_crlf (c ∷ cs) ≡ false
    → begins lf_lf (c ∷ cs) ≡ true
    → split_frame (c ∷ cs) ≡ some ([], drop 2 (c ∷ cs))
unfolding split_frame
split_frame_lf c cs h k = rw (h, k)

pub split_frame_neither :
    (c : ℕ) (cs : Bytes)
    → begins crlf_crlf (c ∷ cs) ≡ false
    → begins lf_lf (c ∷ cs) ≡ false
    → split_frame (c ∷ cs) ≡ cons_block c (split_frame cs)
unfolding split_frame
split_frame_neither c cs h k = rw (h, k)

-- The three ways in which a frame is found in a buffer.
pub found_cases {ℓ} :
    (P : Type ℓ) (c : ℕ) (cs : Bytes) {block rest : Bytes}
    → split_frame (c ∷ cs) ≡ some (block, rest)
    → (begins crlf_crlf (c ∷ cs) ≡ true → block ≡ [] → rest ≡ drop 4 (c ∷ cs) → P)
    → (begins crlf_crlf (c ∷ cs) ≡ false
        → begins lf_lf (c ∷ cs) ≡ true
        → block ≡ []
        → rest ≡ drop 2 (c ∷ cs)
        → P)
    → ((before : Bytes)
        → begins crlf_crlf (c ∷ cs) ≡ false
        → begins lf_lf (c ∷ cs) ≡ false
        → split_frame cs ≡ some (before, rest)
        → block ≡ c ∷ before
        → P)
    → P
found_cases P c cs {block} {rest} h at_crlf at_lf later =
    elim (Bool-cases (begins crlf_crlf (c ∷ cs))) [
      | inl crlf ↦
          let e = sym (split_frame_crlf c cs crlf) ∙ h in at_crlf crlf (ground arith) (ground arith)
      | inr no_crlf ↦ elim (Bool-cases (begins lf_lf (c ∷ cs))) [
        | inl lf ↦
            let e = sym (split_frame_lf c cs no_crlf lf) ∙ h in
            at_lf no_crlf lf (ground arith) (ground arith)
        | inr no_lf ↦
            let (b, e, f) =
              cons_block-eq-some c (split_frame cs)
                (sym (split_frame_neither c cs no_crlf no_lf) ∙ h) in
            later b no_crlf no_lf e f
      ]
    ]

abbrev Parts : Bytes → Bytes → Bytes → Type 0
Parts buf block rest = (sep : Bytes) × IsTerminator sep × (buf ≡ block ++ (sep ++ rest))

-- The first frame, its terminator and what follows are the buffer.
pub split_frame-parts :
    (buf : Bytes) {block rest : Bytes}
    → split_frame buf ≡ some (block, rest)
    → (sep : Bytes) × IsTerminator sep × (buf ≡ block ++ (sep ++ rest))
split_frame-parts [] h = unfold split_frame in cc
split_frame-parts (c ∷ cs) {block} {rest} h =
    found_cases (Parts (c ∷ cs) block rest) c cs h
      (λ crlf b r. (crlf_crlf, inr refl, rw (b, r) (begins-eq-append crlf_crlf (c ∷ cs) crlf)))
      (λ _ lf b r. (lf_lf, inl refl, rw (b, r) (begins-eq-append lf_lf (c ∷ cs) lf)))
      (λ before _ _ e b. let (sep, t, g) = split_frame-parts cs e in (sep, t, rw b (ap (◌∷◌ c) g)))

split_frame_here : (sep rest : Bytes) → IsTerminator sep → split_frame (sep ++ rest) ≢ none
unfolding split_frame
split_frame_here sep rest (inl e) = rw e (ground arith)
split_frame_here sep rest (inr e) = rw e (ground arith)

split_frame_later : (c : ℕ) (cs : Bytes) → split_frame cs ≢ none → split_frame (c ∷ cs) ≢ none
unfolding split_frame
split_frame_later c cs h = ground arith

split_frame_complete :
    (pre sep post : Bytes) → IsTerminator sep → split_frame (pre ++ (sep ++ post)) ≢ none
split_frame_complete [] sep post t = split_frame_here sep post t
split_frame_complete (c ∷ pre) sep post t =
    split_frame_later c (pre ++ (sep ++ post)) (split_frame_complete pre sep post t)

-- Where no frame is found, no frame ends.
pub not-HasTerminator : (buf : Bytes) → split_frame buf ≡ none → ¬ HasTerminator buf
not-HasTerminator buf h (pre, sep, post, t, e) = split_frame_complete pre sep post t (rw e at h)
