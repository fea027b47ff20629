-- ===== src/Sse/Growth.antt =====
-- A frame that is found stays the first one when more bytes arrive.
use beta_boot_git_ops.Sse.{lf_lf, crlf_crlf}
use beta_boot_git_ops.Sse.Search.{begins}
use beta_boot_git_ops.Sse.Frames.{split_frame}
use beta_boot_git_ops.Sse.Terminators.{begins-eq-append, split_frame_neither, found_cases}
use beta_boot_git_ops.Base.{
  ℕ, ◌≡◌, refl, ap, ◌∙◌, ◌≢◌, false, none, some, [], ◌∷◌, ◌++◌, arith, drop, Bytes,
}

-- Where a frame ends behind the first byte, that byte starts no terminator which the next bytes
-- could complete.
no_crlf_later :
    (c : ℕ) (cs more : Bytes)
    → split_frame cs ≢ none
    → begins crlf_crlf (c ∷ cs) ≡ false
    → begins crlf_crlf ((c ∷ cs) ++ more) ≡ false
unfolding split_frame
no_crlf_later c [] more h n = absurd (h refl)
no_crlf_later c (d ∷ []) more h n = ground arith
no_crlf_later c (d ∷ e ∷ []) more h n = ground arith
no_crlf_later c (d ∷ e ∷ f ∷ fs) more h n = n

no_lf_later :
    (c : ℕ) (cs more : Bytes)
    → split_frame cs ≢ none
    → begins lf_lf (c ∷ cs) ≡ false
    → begins lf_lf ((c ∷ cs) ++ more) ≡ false
unfolding split_frame
no_lf_later c [] more h n = absurd (h refl)
no_lf_later c (d ∷ ds) more h n = n

begun_crlf :
    (rest more : Bytes) → split_frame ((crlf_crlf ++ rest) ++ more) ≡ some ([], rest ++ more)
unfolding split_frame
begun_crlf rest more = refl

begun_lf : (rest more : Bytes) → split_frame ((lf_lf ++ rest) ++ more) ≡ some ([], rest ++ more)
unfolding split_frame
begun_lf rest more = refl

pub split_frame-append :
    (buf more : Bytes) {block rest : Bytes}
    → split_frame buf ≡ some (block, rest)
    → split_frame (buf ++ more) ≡ some (block, rest ++ more)
split_frame-append [] more h = unfold split_frame in cc
split_frame-append (c ∷ cs) more {block} {rest} h =
    found_cases (split_frame ((c ∷ cs) ++ more) ≡ some (block, rest ++ more)) c cs h
      (λ crlf b r.
        ap (λ buf. split_frame (buf ++ more)) (begins-eq-append crlf_crlf (c ∷ cs) crlf)
        ∙ rw (b, r) (begun_crlf (drop 4 (c ∷ cs)) more))
      (λ _ lf b r.
        ap (λ buf. split_frame (buf ++ more)) (begins-eq-append lf_lf (c ∷ cs) lf)
        ∙ rw (b, r) (begun_lf (drop 2 (c ∷ cs)) more))
      (λ before no_crlf no_lf e b.
        let found : split_frame cs ≢ none = ground arith in
        split_frame_neither c (cs ++ more) (no_crlf_later c cs more found no_crlf)
          (no_lf_later c cs more found no_lf)
        ∙ rw (split_frame-append cs more e, b))
