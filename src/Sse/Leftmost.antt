-- ===== src/Sse/Leftmost.antt =====
-- Frames described without the search: each ends at the leftmost terminator.
use beta_boot_git_ops.Sse.{lf_lf, crlf_crlf}
use beta_boot_git_ops.Sse.Search.{begins}
use beta_boot_git_ops.Sse.Frames.{split_frame}
use beta_boot_git_ops.Sse.Terminators.{
  IsTerminator, HasTerminator, begins-append, found_cases, split_frame-parts, not-HasTerminator,
}
use beta_boot_git_ops.Sse.Splits.{Splits, stop, frame}
use beta_boot_git_ops.Base.{
  ◌≤◌, ◌≡◌, ◌≢◌, inl, inr, false, some, List, [], ◌∷◌, ◌++◌, arith, length, Bytes,
}

-- No terminator starts before the end of the block.
abbrev pub IsLeftmost : Bytes → Bytes → Type 0
IsLeftmost buf block =
    (pre sep post : Bytes)
    → IsTerminator sep
    → buf ≡ pre ++ (sep ++ post)
    → length block ≤ length pre

-- The blocks that a stream of bytes is framed into, and the bytes behind the last terminator.
pub data IsFramed : Bytes → List Bytes → Bytes → Type 0 where
  tail_only : {buf tail : Bytes} → tail ≡ buf → ¬ HasTerminator buf → IsFramed buf [] tail
  block_first :
      {buf block sep rest tail : Bytes} {blocks : List Bytes}
      → IsTerminator sep
      → buf ≡ block ++ (sep ++ rest)
      → IsLeftmost buf block
      → IsFramed rest blocks tail
      → IsFramed buf (block ∷ blocks) tail

not_here :
    (buf sep post : Bytes)
    → begins crlf_crlf buf ≡ false
    → begins lf_lf buf ≡ false
    → IsTerminator sep
    → buf ≢ sep ++ post
not_here buf sep post h k (inl e) g = ground (arith, begins-append lf_lf post, rw e at g)
not_here buf sep post h k (inr e) g = ground (arith, begins-append crlf_crlf post, rw e at g)

split_frame-IsLeftmost :
    (buf : Bytes) {block rest : Bytes} → split_frame buf ≡ some (block, rest) → IsLeftmost buf block
split_frame-IsLeftmost [] h pre sep post t e = unfold split_frame in cc
split_frame-IsLeftmost (c ∷ cs) {block} h pre sep post t e =
    found_cases (length block ≤ length pre) c cs h (λ _ b _. rw b (omega arith))
      (λ _ _ b _. rw b (omega arith))
      (λ before no_crlf no_lf f b.
        rw b (later pre before no_crlf no_lf (split_frame-IsLeftmost cs f) e))
  where
    later :
        (pre before : Bytes)
        → begins crlf_crlf (c ∷ cs) ≡ false
        → begins lf_lf (c ∷ cs) ≡ false
        → IsLeftmost cs before
        → c ∷ cs ≡ pre ++ (sep ++ post)
        → length (c ∷ before) ≤ length pre
    later [] before h k left e = absurd (not_here (c ∷ cs) sep post h k t e)
    later (d ∷ ds) before h k left e =
        let rest : cs ≡ ds ++ (sep ++ post) = ground arith in omega (arith, left ds sep post t rest)

pub Splits-IsFramed :
    {buf tail : Bytes} {blocks : List Bytes} → Splits buf blocks tail → IsFramed buf blocks tail
Splits-IsFramed (stop {buf} h e) = tail_only e (not-HasTerminator buf h)
Splits-IsFramed (frame {buf} h s) =
    let (sep, t, e) = split_frame-parts buf h in
    block_first t e (split_frame-IsLeftmost buf h) (Splits-IsFramed s)
