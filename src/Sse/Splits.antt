-- ===== src/Sse/Splits.antt =====
-- A buffer as its complete frames and the tail behind them, and the loop of `push` that finds them.
use beta_boot_git_ops.Sse.{SseEvent, frame_end, parse_block, push_some, take_frames}
use beta_boot_git_ops.Sse.Frames.{split_frame, cut, frame_end-split_frame}
use beta_boot_git_ops.Sse.Terminators.{IsTerminator, split_frame-parts}
use beta_boot_git_ops.Sse.Growth.{split_frame-append}
use beta_boot_git_ops.Base.{
  ℕ, zero, suc, ◌+◌, ◌≤◌, ◌≡◌, refl, sym, ap, ◌∙◌, subst, inl, inr, Option, none, some, List, [],
  ◌∷◌, ◌++◌, append-nil, append_assoc, arith, Option-cases, length, take, drop, length-append,
  Bytes,
}

pub data Splits : Bytes → List Bytes → Bytes → Type 0 where
  stop : {buf tail : Bytes} → split_frame buf ≡ none → tail ≡ buf → Splits buf [] tail
  frame :
      {buf block rest tail : Bytes} {blocks : List Bytes}
      → split_frame buf ≡ some (block, rest)
      → Splits rest blocks tail
      → Splits buf (block ∷ blocks) tail

-- The frames' events, in order.
abbrev pub events_of : List Bytes → List SseEvent
events_of [] = []
events_of (b ∷ bs) = push_some [] (parse_block b) ++ events_of bs

pub Splits-deterministic :
    {buf t u : Bytes} {bs cs : List Bytes} → Splits buf bs t → Splits buf cs u → (bs ≡ cs) × (t ≡ u)
Splits-deterministic (stop h e) (stop k f) = (refl, e ∙ sym f)
Splits-deterministic (stop h e) (frame k s) = cc
Splits-deterministic (frame h s) (stop k f) = cc
Splits-deterministic (frame {block = b} {rest = r} {tail = t} {blocks = bs} h s)
      (frame {block = c} {rest = r'} {blocks = cs} k s') =
    let same = sym h ∙ k in
    let rest : r ≡ r' = ground arith in
    let (p, q) = Splits-deterministic (subst (λ x. Splits x bs t) rest s) s' in (ground arith, q)

-- The frames of a tail and more bytes come behind those found before.
pub Splits-append :
    {buf t u : Bytes} {bs cs : List Bytes} (more : Bytes)
    → Splits buf bs t
    → Splits (t ++ more) cs u
    → Splits (buf ++ more) (bs ++ cs) u
Splits-append more (stop h e) s = rw (sym e) s
Splits-append more (frame {buf = buf} h r) s =
    frame (split_frame-append buf more h) (Splits-append more r s)

pub Splits-tail : {buf t : Bytes} {bs : List Bytes} → Splits buf bs t → split_frame t ≡ none
Splits-tail (stop h e) = rw e h
Splits-tail (frame h s) = Splits-tail s

pub split_frame-nil : split_frame [] ≡ none
unfolding split_frame
split_frame-nil = refl

cut-eq-none : (buf : Bytes) (p : Option (ℕ × ℕ)) → cut buf p ≡ none → p ≡ none
cut-eq-none buf none h = refl
cut-eq-none buf (some q) h = cc

cut-eq-some :
    (buf : Bytes) (p : Option (ℕ × ℕ)) {block rest : Bytes}
    → cut buf p ≡ some (block, rest)
    → (end : ℕ) × (sep : ℕ) × (p ≡ some (end, sep))
      × (take end buf ≡ block)
      × (drop (end + sep) buf ≡ rest)
cut-eq-some buf none h = cc
cut-eq-some buf (some (end, sep)) h = (end, sep, refl, ground arith, ground arith)

length-terminator : (sep : Bytes) → IsTerminator sep → 2 ≤ length sep
length-terminator sep (inl e) = rw e (omega arith)
length-terminator sep (inr e) = rw e (omega arith)

pub rest_shorter :
    (buf : Bytes) {block rest : Bytes}
    → split_frame buf ≡ some (block, rest)
    → length rest + 2 ≤ length buf
rest_shorter buf {block} {rest} h =
    let (sep, t, e) = split_frame-parts buf h in
    omega (
      arith,
      ap length e,
      length-append block (sep ++ rest),
      length-append sep rest,
      length-terminator sep t,
    )

push_some-append :
    (out : List SseEvent) (b : Bytes) (bs : List Bytes)
    → push_some out (parse_block b) ++ events_of bs ≡ out ++ events_of (b ∷ bs)
push_some-append out b bs = go (parse_block b)
  where
    go :
        (e : Option SseEvent)
        → push_some out e ++ events_of bs ≡ out ++ (push_some [] e ++ events_of bs)
    go none = refl
    go (some ev) = append_assoc out (ev ∷ []) (events_of bs)

-- With as much fuel as the buffer is long, the loop takes every frame.
pub take_frames-Splits :
    (fuel : ℕ) (buf : Bytes) (out : List SseEvent)
    → length buf ≤ fuel
    → (bs : List Bytes) × (t : Bytes) × Splits buf bs t
      × (take_frames fuel buf out ≡ (out ++ events_of bs, t))
unfolding take_frames
take_frames-Splits zero [] out h = ([], [], stop split_frame-nil refl, rw append-nil)
take_frames-Splits zero (c ∷ cs) out h = absurd (omega arith)
take_frames-Splits (suc fuel) buf out h = elim (Option-cases (split_frame buf)) [
  | inl e ↦
      let f = cut-eq-none buf (frame_end buf) (frame_end-split_frame buf ∙ e) in
      ([], buf, stop e refl, rw (f, take_frames, append-nil))
  | inr ((block, rest), e) ↦
      let (end, sep, f, b, r) = cut-eq-some buf (frame_end buf) (frame_end-split_frame buf ∙ e) in
      let (bs, t, s, g) =
        take_frames-Splits fuel rest (push_some out (parse_block block))
          (omega (arith, rest_shorter buf e)) in
      (block ∷ bs, t, frame e s, rw (f, take_frames, b, r, g) (rw push_some-append))
]
