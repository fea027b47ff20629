-- ===== src/Sse/Push.antt =====
-- `push`: its result on every branch, its bound, and that the sizes of the reads do not matter.
use beta_boot_git_ops.Sse.{SseEvent, SseOverflow, SseParser, with_limit, push, buffered}
use beta_boot_git_ops.Sse.Frames.{split_frame}
use beta_boot_git_ops.Sse.Terminators.{HasTerminator, not-HasTerminator}
use beta_boot_git_ops.Sse.Leftmost.{IsFramed, Splits-IsFramed}
use beta_boot_git_ops.Sse.Splits.{
  Splits, stop, events_of, Splits-deterministic, Splits-append, Splits-tail, take_frames-Splits,
  split_frame-nil,
}
use beta_boot_git_ops.Base.{
  ℕ, ◌≤◌, ◌≡◌, refl, sym, ap, ◌∙◌, subst, inl, inr, none, List, [], ◌∷◌, ◌++◌, append-nil,
  append_assoc, arith, ltb, if◌then◌else◌, Bool-cases, length, concat, Result, ok, err, Bytes,
}

-- What `push` returns for these frames and this tail.
abbrev pub pushed : SseParser → List Bytes → Bytes → Result (List SseEvent) SseOverflow × SseParser
pushed p blocks tail = (
  if ltb p.limit_bytes (length tail)
      then err (record { limit_bytes = p.limit_bytes })
      else ok (events_of blocks),
  record p { buf = tail },
)

pub push-Splits :
    (p : SseParser) (chunk : Bytes)
    → (blocks : List Bytes) × (tail : Bytes) × Splits (p.buf ++ chunk) blocks tail
      × (push p chunk ≡ pushed p blocks tail)
unfolding push
push-Splits p chunk =
    let buf = p.buf ++ chunk in
    let (bs, t, s, e) = take_frames-Splits (length buf) buf [] (omega arith) in
    (bs, t, s, rw (e, push))

-- On every branch: the bytes held and received are framed at their leftmost terminators; the
-- parser keeps exactly the bytes behind the last one, and returns the frames' events in order,
-- unless more bytes are left than its limit.
pub push-IsFramed :
    (p : SseParser) (chunk : Bytes)
    → (blocks : List Bytes) × (tail : Bytes) × IsFramed (p.buf ++ chunk) blocks tail
      × (push p chunk ≡ pushed p blocks tail)
push-IsFramed p chunk = let (bs, t, s, e) = push-Splits p chunk in (bs, t, Splits-IsFramed s, e)

pub pushed_as :
    (p : SseParser) (chunk : Bytes) {blocks : List Bytes} {tail : Bytes}
    → Splits (p.buf ++ chunk) blocks tail
    → push p chunk ≡ pushed p blocks tail
pushed_as p chunk s =
    let (bs, t, r, e) = push-Splits p chunk in
    let (same_blocks, same_tail) = Splits-deterministic r s in rw (e, same_blocks, same_tail)

abbrev pub Pushed : Type 0
Pushed = Result (List SseEvent) SseOverflow × SseParser

abbrev pub prepend : List SseEvent → Pushed → Pushed
prepend evs (ok later, q) = (ok (evs ++ later), q)
prepend evs (err o, q) = (err o, q)

abbrev pub and_then : Pushed → (SseParser → Pushed) → Pushed
and_then (ok evs, q) k = prepend evs (k q)
and_then (err o, q) k = (err o, q)

-- The reads of a stream one after the other, up to the first overflow.
unfoldable pub feed : SseParser → List Bytes → Pushed
feed p [] = (ok [], p)
feed p (c ∷ cs) = and_then (push p c) (λ q. feed q cs)

prepend-eq-ok :
    (evs : List SseEvent) (r : Pushed) {all : List SseEvent} {q : SseParser}
    → prepend evs r ≡ (ok all, q)
    → (later : List SseEvent) × (r ≡ (ok later, q)) × (all ≡ evs ++ later)
prepend-eq-ok evs (ok later, p) h = (later, ground arith, ground arith)
prepend-eq-ok evs (err o, p) h = absurd (ground arith)

events_of-append : (bs cs : List Bytes) → events_of (bs ++ cs) ≡ events_of bs ++ events_of cs
events_of-append [] cs = refl
events_of-append (b ∷ bs) cs = simp (events_of-append bs cs, append_assoc)

-- What successful reads have found, of the bytes alone.
record Reassembled (p : SseParser) (chunks : List Bytes) (evs : List SseEvent) (q : SseParser)
    : Type 0 where
  blocks : List Bytes
  splits : Splits (p.buf ++ concat chunks) blocks q.buf
  events : evs ≡ events_of blocks
  same_limit : q.limit_bytes ≡ p.limit_bytes
  within : buffered q ≤ q.limit_bytes

feed-Reassembled :
    (p : SseParser) (chunks : List Bytes) {evs : List SseEvent} {q : SseParser}
    → split_frame p.buf ≡ none
    → buffered p ≤ p.limit_bytes
    → feed p chunks ≡ (ok evs, q)
    → Reassembled p chunks evs q
unfolding feed
feed-Reassembled p [] {evs} {q} settled bounded h =
    let same : p ≡ q = ground arith in
    record {
      blocks = [];
      splits = rw append-nil (stop settled (ap (λ (r : SseParser). r.buf) (sym same)));
      events = ground arith;
      same_limit = ap (λ (r : SseParser). r.limit_bytes) (sym same);
      within = subst (λ r. buffered r ≤ r.limit_bytes) same bounded;
    }
feed-Reassembled p (c ∷ cs) {evs} {q} settled bounded h =
    let (bs, t, s, e) = push-Splits p c in
    elim (Bool-cases (ltb p.limit_bytes (length t))) [
      | inl over ↦ absurd (ground arith)
      | inr fits ↦
          let p' : SseParser = record p { buf = t } in
          let (later, f, g) = prepend-eq-ok (events_of bs) (feed p' cs) (rw (e, fits) at h) in
          let r = feed-Reassembled p' cs (Splits-tail s) (ground arith) f in
          record {
            blocks = bs ++ r.blocks;
            splits = rw (← append_assoc) (Splits-append (concat cs) s r.splits);
            events = g ∙ rw (r.events, events_of-append);
            same_limit = r.same_limit;
            within = r.within;
          }
    ]

pushed_within :
    (p : SseParser) (blocks : List Bytes) (q : SseParser)
    → q.limit_bytes ≡ p.limit_bytes
    → buffered q ≤ q.limit_bytes
    → pushed p blocks q.buf ≡ (ok (events_of blocks), q)
pushed_within p blocks q same h = ground arith

-- However the bytes of a stream are cut into reads: where the reads all succeed, one read of all
-- the bytes gives the same events in the same order, and leaves the same parser.
pub feed-push :
    (limit : ℕ) (chunks : List Bytes) {evs : List SseEvent} {q : SseParser}
    → feed (with_limit limit) chunks ≡ (ok evs, q)
    → push (with_limit limit) (concat chunks) ≡ (ok evs, q)
unfolding with_limit
feed-push limit chunks {evs} {q} h =
    let r = feed-Reassembled (with_limit limit) chunks split_frame-nil (omega arith) h in
    pushed_as (with_limit limit) (concat chunks) r.splits
    ∙ pushed_within (with_limit limit) r.blocks q r.same_limit r.within
    ∙ rw r.events

-- After successful reads the parser holds no more than its limit, and no complete frame.
pub feed_bounded :
    (limit : ℕ) (chunks : List Bytes) {evs : List SseEvent} {q : SseParser}
    → feed (with_limit limit) chunks ≡ (ok evs, q)
    → (buffered q ≤ limit) × ¬ HasTerminator q.buf
unfolding with_limit
feed_bounded limit chunks {evs} {q} h =
    let r = feed-Reassembled (with_limit limit) chunks split_frame-nil (omega arith) h in
    (ground arith, not-HasTerminator q.buf (Splits-tail r.splits))
