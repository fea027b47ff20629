-- ===== src/Sse/Stream.antt =====
-- A whole stream of frames: what the peer sends is what the parser returns, however it is read.
use beta_boot_git_ops.Sse.{SseEvent, SseParser, data_of, lf_lf, with_limit, push}
use beta_boot_git_ops.Sse.Growth.{split_frame-append}
use beta_boot_git_ops.Sse.Push.{Pushed, prepend, push-Splits, pushed_as, feed, feed-push}
use beta_boot_git_ops.Sse.RoundTrip.{has-encode, split_frame-ended, parse_block-data}
use beta_boot_git_ops.Sse.Splits.{Splits, stop, frame, events_of, rest_shorter, split_frame-nil}
use beta_boot_git_ops.Text.{codes}
use beta_boot_git_ops.Text.Lines.Single.{has}
use beta_boot_git_ops.Text.Utf8.{encode}
use beta_boot_git_ops.Text.Utf8.Encoded.{is_scalar, from_utf8-encode_scalars}
use beta_boot_git_ops.Base.{
  ℕ, ◌+◌, ◌≤◌, ◌≡◌, refl, sym, ap, ◌∙◌, true, false, List, [], ◌∷◌, ◌++◌, map, arith, ltb, length,
  concat, All, length-append, ok, err, Text, Bytes,
}

-- The tail is no longer than the buffer.
Splits-length : {buf t : Bytes} {bs : List Bytes} → Splits buf bs t → length t ≤ length buf
Splits-length (stop {buf = buf} h e) = omega (arith, ap length e)
Splits-length (frame {buf = buf} h s) = omega (arith, rest_shorter buf h, Splits-length s)

abbrev Succeeds : Pushed → Type 0
Succeeds r = (evs : List SseEvent) × (q : SseParser) × (r ≡ (ok evs, q))

prepend-Succeeds : (evs : List SseEvent) (r : Pushed) → Succeeds r → Succeeds (prepend evs r)
prepend-Succeeds evs (ok later, p) s = (evs ++ later, p, refl)
prepend-Succeeds evs (err o, p) (later, q, e) = cc

-- Reads that fit the limit together are all taken.
feed-Succeeds :
    (p : SseParser) (chunks : List Bytes)
    → length p.buf + length (concat chunks) ≤ p.limit_bytes
    → Succeeds (feed p chunks)
unfolding feed
feed-Succeeds p [] h = ([], p, refl)
feed-Succeeds p (c ∷ cs) h =
    let (bs, t, s, e) = push-Splits p c in
    let fits : length t + length (concat cs) ≤ p.limit_bytes =
      omega (arith, Splits-length s, length-append p.buf c, length-append c (concat cs), h) in
    let room : ltb p.limit_bytes (length t) ≡ false = ground (arith, fits) in
    rw (e, room)
      (prepend-Succeeds (events_of bs) (feed (record p { buf = t }) cs)
        (feed-Succeeds (record p { buf = t }) cs fits))

-- A `data` line as the peer sends it, and the event that it is.
abbrev pub line_of : Text → Bytes
line_of d = encode (codes "data: " ++ d)

abbrev pub sent : List Text → Bytes
sent [] = []
sent (d ∷ ds) = (line_of d ++ lf_lf) ++ sent ds

abbrev pub received : List Text → List SseEvent
received [] = []
received (d ∷ ds) = record { payload = data_of d; raw_byte_len = length (line_of d) } ∷ received ds

-- Unicode without a newline.
abbrev pub IsLine : Text → Type 0
IsLine d = All (λ c. is_scalar c ≡ true) d × (has 10 d ≡ false)

field-scalar :
    (d : Text)
    → All (λ c. is_scalar c ≡ true) d
    → All (λ c. is_scalar c ≡ true) (codes "data: " ++ d)
unfolding is_scalar
field-scalar d h = (refl, (refl, (refl, (refl, (refl, (refl, h))))))

sent-Splits : (ds : List Text) → All IsLine ds → Splits (sent ds) (map line_of ds) []
sent-Splits [] h = stop split_frame-nil refl
sent-Splits (d ∷ ds) ((scalar, single), h) =
    frame
      (split_frame-append (line_of d ++ lf_lf) (sent ds)
        (split_frame-ended (line_of d) (has-encode (codes "data: " ++ d) single)))
      (sent-Splits ds h)

events_of-lines : (ds : List Text) → All IsLine ds → events_of (map line_of ds) ≡ received ds
events_of-lines [] h = refl
events_of-lines (d ∷ ds) ((scalar, single), h) =
    rw
      (parse_block-data (line_of d) d
        (from_utf8-encode_scalars (codes "data: " ++ d) (field-scalar d scalar)) single)
      (ap (λ evs. record { payload = data_of d; raw_byte_len = length (line_of d) } ∷ evs)
        (events_of-lines ds h))

-- What a peer sends is what the parser returns. Where the texts of a stream are Unicode without a
-- newline, and its bytes fit the limit, a new parser takes any reads that the bytes come in, returns
-- the texts in their order, each with the number of its line's bytes, and is as new.
pub feed-received :
    (limit : ℕ) (chunks : List Bytes) (ds : List Text)
    → All IsLine ds
    → concat chunks ≡ sent ds
    → length (sent ds) ≤ limit
    → feed (with_limit limit) chunks ≡ (ok (received ds), with_limit limit)
unfolding with_limit
feed-received limit chunks ds h e l =
    let (evs, q, fed) = feed-Succeeds (with_limit limit) chunks (omega (arith, ap length e, l)) in
    let whole =
      sym (feed-push limit chunks fed)
      ∙ ap (push (with_limit limit)) e
      ∙ pushed_as (with_limit limit) (sent ds) (sent-Splits ds h) in
    fed ∙ whole ∙ rw (events_of-lines ds h) (ground arith)
