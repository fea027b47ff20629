-- ===== src/Attempt/Silence.antt =====
-- A peer that only keeps the connection alive: reads that bring comments, and ticks of the
-- throughput clock, which find that no content has come.
pub mod Steps
pub mod Starves
use beta_boot_git_ops.Attempt.{Wakes, ticks, receives, Run}
use beta_boot_git_ops.Attempt.Frames.{
  Handled, go_on, next_installment, handle_payload, handle_frame, handle_frames,
}
use beta_boot_git_ops.Config.{from_secs}
use beta_boot_git_ops.Normalize.{SerdeJson}
use beta_boot_git_ops.Sse.{SsePayload, comment, SseEvent, SseParser, push}
use beta_boot_git_ops.Throughput.{Floats, next_ema}
use beta_boot_git_ops.Base.{
  ℕ, zero, suc, ◌+◌, ◌≤◌, ◌≡◌, refl, ◌∙◌, ◌⊎◌, true, Option, none, some, List, [], ◌∷◌, All, ok,
  Text, Bytes,
}

-- What wakes the loop.
pub data Beat : Type 0 where
  tick_at : (at active_streams : ℕ) → Beat
  ping_at : (at wall_unix_ms : ℕ) (chunk : Bytes) → Beat

-- The wakeups of these beats, and the others behind them.
abbrev pub wakes_of : List Beat → Wakes → Wakes
wakes_of [] rest = rest
wakes_of (tick_at at active ∷ bs) rest = ticks at active (wakes_of bs rest)
wakes_of (ping_at at wall chunk ∷ bs) rest = receives at wall chunk (wakes_of bs rest)

-- The wakeups of ticks at these times, with these numbers of active streams, and the others behind
-- them.
abbrev pub ticks_then : List (ℕ × ℕ) → Wakes → Wakes
ticks_then [] rest = rest
ticks_then ((at, active) ∷ ts) rest = ticks at active (ticks_then ts rest)

-- How many of them are ticks.
abbrev pub count_ticks : List Beat → ℕ
count_ticks [] = 0
count_ticks (tick_at at active ∷ bs) = suc (count_ticks bs)
count_ticks (ping_at at wall chunk ∷ bs) = count_ticks bs

-- One of them is a tick at this time or later.
abbrev pub TicksBy : ℕ → List Beat → Type 0
TicksBy v [] = ⊥
TicksBy v (tick_at at active ∷ bs) = (v ≤ at) ⊎ TicksBy v bs
TicksBy v (ping_at at wall chunk ∷ bs) = TicksBy v bs

abbrev pub IsComment : SseEvent → Type 0
IsComment ev = (c : Text) × (ev.payload ≡ comment c)

-- A chunk of whole comments: the parser is as it was.
pub record Pings (p : SseParser) (chunk : Bytes) : Type 0 where
  pub frames : List SseEvent
  pub pushed : push p chunk ≡ (ok frames, p)
  pub comments : All IsComment frames

-- Reads bring comments.
abbrev pub IsPing : SseParser → Beat → Type 0
IsPing p (tick_at at active) = Unit
IsPing p (ping_at at wall chunk) = Pings p chunk

-- Ticks come a second or more behind the first byte, and reads bring comments.
abbrev pub IsQuiet : SseParser → ℕ → Beat → Type 0
IsQuiet p first (tick_at at active) = first + from_secs 1 ≤ at
IsQuiet p first (ping_at at wall chunk) = Pings p chunk

-- Ticks no later than this.
abbrev pub IsBy : ℕ → Beat → Type 0
IsBy u (tick_at at active) = at ≤ u
IsBy u (ping_at at wall chunk) = Unit

-- The clock has been running since no later than this, if it runs.
abbrev pub ClockBy : ℕ → Option ℕ → Type 0
ClockBy u none = Unit
ClockBy u (some s) = s ≤ u

module _ (fl : Floats) where
  -- The average after windows without content.
  abbrev pub decay : ℕ → fl.F → fl.F
  decay zero ema = ema
  decay (suc n) ema = decay n (next_ema fl ema 0)

  -- After `k` such windows the average is below the floor, and stays there.
  abbrev pub LowFrom : ℕ → ℕ → fl.F → Type 0
  LowFrom k floor ema = (n : ℕ) → k ≤ n → fl.lt (decay (suc n) ema) (fl.of_u64 floor) ≡ true

  -- A run that nothing has come to.
  pub record Fresh (p : SseParser) (r : Run fl.F) : Type 0 where
    pub parser : r.parser ≡ p
    pub first_byte : r.first_byte_at ≡ none
    pub no_content : r.content_bytes_this_sec ≡ 0
    pub ema : r.ema_bps ≡ fl.zero_point_zero
    pub clock : r.starved_dur ≡ none

  -- A run that no content has come to since the last tick.
  pub record Silent (p : SseParser) (first : ℕ) (r : Run fl.F) : Type 0 where
    pub parser : r.parser ≡ p
    pub first_byte : r.first_byte_at ≡ some first
    pub no_content : r.content_bytes_this_sec ≡ 0

  -- What a read of comments leaves.
  pub record Unmoved (r r' : Run fl.F) : Type 0 where
    pub parser : r'.parser ≡ r.parser
    pub first_byte : r'.first_byte_at ≡ r.first_byte_at
    pub content : r'.content_bytes_this_sec ≡ r.content_bytes_this_sec
    pub ema : r'.ema_bps ≡ r.ema_bps
    pub clock : r'.starved_dur ≡ r.starved_dur

  abbrev pub Passed : Run fl.F → Handled fl.F → Type 0
  Passed r x = (x.0 ≡ none) × Unmoved r x.1

  handle_payload-Passed :
      (j : SerdeJson) (r : Run fl.F) (now gap bytes : ℕ) (p : SsePayload) (c : Text)
      → p ≡ comment c
      → Passed r (handle_payload j r now gap bytes p)
  unfolding handle_payload
  handle_payload-Passed j r now gap bytes p c e =
      rw e (
        refl,
        record { parser = refl; first_byte = refl; content = refl; ema = refl; clock = refl },
      )

  Unmoved-trans : (r s t : Run fl.F) → Unmoved r s → Unmoved s t → Unmoved r t
  Unmoved-trans r s t a b = record {
    parser = b.parser ∙ a.parser;
    first_byte = b.first_byte ∙ a.first_byte;
    content = b.content ∙ a.content;
    ema = b.ema ∙ a.ema;
    clock = b.clock ∙ a.clock;
  }

  handle_frame-Passed :
      (j : SerdeJson) (r : Run fl.F) (now gap : ℕ) (ev : SseEvent)
      → IsComment ev
      → Passed r (handle_frame j r now gap ev)
  unfolding handle_frame next_installment
  handle_frame-Passed j r now gap ev (c, e) =
      let (goes, u) =
        handle_payload-Passed j (next_installment r) now gap ev.raw_byte_len ev.payload c e in
      (
        goes,
        record {
          parser = u.parser;
          first_byte = u.first_byte;
          content = u.content;
          ema = u.ema;
          clock = u.clock;
        },
      )

  go_on-Passed :
      (r : Run fl.F) (x : Handled fl.F) (k : Run fl.F → Handled fl.F)
      → Passed r x
      → ((s : Run fl.F) → Unmoved r s → Passed r (k s))
      → Passed r (go_on x k)
  go_on-Passed r (none, s) k (goes, u) next = next s u
  go_on-Passed r (some e, s) k (goes, u) next = cc

  pub handle_frames-Passed :
      (j : SerdeJson) (r : Run fl.F) (now gap : ℕ) (evs : List SseEvent)
      → All IsComment evs
      → Passed r (handle_frames j r now gap evs)
  unfolding handle_frames
  handle_frames-Passed j r now gap [] q =
      (refl, record { parser = refl; first_byte = refl; content = refl; ema = refl; clock = refl })
  handle_frames-Passed j r now gap (ev ∷ evs) (c, cs) =
      go_on-Passed r (handle_frame j r now gap ev) (λ s. handle_frames j s now gap evs)
        (handle_frame-Passed j r now gap ev c)
        (λ s u.
          let (goes, v) = handle_frames-Passed j s now gap evs cs in
          (goes, Unmoved-trans r s (handle_frames j s now gap evs).1 u v))
