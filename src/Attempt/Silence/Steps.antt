-- ===== src/Attempt/Silence/Steps.antt =====
-- One wakeup of a silent stream: what a read of comments leaves, and a tick without content.
use beta_boot_git_ops.Attempt.Silence.{IsComment, Pings, ClockBy, Silent, handle_frames-Passed}
use beta_boot_git_ops.Attempt.{Run}
use beta_boot_git_ops.Attempt.Frames.{Handled}
use beta_boot_git_ops.Attempt.Loop.{tick, count_read, parsed, receive, poll}
use beta_boot_git_ops.Config.{OpenAiConfig, from_secs}
use beta_boot_git_ops.Normalize.{SerdeJson}
use beta_boot_git_ops.Sse.{SseOverflow, SseEvent, SseParser, push}
use beta_boot_git_ops.Throughput.{Floats, next_ema, eval_throughput}
use beta_boot_git_ops.Base.{
  ℕ, ◌+◌, ◌-◌, ◌≤◌, ◌≡◌, refl, sym, ap, ◌∙◌, subst, inl, inr, Bool, true, false, ◌&&◌, Option, none,
  some, List, arith, leb, le→leb, Bool-cases, length, unwrap_or, or_else, All, Result, ok, Bytes,
}

module _ (j : SerdeJson) (fl : Floats) (cfg : OpenAiConfig) where
  -- A read of comments goes on with the same parser, average and clock.
  pub record Pinged (p : SseParser) (first : ℕ) (r : Run fl.F) (x : Handled fl.F) : Type 0 where
    pub goes : x.0 ≡ none
    pub silent : Silent fl p first x.1
    pub ema : x.1.ema_bps ≡ r.ema_bps
    pub clock : x.1.starved_dur ≡ r.starved_dur

  parsed-Pinged :
      (p : SseParser) (first : ℕ) (r t : Run fl.F) (at gap : ℕ) (evs : List SseEvent)
      → All IsComment evs
      → Silent fl p first t
      → t.ema_bps ≡ r.ema_bps
      → t.starved_dur ≡ r.starved_dur
      → Pinged p first r (parsed j fl cfg t at gap (ok evs))
  unfolding parsed
  parsed-Pinged p first r t at gap evs cs q ema clock =
      let (goes, u) = handle_frames-Passed fl j t at gap evs cs in
      record {
        goes = goes;
        silent = record {
          parser = u.parser ∙ q.parser;
          first_byte = u.first_byte ∙ q.first_byte;
          no_content = u.content ∙ q.no_content;
        };
        ema = u.ema ∙ ema;
        clock = u.clock ∙ clock;
      }

  pub receive-Pinged :
      (p : SseParser) (first : ℕ) (r : Run fl.F) (at wall : ℕ) (chunk : Bytes)
      → r.parser ≡ p
      → or_else r.first_byte_at (some at) ≡ some first
      → r.content_bytes_this_sec ≡ 0
      → Pings p chunk
      → Pinged p first r (receive j fl cfg (poll j fl cfg r) at wall chunk)
  unfolding receive poll count_read
  receive-Pinged p first r at wall chunk same started no_content pings =
      let counted = count_read j fl cfg (poll j fl cfg r) at wall (length chunk) in
      subst
        (λ (x : Result (List SseEvent) SseOverflow × SseParser).
          Pinged p first r
            (parsed j fl cfg (record counted { parser = x.1 }) at (at - r.last_read_at) x.0))
        (sym (ap (λ p. push p chunk) same ∙ pings.pushed))
        (parsed-Pinged p first r (record counted { parser = p }) at (at - r.last_read_at)
          pings.frames pings.comments
          (record { parser = refl; first_byte = started; no_content = no_content }) refl refl)

  abbrev warmed : ℕ → ℕ → Bool
  warmed first at = leb (from_secs 1) (at - first)

  abbrev is_low : Run fl.F → Bool
  is_low r = fl.lt (next_ema fl r.ema_bps 0) (fl.of_u64 cfg.throughput_floor_bps)

  -- What a tick without content makes of the clock.
  abbrev Clocked : Run fl.F → ℕ → ℕ → Type 0
  Clocked r first at =
      (starved : Bool) × (since : Option ℕ) × (eval_throughput fl r.ema_bps 0
          cfg.throughput_floor_bps (warmed first at) r.starved_dur at cfg.throughput_sustained
        ≡ (next_ema fl r.ema_bps 0, starved, since))

  -- What such a tick leaves.
  pub record Ticked (p : SseParser) (first : ℕ) (r : Run fl.F) (starved : Bool) (since : Option ℕ)
      (x : Bool × Run fl.F) : Type 0 where
    pub starves : x.0 ≡ starved
    pub silent : Silent fl p first x.1
    pub ema : x.1.ema_bps ≡ next_ema fl r.ema_bps 0
    pub clock : x.1.starved_dur ≡ since

  pub tick-Ticked :
      (p : SseParser) (first : ℕ) (r : Run fl.F) (at active : ℕ) (starved : Bool) (since : Option ℕ)
      → Silent fl p first r
      → eval_throughput fl r.ema_bps 0 cfg.throughput_floor_bps
          (warmed first at)
          r.starved_dur
          at
          cfg.throughput_sustained
        ≡ (next_ema fl r.ema_bps 0, starved, since)
      → Ticked p first r starved since (tick j fl cfg (poll j fl cfg r) r.first_byte_at at active)
  unfolding tick poll
  tick-Ticked p first r at active starved since q e =
      let v =
        ap
          (λ b.
            eval_throughput fl r.ema_bps b cfg.throughput_floor_bps (warmed first at) r.starved_dur
              at cfg.throughput_sustained)
          q.no_content
        ∙ e in
      subst (λ o. Ticked p first r starved since (tick j fl cfg (poll j fl cfg r) o at active))
        (sym q.first_byte)
        (record {
          starves = ap (λ (x : fl.F × Bool × Option ℕ). x.1) v;
          silent = record { parser = q.parser; first_byte = q.first_byte; no_content = refl };
          ema = ap (λ (x : fl.F × Bool × Option ℕ). x.0) v;
          clock = ap (λ (x : fl.F × Bool × Option ℕ). x.2) v;
        })

  -- On a low average the clock runs; on any it runs from no later than it did, or than now.
  pub eval_low :
      (ema : fl.F) (first at : ℕ) (clock : Option ℕ)
      → first + from_secs 1 ≤ at
      → fl.lt (next_ema fl ema 0) (fl.of_u64 cfg.throughput_floor_bps) ≡ true
      → eval_throughput fl ema 0 cfg.throughput_floor_bps
          (warmed first at)
          clock
          at
          cfg.throughput_sustained
        ≡ (
          next_ema fl ema 0,
          leb cfg.throughput_sustained (at - unwrap_or clock at),
          some (unwrap_or clock at),
        )
  unfolding eval_throughput
  eval_low ema first at clock w low =
      let warm : warmed first at ≡ true = le→leb (from_secs 1) (at - first) (omega (arith, w)) in
      rw (warm, low) refl

  pub clock_since :
      (at u : ℕ) (clock : Option ℕ) → ClockBy u clock → at ≤ u → unwrap_or clock at ≤ u
  clock_since at u none c h = h
  clock_since at u (some s) c h = c

  pub eval_any :
      (ema : fl.F) (first at u : ℕ) (clock : Option ℕ)
      → ClockBy u clock
      → at ≤ u
      → (starved : Bool) × (since : Option ℕ) × (eval_throughput fl ema 0 cfg.throughput_floor_bps
            (warmed first at)
            clock
            at
            cfg.throughput_sustained
          ≡ (next_ema fl ema 0, starved, since))
        × ClockBy u since
  unfolding eval_throughput
  eval_any ema first at u clock c h =
      elim (Bool-cases
        (warmed first at && fl.lt (next_ema fl ema 0) (fl.of_u64 cfg.throughput_floor_bps))) [
          | inl low ↦ rw low (
            leb cfg.throughput_sustained (at - unwrap_or clock at),
            some (unwrap_or clock at),
            refl,
            clock_since at u clock c h,
          )
          | inr high ↦ rw high (false, none, refl, tt)
        ]
