-- ===== src/Attempt/Clocks/Punctual.antt =====
-- An attempt on punctual clocks: its reads, as its records tell of them.
use beta_boot_git_ops.Attempt.{
  Wakes, cancels, overall_deadline_passes, stalls, closes, fails, ticks, receives, responds,
  Response, AttemptEnd, Run,
}
use beta_boot_git_ops.Attempt.Clocks.{World, window, start_clocks, select}
use beta_boot_git_ops.Attempt.Clocks.Bounds.{IsTimely, IsSpaced, select-IsTimely}
use beta_boot_git_ops.Attempt.Clocks.Frames.{
  ArePunctual, emitted, finalize_attempt-ArePunctual, Keeps, handle_frames-Keeps,
  recover_frames-ArePunctual,
}
use beta_boot_git_ops.Attempt.Frames.{recover_frames, Handled}
use beta_boot_git_ops.Attempt.Loop.{
  tell_residue, tell_no_sentinel, settle, close, tick, count_read, parsed, receive, poll,
  or_continue, unless_starved, read_loop, start, refuse, answer, run_attempt, is_success,
}
use beta_boot_git_ops.Config.{OpenAiConfig, as_millis}
use beta_boot_git_ops.Handler.{EventHandler, StreamState, TurnResolution, committed, fault}
use beta_boot_git_ops.Machine.{stream_ended}
use beta_boot_git_ops.Normalize.{SerdeJson}
use beta_boot_git_ops.Sse.{SseEvent, SseOverflow, push, finish_with_residue}
use beta_boot_git_ops.Text.{codes, contains}
use beta_boot_git_ops.Throughput.{Floats}
use beta_boot_git_ops.Base.{
  ℕ, zero, suc, ◌+◌, ◌-◌, ◌*◌, ◌≤◌, ◌<◌, ◌≡◌, refl, inl, inr, Bool, true, false, Option, none, some,
  List, [], ◌∷◌, arith, Bool-cases, length, unwrap_or, Result, ok, err, Bytes, u64, if◌then◌else◌,
  ◌==◌, ◌^◌,
}

module _ (j : SerdeJson) (fl : Floats) (cfg : OpenAiConfig) (w : World) where
  abbrev Punctual : Run fl.F → Type 0
  Punctual r = ArePunctual cfg r.handler

  tell_residue-Punctual :
      (r : Run fl.F) (rest : Bytes) → Punctual r → Punctual (tell_residue j fl cfg r rest)
  unfolding tell_residue
  tell_residue-Punctual r [] p = p
  tell_residue-Punctual r (b ∷ bs) p = emitted cfg r.handler.bus _ p tt

  tell_no_sentinel-Punctual :
      (res : TurnResolution) (r : Run fl.F)
      → Punctual r
      → Punctual (tell_no_sentinel j fl cfg res r)
  unfolding tell_no_sentinel
  tell_no_sentinel-Punctual (committed o) r p = emitted cfg r.handler.bus _ p tt
  tell_no_sentinel-Punctual (fault f) r p = p

  close-Punctual : (r : Run fl.F) → Punctual r → Punctual (close j fl cfg r).1
  unfolding close settle
  close-Punctual r p =
      let (tail, rest) = finish_with_residue r.parser in
      let behind = tell_residue j fl cfg (recover_frames j r tail) rest in
      tell_no_sentinel-Punctual _ _ (
        finalize_attempt-ArePunctual cfg _ behind.st stream_ended (
          emitted cfg behind.handler.bus _
            (tell_residue-Punctual (recover_frames j r tail) rest
              (recover_frames-ArePunctual cfg j r tail p))
            tt))

  tick-Keeps :
      (r : Run fl.F) (first : Option ℕ) (at active : ℕ)
      → Punctual r
      → Keeps cfg r (tick j fl cfg r first at active).1
  unfolding tick
  tick-Keeps r none at active p = record { same_read = refl; same_seq = refl; punctual = p }
  tick-Keeps r (some first) at active p = record {
    same_read = refl;
    same_seq = refl;
    punctual = emitted cfg r.handler.bus _ p tt;
  }

  parsed-Keeps :
      (r : Run fl.F) (at gap : ℕ) (frames : Result (List SseEvent) SseOverflow)
      → Punctual r
      → Keeps cfg r (parsed j fl cfg r at gap frames).1
  unfolding parsed
  parsed-Keeps r at gap (ok frames) p = handle_frames-Keeps cfg j r at gap frames p
  parsed-Keeps r at gap (err o) p = record {
    same_read = refl;
    same_seq = refl;
    punctual = emitted cfg r.handler.bus _ p tt;
  }

  not_first : (seq : ℕ) → suc seq < 2 ^ 64 → (u64 (suc seq + 1) == 1) ≡ false
  not_first seq n = ground (arith, n)

  later_window : (seq : ℕ) → window cfg w (suc seq) ≡ cfg.stall_timeout
  unfolding window
  later_window seq = ground arith

  -- How long the read of this number may be behind the one before it.
  gap_in_window :
      (seq last at : ℕ)
      → seq < 2 ^ 64
      → at ≤ last + window cfg w seq
      → as_millis (at - last)
        ≤ as_millis (if u64 (seq + 1) == 1 then cfg.first_byte_backstop else cfg.stall_timeout)
  unfolding window
  gap_in_window zero last at n h = omega (arith, h)
  gap_in_window (suc seq) last at n h =
      let later : (u64 (suc seq + 1) == 1) ≡ false = not_first seq n in
      rw later (omega (arith, h, later_window seq))

  receive-Punctual :
      (r : Run fl.F) (at wall : ℕ) (chunk : Bytes)
      → r.read_seq < 2 ^ 64
      → at ≤ cfg.overall_deadline
      → at ≤ r.last_read_at + window cfg w r.read_seq
      → Punctual r
      → let r' = (receive j fl cfg r at wall chunk).1 in
        (r'.last_read_at ≡ at) × (r'.read_seq ≡ u64 (r.read_seq + 1)) × Punctual r'
  unfolding receive count_read
  receive-Punctual r at wall chunk n by soon p =
      let counted = count_read j fl cfg r at wall (length chunk) in
      let (frames, parser) = push counted.parser chunk in
      let told : Punctual counted =
        emitted cfg r.handler.bus _ p
          (omega (arith, by), gap_in_window r.read_seq r.last_read_at at n soon) in
      let q =
        parsed-Keeps (record counted { parser = parser }) at (at - r.last_read_at) frames told in
      (q.same_read, q.same_seq, q.punctual)

  or_continue-Punctual :
      (x : Handled fl.F) (k : Run fl.F → AttemptEnd × Run fl.F)
      → Punctual x.1
      → (Punctual x.1 → Punctual (k x.1).1)
      → Punctual (or_continue j fl cfg x k).1
  or_continue-Punctual (some e, r) k p h = p
  or_continue-Punctual (none, r) k p h = h p

  unless_starved-Punctual :
      (x : Bool × Run fl.F) (k : Run fl.F → AttemptEnd × Run fl.F)
      → Punctual x.1
      → (Punctual x.1 → Punctual (k x.1).1)
      → Punctual (unless_starved j fl cfg x k).1
  unless_starved-Punctual (true, r) k p h = emitted cfg r.handler.bus _ p tt
  unless_starved-Punctual (false, r) k p h = h p

  kept :
      (ws : Wakes) (last last' seq seq' : ℕ)
      → last' ≡ last
      → seq' ≡ seq
      → IsTimely cfg w last seq ws
      → IsTimely cfg w last' seq' ws
  kept ws last last' seq seq' e f t = rw (e, f) t

  read_loop-Punctual :
      (ws : Wakes) (r : Run fl.F)
      → r.read_seq < 2 ^ 64
      → IsTimely cfg w r.last_read_at r.read_seq ws
      → Punctual r
      → Punctual (read_loop j fl cfg ws r).1
  unfolding read_loop poll
  read_loop-Punctual cancels r n t p = emitted cfg _ _ (emitted cfg r.handler.bus _ p tt) tt
  read_loop-Punctual overall_deadline_passes r n t p =
      emitted cfg _ _ (emitted cfg r.handler.bus _ p tt) tt
  read_loop-Punctual stalls r n t p = emitted cfg _ _ (emitted cfg r.handler.bus _ p tt) tt
  read_loop-Punctual closes r n t p = close-Punctual (poll j fl cfg r) p
  read_loop-Punctual (fails detail) r n t p = emitted cfg r.handler.bus _ p tt
  read_loop-Punctual (ticks at active rest) r n (by, soon, t) p =
      let polled = poll j fl cfg r in
      let q = tick-Keeps polled r.first_byte_at at active p in
      let x = tick j fl cfg polled r.first_byte_at at active in
      unless_starved-Punctual x (λ r'. read_loop j fl cfg rest r') q.punctual
        (λ p'.
          read_loop-Punctual rest x.1 (omega (arith, n, q.same_seq))
            (kept rest r.last_read_at x.1.last_read_at r.read_seq x.1.read_seq q.same_read
              q.same_seq t)
            p')
  read_loop-Punctual (receives at wall chunk rest) r n (later, by, soon, t) p =
      let polled = poll j fl cfg r in
      let (same, same_seq, told) = receive-Punctual polled at wall chunk n by soon p in
      let x = receive j fl cfg polled at wall chunk in
      or_continue-Punctual x (λ r'. read_loop j fl cfg rest r') told
        (λ p'.
          read_loop-Punctual rest x.1 (omega (arith, same_seq))
            (kept rest at x.1.last_read_at (u64 (r.read_seq + 1)) x.1.read_seq same same_seq t) p')

  answer-Punctual :
      (resp : Response) (r : Run fl.F)
      → r.read_seq < 2 ^ 64
      → IsTimely cfg w r.last_read_at r.read_seq resp.wakes
      → Punctual r
      → Punctual (answer j fl cfg resp r).1
  unfolding answer refuse
  answer-Punctual resp r n t p = elim (Bool-cases (is_success j fl cfg resp.status)) [
    | inl e ↦
        elim (Bool-cases (contains (codes "text/event-stream") (unwrap_or resp.content_type []))) [
          | inl f ↦ rw (e, f) (read_loop-Punctual resp.wakes r n t p)
          | inr f ↦ rw (e, f) (emitted cfg r.handler.bus _ p tt)
        ]
    | inr e ↦ rw e (emitted cfg r.handler.bus _ p tt)
  ]

  -- An attempt whose answer is a stream, from a peer that may send for ever, each item some time
  -- behind the one before it. With more fuel than twice the nanoseconds of the overall deadline and
  -- two, the wakeups come to an end, and the attempt on them has told of reads only by the overall
  -- deadline, each no later behind what was before it, in milliseconds, than the backstop, if it is
  -- read 1, and than the stall timeout, if it has another number, where that is so of the records
  -- before.
  pub run_attempt-Punctual :
      (resp : Response) (h : EventHandler) (st : StreamState) (polls fuel : ℕ)
      → IsSpaced cfg w
      → 2 * suc cfg.overall_deadline < fuel
      → ArePunctual cfg h
      → (ws : Wakes) × (select cfg w fuel 0 (start_clocks w) ≡ some ws)
        × ArePunctual cfg
            (run_attempt j fl cfg (responds (record resp { wakes = ws })) h st polls).1.handler
  unfolding run_attempt start
  run_attempt-Punctual resp h st polls fuel spaced enough p =
      let (ws, e, timely) = select-IsTimely cfg w fuel spaced enough in
      (
        ws,
        e,
        answer-Punctual (record resp { wakes = ws }) (start j fl cfg h st polls) (omega arith)
            timely p,
      )
