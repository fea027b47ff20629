-- ===== src/Attempt/Locality/Loop.antt =====
-- The read loop and the whole attempt on a handler that has emitted something.
use beta_boot_git_ops.Attempt.{
  Wakes, cancels, overall_deadline_passes, stalls, closes, fails, ticks, receives, Reply,
  cancels_first, no_headers_in_time, not_sent, responds, Response, AttemptEnd, complete, wire_end,
  Run, tell_end, end_wire, tell_wake,
}
use beta_boot_git_ops.Attempt.Frames.{recover_frames, Handled}
use beta_boot_git_ops.Attempt.Locality.{
  behind, on, handled_on, tell-on, handle_frames-on, recover_frames-on,
}
use beta_boot_git_ops.Attempt.Loop.{
  stall_window, tell_residue, tell_no_sentinel, settle, close, tick, count_read, parsed, receive,
  poll, or_continue, unless_starved, read_loop, start, refuse, answer, run_attempt, is_success,
}
use beta_boot_git_ops.Config.{OpenAiConfig}
use beta_boot_git_ops.Emission.{StreamEndCause}
use beta_boot_git_ops.Handler.{
  EventHandler, StreamState, TurnResolution, committed, fault, finalize_attempt,
}
use beta_boot_git_ops.Machine.{stream_ended}
use beta_boot_git_ops.Normalize.{SerdeJson}
use beta_boot_git_ops.Sse.{SseEvent, SseOverflow, push, finish_with_residue}
use beta_boot_git_ops.Text.{codes, contains}
use beta_boot_git_ops.Throughput.{Floats}
use beta_boot_git_ops.Base.{
  ℕ, ◌-◌, ◌≡◌, refl, ap, ◌∙◌, inl, inr, Bool, true, false, Option, none, some, List, [], ◌∷◌,
  append_assoc, Bool-cases, length, unwrap_or, Result, ok, err, Text, Bytes,
}

module _ (j : SerdeJson) (fl : Floats) (cfg : OpenAiConfig) (g : EventHandler) where
  abbrev Ended : Type 0
  Ended = AttemptEnd × Run fl.F

  -- An end, its run behind what `g` has emitted.
  abbrev pub ended_on : Ended → Ended
  ended_on (e, r) = (e, on g r)

  end_wire-on :
      (r : Run fl.F) (cause : StreamEndCause)
      → end_wire (on g r) cause ≡ ended_on (end_wire r cause)
  end_wire-on r cause = ap (λ x. (wire_end cause, x)) (tell-on g r _)

  tell_residue-on :
      (r : Run fl.F) (rest : Bytes)
      → tell_residue j fl cfg (on g r) rest ≡ on g (tell_residue j fl cfg r rest)
  unfolding tell_residue
  tell_residue-on r [] = refl
  tell_residue-on r (b ∷ bs) = tell-on g r _

  tell_no_sentinel-on :
      (res : TurnResolution) (r : Run fl.F)
      → tell_no_sentinel j fl cfg res (on g r) ≡ on g (tell_no_sentinel j fl cfg res r)
  unfolding tell_no_sentinel
  tell_no_sentinel-on (committed o) r = tell-on g r _
  tell_no_sentinel-on (fault f) r = refl

  -- What stands behind the end of the stream.
  abbrev settled : Run fl.F → Ended
  settled told =
      let (resolution, st, h) = finalize_attempt told.handler told.st stream_ended in
      (
        complete resolution,
        tell_no_sentinel j fl cfg resolution (record told { st = st; handler = h }),
      )

  settled-on : (r : Run fl.F) → settled (on g r) ≡ ended_on (settled r)
  unfolding finalize_attempt
  settled-on r =
      let (resolution, st, h) = finalize_attempt r.handler r.st stream_ended in
      let after : Run fl.F = record r { st = st; handler = h } in
      ap
        (λ b. (
          complete resolution,
          tell_no_sentinel j fl cfg resolution
              (record r { st = st; handler = record g { bus = b } }),
        ))
        (append_assoc g.bus r.handler.bus _)
      ∙ ap (λ x. (complete resolution, x)) (tell_no_sentinel-on resolution after)

  settle-on : (r : Run fl.F) → settle j fl cfg (on g r) ≡ ended_on (settle j fl cfg r)
  unfolding settle
  settle-on r = ap settled (tell-on g r _) ∙ settled-on (tell_end r _ 0)

  close-on : (r : Run fl.F) → close j fl cfg (on g r) ≡ ended_on (close j fl cfg r)
  unfolding close
  close-on r =
      let (tail, rest) = finish_with_residue r.parser in
      ap (λ x. settle j fl cfg (tell_residue j fl cfg x rest)) (recover_frames-on g j r tail)
      ∙ (ap (settle j fl cfg) (tell_residue-on (recover_frames j r tail) rest)
          ∙ settle-on (tell_residue j fl cfg (recover_frames j r tail) rest))

  abbrev tick_on : Bool × Run fl.F → Bool × Run fl.F
  tick_on (b, r) = (b, on g r)

  tick-on :
      (r : Run fl.F) (first : Option ℕ) (at active : ℕ)
      → tick j fl cfg (on g r) first at active ≡ tick_on (tick j fl cfg r first at active)
  unfolding tick
  tick-on r none at active = refl
  tick-on r (some first) at active = simp append_assoc

  parsed-on :
      (r : Run fl.F) (at gap : ℕ) (frames : Result (List SseEvent) SseOverflow)
      → parsed j fl cfg (on g r) at gap frames ≡ handled_on g (parsed j fl cfg r at gap frames)
  unfolding parsed
  parsed-on r at gap (ok frames) = handle_frames-on g j r at gap frames
  parsed-on r at gap (err o) = ap (λ x. (some x.0, x.1)) (end_wire-on r _)

  count_read-on :
      (r : Run fl.F) (at wall bytes : ℕ)
      → count_read j fl cfg (on g r) at wall bytes ≡ on g (count_read j fl cfg r at wall bytes)
  unfolding count_read
  count_read-on r at wall bytes = simp append_assoc

  receive-on :
      (r : Run fl.F) (at wall : ℕ) (chunk : Bytes)
      → receive j fl cfg (on g r) at wall chunk ≡ handled_on g (receive j fl cfg r at wall chunk)
  unfolding receive
  receive-on r at wall chunk =
      let counted = count_read j fl cfg r at wall (length chunk) in
      let (frames, parser) = push counted.parser chunk in
      ap
        (λ (x : Run fl.F).
          parsed j fl cfg (record x { parser = parser }) at (at - r.last_read_at) frames)
        (count_read-on r at wall (length chunk))
      ∙ parsed-on (record counted { parser = parser }) at (at - r.last_read_at) frames

  or_continue-on :
      (x : Handled fl.F) (k : Run fl.F → Ended)
      → ((r : Run fl.F) → k (on g r) ≡ ended_on (k r))
      → or_continue j fl cfg (handled_on g x) k ≡ ended_on (or_continue j fl cfg x k)
  or_continue-on (some e, r) k h = refl
  or_continue-on (none, r) k h = h r

  unless_starved-on :
      (x : Bool × Run fl.F) (k : Run fl.F → Ended)
      → ((r : Run fl.F) → k (on g r) ≡ ended_on (k r))
      → unless_starved j fl cfg (tick_on x) k ≡ ended_on (unless_starved j fl cfg x k)
  unless_starved-on (true, r) k h = end_wire-on r _
  unless_starved-on (false, r) k h = h r

  -- An exit that tells first which arm woke.
  wake_exit-on :
      (r : Run fl.F) (arm : Text) (cause : StreamEndCause)
      → end_wire (tell_wake (on g r) arm) cause ≡ ended_on (end_wire (tell_wake r arm) cause)
  wake_exit-on r arm cause =
      ap (λ x. end_wire x cause) (tell-on g r _) ∙ end_wire-on (tell_wake r arm) cause

  pub read_loop-on :
      (w : Wakes) (r : Run fl.F) → read_loop j fl cfg w (on g r) ≡ ended_on (read_loop j fl cfg w r)
  unfolding read_loop poll stall_window
  read_loop-on cancels r = wake_exit-on (poll j fl cfg r) _ _
  read_loop-on overall_deadline_passes r = wake_exit-on (poll j fl cfg r) _ _
  read_loop-on stalls r = wake_exit-on (poll j fl cfg r) _ _
  read_loop-on closes r = close-on (poll j fl cfg r)
  read_loop-on (fails detail) r = end_wire-on (poll j fl cfg r) _
  read_loop-on (ticks at active rest) r =
      ap (λ x. unless_starved j fl cfg x (λ r'. read_loop j fl cfg rest r'))
        (tick-on (poll j fl cfg r) r.first_byte_at at active)
      ∙ unless_starved-on (tick j fl cfg (poll j fl cfg r) r.first_byte_at at active)
          (λ r'. read_loop j fl cfg rest r') (λ r'. read_loop-on rest r')
  read_loop-on (receives at wall chunk rest) r =
      ap (λ x. or_continue j fl cfg x (λ r'. read_loop j fl cfg rest r'))
        (receive-on (poll j fl cfg r) at wall chunk)
      ∙ or_continue-on (receive j fl cfg (poll j fl cfg r) at wall chunk)
          (λ r'. read_loop j fl cfg rest r') (λ r'. read_loop-on rest r')

  refuse-on :
      (r : Run fl.F) (cause : StreamEndCause)
      → refuse j fl cfg (on g r) cause ≡ ended_on (refuse j fl cfg r cause)
  unfolding refuse
  refuse-on r cause = ap (λ x. (wire_end cause, x)) (tell-on g r _)

  answer-on :
      (resp : Response) (r : Run fl.F)
      → answer j fl cfg resp (on g r) ≡ ended_on (answer j fl cfg resp r)
  unfolding answer
  answer-on resp r = elim (Bool-cases (is_success j fl cfg resp.status)) [
    | inl e ↦
        elim (Bool-cases (contains (codes "text/event-stream") (unwrap_or resp.content_type []))) [
          | inl f ↦ rw (e, f) (read_loop-on resp.wakes r)
          | inr f ↦ rw (e, f) (refuse-on r _)
        ]
    | inr e ↦ rw e (refuse-on r _)
  ]

-- An attempt on a handler does what it does on one that has emitted nothing and is otherwise
-- any other one, its records behind those emitted before.
pub run_attempt-behind :
    (j : SerdeJson) (fl : Floats) (cfg : OpenAiConfig) (reply : Reply) (g h : EventHandler)
    (st : StreamState) (polls : ℕ)
    → run_attempt j fl cfg reply (behind g h) st polls
      ≡ ended_on j fl cfg g (run_attempt j fl cfg reply h st polls)
unfolding run_attempt start
run_attempt-behind j fl cfg cancels_first g h st polls =
    refuse-on j fl cfg g (start j fl cfg h st polls) _
run_attempt-behind j fl cfg no_headers_in_time g h st polls =
    refuse-on j fl cfg g (start j fl cfg h st polls) _
run_attempt-behind j fl cfg (not_sent detail) g h st polls =
    refuse-on j fl cfg g (start j fl cfg h st polls) _
run_attempt-behind j fl cfg (responds resp) g h st polls =
    answer-on j fl cfg g resp (start j fl cfg h st polls)
