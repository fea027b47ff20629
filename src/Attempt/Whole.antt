-- ===== src/Attempt/Whole.antt =====
-- How the whole attempt ends: the read loop and what stands before and behind it.
use beta_boot_git_ops.Attempt.{
  Wakes, cancels, overall_deadline_passes, stalls, closes, fails, ticks, receives, Response, Reply,
  cancels_first, no_headers_in_time, not_sent, responds, AttemptEnd, complete, Run, tell_end,
  end_wire, tell_wake,
}
use beta_boot_git_ops.Attempt.Goes.{
  Goes, IsWord, RunProgress, handle_frames-Goes, Goes-after, recover_frames-Progress,
}
use beta_boot_git_ops.Attempt.Ends.{
  cause_of, Judged, Ends, Ends-after, finalize_attempt-Judged, Judged-note,
}
use beta_boot_git_ops.Attempt.Frames.{Handled, recover_frames}
use beta_boot_git_ops.Attempt.Loop.{
  unless_starved, or_continue, tell_residue, tell_no_sentinel, settle, close, tick, starvation,
  count_read, parsed, receive, poll, read_loop, start, refuse, is_success, answer, run_attempt,
}
use beta_boot_git_ops.Attempt.Progress.{
  Progress-count, Progress-refl, Progress-trans, Progress-tell,
}
use beta_boot_git_ops.Config.{OpenAiConfig}
use beta_boot_git_ops.Emission.{StreamEndCause, cancelled, peer_closed, closed_with_no_content}
use beta_boot_git_ops.Handler.{
  EventHandler, StreamState, TurnResolution, committed, fault, finalize_attempt,
}
use beta_boot_git_ops.Machine.{stream_ended}
use beta_boot_git_ops.Normalize.{SerdeJson}
use beta_boot_git_ops.Sse.{SseEvent, SseOverflow, push, finish_with_residue}
use beta_boot_git_ops.Text.{codes, contains}
use beta_boot_git_ops.Throughput.{Floats}
use beta_boot_git_ops.Base.{
  ℕ, ◌-◌, ◌^◌, ◌<◌, ◌≡◌, ◌≢◌, refl, subst, inl, inr, Bool, true, false, not, Option, none, some,
  List, [], ◌∷◌, if◌then◌else◌, Bool-cases, length, unwrap_or, Result, ok, err, Text, Bytes,
}

module _ (j : SerdeJson) (fl : Floats) (cfg : OpenAiConfig) where
  -- The end of an attempt that began in this state.
  abbrev Ended-from : Run fl.F → AttemptEnd × Run fl.F → Type 0
  Ended-from r (e, r') = Ends r.handler r.st e r'.handler r'.st

  Ended-after :
      (r r1 : Run fl.F) (x : AttemptEnd × Run fl.F)
      → RunProgress [] r r1
      → Ended-from r1 x
      → Ended-from r x
  Ended-after r r1 (e, r') p q = Ends-after e r'.handler r'.st p q

  end_wire-Ends :
      (r : Run fl.F) (cause : StreamEndCause) → IsWord r → Ended-from r (end_wire r cause)
  end_wire-Ends r cause w = Progress-tell r.handler r.st _ w (refl, refl) refl

  refuse-Ends :
      (r : Run fl.F) (cause : StreamEndCause) → IsWord r → Ended-from r (refuse j fl cfg r cause)
  unfolding refuse
  refuse-Ends r cause w = Progress-tell r.handler r.st _ w (refl, refl) refl

  wake-Ends :
      (r : Run fl.F) (arm : Text) (cause : StreamEndCause)
      → IsWord r
      → Ended-from r (end_wire (tell_wake r arm) cause)
  wake-Ends r arm cause w =
      Ended-after r (tell_wake r arm) (end_wire (tell_wake r arm) cause)
        (Progress-tell r.handler r.st _ w (refl, refl) refl)
        (end_wire-Ends (tell_wake r arm) cause w)

  tell_residue-Progress :
      (r : Run fl.F) (rest : Bytes) → IsWord r → RunProgress [] r (tell_residue j fl cfg r rest)
  unfolding tell_residue
  tell_residue-Progress r [] w = Progress-refl r.handler r.st w
  tell_residue-Progress r (b ∷ bs) w = Progress-tell r.handler r.st _ w (refl, refl) refl

  tell_no_sentinel-Judged :
      (r r' : Run fl.F) (res : TurnResolution)
      → r'.st.stream_id ≡ r.st.stream_id
      → r'.st.attempt ≡ r.st.attempt
      → Judged r.handler r.st res r'.handler r'.st
      → let x = tell_no_sentinel j fl cfg res r' in Judged r.handler r.st res x.handler x.st
  unfolding tell_no_sentinel
  tell_no_sentinel-Judged r r' (committed o) s a q = Judged-note _ (s, a) refl refl q
  tell_no_sentinel-Judged r r' (fault f) s a q = q

  settle-with :
      (cause : StreamEndCause)
      → cause ≢ cancelled
      → cause_of cause ≡ stream_ended
      → (r : Run fl.F) → IsWord r
      → let told = tell_end r cause 0 in
        let (resolution, st, h) = finalize_attempt told.handler told.st stream_ended in
        Ended-from r (
          complete resolution,
          tell_no_sentinel j fl cfg resolution (record told { st = st; handler = h }),
        )
  unfolding finalize_attempt
  settle-with cause live c r w =
      let told = tell_end r cause 0 in
      let (resolution, st, h) = finalize_attempt told.handler told.st stream_ended in
      tell_no_sentinel-Judged r (record told { st = st; handler = h }) resolution refl refl
        (subst
          (λ c.
            let x = finalize_attempt told.handler told.st c in Judged r.handler r.st x.0 x.2 x.1)
          c
          (finalize_attempt-Judged cause live (Progress-tell r.handler r.st _ w (refl, refl) refl)))

  settle-Ends : (r : Run fl.F) → IsWord r → Ended-from r (settle j fl cfg r)
  unfolding settle finalize_attempt
  settle-Ends r w = elim (Bool-cases (not r.st.saw_any_content)) [
    | inl silent ↦ rw silent (settle-with closed_with_no_content (λ e. cc) refl r w)
    | inr spoke ↦ rw spoke (settle-with peer_closed (λ e. cc) refl r w)
  ]

  close-Ends : (r : Run fl.F) → IsWord r → Ended-from r (close j fl cfg r)
  unfolding close
  close-Ends r w =
      let (tail, rest) = finish_with_residue r.parser in
      let recovered = recover_frames j r tail in
      let p : RunProgress [] r recovered = recover_frames-Progress j r tail w in
      let told = tell_residue j fl cfg recovered rest in
      let q : RunProgress [] recovered told = tell_residue-Progress recovered rest p.word in
      Ended-after r told (settle j fl cfg told) (Progress-trans p q) (settle-Ends told q.word)

  tick-Progress :
      (r : Run fl.F) (first : Option ℕ) (at active : ℕ)
      → IsWord r
      → let x = tick j fl cfg r first at active in RunProgress [] r x.1
  unfolding tick
  tick-Progress r none at active w = Progress-refl r.handler r.st w
  tick-Progress r (some first) at active w = Progress-tell r.handler r.st _ w (refl, refl) refl

  parsed-Goes :
      (r : Run fl.F) (at gap : ℕ) (x : Result (List SseEvent) SseOverflow)
      → IsWord r
      → Goes r (parsed j fl cfg r at gap x)
  unfolding parsed
  parsed-Goes r at gap (ok frames) w = handle_frames-Goes j r at gap frames w
  parsed-Goes r at gap (err o) w = end_wire-Ends r _ w

  receive-Goes :
      (r : Run fl.F) (at wall : ℕ) (chunk : Bytes)
      → IsWord r
      → Goes r (receive j fl cfg r at wall chunk)
  unfolding receive count_read
  receive-Goes r at wall chunk w =
      let counted = count_read j fl cfg r at wall (length chunk) in
      let (frames, parser) = push counted.parser chunk in
      let fresh = record counted { parser = parser } in
      Goes-after r fresh (parsed j fl cfg fresh at (at - r.last_read_at) frames)
        (Progress-count r.handler r.st _ _ w (refl, refl) refl refl refl refl refl)
        (parsed-Goes fresh at (at - r.last_read_at) frames w)

  unless_starved-Ends :
      (r : Run fl.F) (x : Bool × Run fl.F) (k : Run fl.F → AttemptEnd × Run fl.F)
      → RunProgress [] r x.1
      → ((r' : Run fl.F) → IsWord r' → Ended-from r' (k r'))
      → Ended-from r (unless_starved j fl cfg x k)
  unless_starved-Ends r (true, r') k p on =
      Ended-after r r' (end_wire r' (starvation j fl cfg)) p (end_wire-Ends r' _ p.word)
  unless_starved-Ends r (false, r') k p on = Ended-after r r' (k r') p (on r' p.word)

  or_continue-Ends :
      (r : Run fl.F) (x : Handled fl.F) (k : Run fl.F → AttemptEnd × Run fl.F)
      → Goes r x
      → ((r' : Run fl.F) → IsWord r' → Ended-from r' (k r'))
      → Ended-from r (or_continue j fl cfg x k)
  or_continue-Ends r (some e, r') k g on = g
  or_continue-Ends r (none, r') k g on = Ended-after r r' (k r') g (on r' g.word)

  read_loop-Ends : (ws : Wakes) (r : Run fl.F) → IsWord r → Ended-from r (read_loop j fl cfg ws r)
  unfolding read_loop poll
  read_loop-Ends cancels r w = wake-Ends (poll j fl cfg r) _ _ w
  read_loop-Ends overall_deadline_passes r w = wake-Ends (poll j fl cfg r) _ _ w
  read_loop-Ends stalls r w = wake-Ends (poll j fl cfg r) _ _ w
  read_loop-Ends closes r w = close-Ends (poll j fl cfg r) w
  read_loop-Ends (fails detail) r w = end_wire-Ends (poll j fl cfg r) _ w
  read_loop-Ends (ticks at active rest) r w =
      let polled = poll j fl cfg r in
      unless_starved-Ends polled (tick j fl cfg polled r.first_byte_at at active)
        (λ r'. read_loop j fl cfg rest r') (tick-Progress polled r.first_byte_at at active w)
        (λ r' w'. read_loop-Ends rest r' w')
  read_loop-Ends (receives at wall chunk rest) r w =
      let polled = poll j fl cfg r in
      or_continue-Ends polled (receive j fl cfg polled at wall chunk)
        (λ r'. read_loop j fl cfg rest r') (receive-Goes polled at wall chunk w)
        (λ r' w'. read_loop-Ends rest r' w')

  if-Ends :
      (r : Run fl.F) (b : Bool) (x y : AttemptEnd × Run fl.F)
      → Ended-from r x
      → Ended-from r y
      → Ended-from r (if b then x else y)
  if-Ends r true x y p q = p
  if-Ends r false x y p q = q

  answer-Ends : (resp : Response) (r : Run fl.F) → IsWord r → Ended-from r (answer j fl cfg resp r)
  unfolding answer
  answer-Ends resp r w = if-Ends r (not (is_success j fl cfg resp.status)) _ _ (refuse-Ends r _ w) (
      if-Ends r (not (contains (codes "text/event-stream") (unwrap_or resp.content_type []))) _ _
        (refuse-Ends r _ w) (read_loop-Ends resp.wakes r w))

  pub run_attempt-Ends :
      (reply : Reply) (h : EventHandler) (st : StreamState) (polls : ℕ)
      → st.content_bytes < 2 ^ 64
      → let (e, r) = run_attempt j fl cfg reply h st polls in Ends h st e r.handler r.st
  unfolding run_attempt start
  run_attempt-Ends cancels_first h st polls w = refuse-Ends (start j fl cfg h st polls) _ w
  run_attempt-Ends no_headers_in_time h st polls w = refuse-Ends (start j fl cfg h st polls) _ w
  run_attempt-Ends (not_sent detail) h st polls w = refuse-Ends (start j fl cfg h st polls) _ w
  run_attempt-Ends (responds resp) h st polls w = answer-Ends resp (start j fl cfg h st polls) w
