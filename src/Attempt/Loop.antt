-- ===== src/Attempt/Loop.antt =====
-- The read loop and the whole attempt.
use beta_boot_git_ops.Attempt.{
  Wakes, cancels, overall_deadline_passes, stalls, closes, fails, ticks, receives, Body, text,
  unreadable, timed_out, Response, Reply, cancels_first, no_headers_in_time, not_sent, responds,
  AttemptEnd, complete, wire_end, Run, tell_of, tell_end, end_wire, tell_wake,
}
use beta_boot_git_ops.Attempt.Frames.{Handled, handle_frames, recover_frames}
use beta_boot_git_ops.Config.{OpenAiConfig, as_secs, as_millis, from_secs}
use beta_boot_git_ops.Emission.{
  StreamEndCause, peer_closed, closed_with_no_content, stall_timeout, throughput_starved,
  overall_deadline, first_byte_backstop, transport_error, overflowed, http_error,
  not_an_event_stream, connect_error, cancelled, read, residue, wire, eof_without_done_sentinel,
  scheduler, content_throughput,
}
use beta_boot_git_ops.Handler.{
  EventHandler, StreamState, TurnResolution, committed, fault, finalize_attempt,
}
use beta_boot_git_ops.Machine.{stream_ended}
use beta_boot_git_ops.Normalize.{SerdeJson}
use beta_boot_git_ops.Sse.{
  SseEvent, SseOverflow, default_buf_limit, with_limit, push, finish_with_residue,
}
use beta_boot_git_ops.Text.{codes, contains}
use beta_boot_git_ops.Text.Utf8.{from_utf8_lossy}
use beta_boot_git_ops.Throughput.{Floats, eval_throughput}
use beta_boot_git_ops.Base.{
  ℕ, ◌+◌, ◌-◌, Bool, true, false, not, ◌&&◌, Option, none, some, List, [], ◌∷◌, ltb, leb, ◌==◌,
  if◌then◌else◌, length, take, unwrap_or, or_else, Result, ok, err, u64, Text, Bytes,
}

module _ (j : SerdeJson) (fl : Floats) (cfg : OpenAiConfig) where
  abbrev pub State : Type 0
  State = Run fl.F

  abbrev pub Ended : Type 0
  Ended = AttemptEnd × State

  -- How long the next read may take. The sum of it and the last read's time, the stall deadline, is
  -- of no use to the loop here, which is told when it stalls; Attempt.Instants has the sum, and the
  -- panic where the clock cannot hold it.
  unfoldable pub stall_window : State → ℕ
  stall_window r = if r.read_seq == 0 then cfg.first_byte_backstop else cfg.stall_timeout

  -- Behind the loop: the peer has closed the stream.
  unfoldable pub tell_residue : State → Bytes → State
  tell_residue r [] = r
  tell_residue r (b ∷ bs) =
      tell_of r (λ s a. residue s a (length (b ∷ bs)) (from_utf8_lossy (b ∷ bs)))

  unfoldable pub tell_no_sentinel : TurnResolution → State → State
  tell_no_sentinel (committed o) r = tell_of r (λ s a. wire s a eof_without_done_sentinel)
  tell_no_sentinel (fault f) r = r

  unfoldable pub settle : State → Ended
  unfolding tell_no_sentinel
  settle r =
      let cause = if not r.st.saw_any_content then closed_with_no_content else peer_closed in
      let told = tell_end r cause 0 in
      let (resolution, st, h) = finalize_attempt told.handler told.st stream_ended in
      (complete resolution, tell_no_sentinel resolution (record told { st = st; handler = h }))

  unfoldable pub close : State → Ended
  unfolding tell_residue settle
  close r =
      let (tail, rest) = finish_with_residue r.parser in
      settle (tell_residue (recover_frames j r tail) rest)

  -- A tick of the throughput clock, once a byte has come; `true` where the stream is starved.
  unfoldable pub tick : State → Option ℕ → ℕ → ℕ → Bool × State
  tick r none at active = (false, r)
  tick r (some first) at active =
      let (ema, starved, since) =
        eval_throughput fl r.ema_bps r.content_bytes_this_sec cfg.throughput_floor_bps
          (leb (from_secs 1) (at - first)) r.starved_dur at cfg.throughput_sustained in
      let counted : State = record r {
        ema_bps = ema;
        starved_dur = since;
        content_bytes_this_sec = 0;
      } in
      (starved, tell_of counted (λ s a. scheduler s a (content_throughput (fl.to_u64 ema) active)))

  unfoldable pub starvation : StreamEndCause
  starvation = throughput_starved cfg.throughput_floor_bps (as_secs cfg.throughput_sustained)

  -- The counters and the record of a read.
  unfoldable pub count_read : State → ℕ → ℕ → ℕ → State
  count_read r at wall bytes =
      let seq = u64 (r.read_seq + 1) in
      let st : StreamState = record r.st { reads = u64 (r.st.reads + 1) } in
      let counted : State = record r {
        read_seq = seq;
        st = st;
        first_byte_at = or_else r.first_byte_at (some at);
        last_read_at = at;
      } in
      tell_of counted
        (λ s a. read s a seq (as_millis at) wall bytes (as_millis (at - r.last_read_at)))

  -- What one read leads to, with the parser's answer.
  unfoldable pub parsed : State → ℕ → ℕ → Result (List SseEvent) SseOverflow → Handled fl.F
  parsed r at gap (ok frames) = handle_frames j r at gap frames
  parsed r at gap (err o) = let (e, r') = end_wire r (overflowed o.limit_bytes) in (some e, r')

  unfoldable pub receive : State → ℕ → ℕ → Bytes → Handled fl.F
  unfolding count_read parsed
  receive r at wall chunk =
      let counted = count_read r at wall (length chunk) in
      let (frames, parser) = push counted.parser chunk in
      parsed (record counted { parser = parser }) at (at - r.last_read_at) frames

  unfoldable pub poll : State → State
  poll r = record r { select_polls = u64 (r.select_polls + 1) }

  abbrev pub or_continue : Handled fl.F → (State → Ended) → Ended
  or_continue (some e, r) k = (e, r)
  or_continue (none, r) k = k r

  abbrev pub unless_starved : Bool × State → (State → Ended) → Ended
  unless_starved (true, r) k = end_wire r starvation
  unless_starved (false, r) k = k r

  -- The loop: each round polls, and does what it wakes up to.
  unfoldable pub read_loop : Wakes → State → Ended
  unfolding poll close tick receive starvation
  read_loop cancels r = end_wire (tell_wake (poll r) (codes "cancel")) cancelled
  read_loop overall_deadline_passes r =
      end_wire (tell_wake (poll r) (codes "overall_deadline"))
        (overall_deadline (as_secs cfg.overall_deadline))
  read_loop stalls r = end_wire (tell_wake (poll r) (codes "stall")) (
      if r.read_seq == 0
      then first_byte_backstop (as_secs (stall_window r))
      else stall_timeout (as_secs (stall_window r)))
  read_loop closes r = close (poll r)
  read_loop (fails detail) r = end_wire (poll r) (transport_error detail)
  read_loop (ticks at active rest) r =
      unless_starved (tick (poll r) r.first_byte_at at active) (λ r'. read_loop rest r')
  read_loop (receives at wall chunk rest) r =
      or_continue (receive (poll r) at wall chunk) (λ r'. read_loop rest r')

  -- The variables of the read loop as they start.
  unfoldable pub start : EventHandler → StreamState → ℕ → State
  start h st polls = record {
    handler = h;
    st = st;
    select_polls = polls;
    parser = with_limit default_buf_limit;
    last_read_at = 0;
    first_byte_at = none;
    read_seq = 0;
    inst_seq = 0;
    span_start = 1;
    ttft_emitted = false;
    ema_bps = fl.zero_point_zero;
    starved_dur = none;
    content_bytes_this_sec = 0;
  }

  -- The exits before there is a stream.
  unfoldable pub refuse : State → StreamEndCause → Ended
  refuse r cause = (wire_end cause, tell_end r cause 0)

  unfoldable pub body_text : Body → Text
  body_text (text t) = t
  body_text unreadable = []
  body_text timed_out = codes "(body read timed out)"

  unfoldable pub is_success : ℕ → Bool
  is_success status = leb 200 status && ltb status 300

  unfoldable pub answer : Response → State → Ended
  unfolding refuse body_text is_success contains
  answer resp r =
      let ctype = unwrap_or resp.content_type [] in
      let body = body_text resp.body in
      if not (is_success resp.status)
      then refuse r (http_error resp.status body)
      else if not (contains (codes "text/event-stream") ctype)
      then refuse r (not_an_event_stream ctype (take 400 body))
      else read_loop resp.wakes r

  unfoldable pub run_attempt : Reply → EventHandler → StreamState → ℕ → Ended
  unfolding start answer refuse
  run_attempt cancels_first h st polls = refuse (start h st polls) cancelled
  run_attempt no_headers_in_time h st polls =
      refuse (start h st polls) (first_byte_backstop (as_secs cfg.first_byte_backstop))
  run_attempt (not_sent detail) h st polls = refuse (start h st polls) (connect_error detail)
  run_attempt (responds resp) h st polls = answer resp (start h st polls)
