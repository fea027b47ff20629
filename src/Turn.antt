-- ===== src/Turn.antt =====
-- chat2/src/openai.rs, `execute_turn`: one user turn on one endpoint, with its retries.
pub mod Verdicts
pub mod Buckets
pub mod Rounds
pub mod Loop
pub mod Completed
pub mod Outcomes
use beta_boot_git_ops.Attempt.{Reply, AttemptEnd, complete, wire_end}
use beta_boot_git_ops.Attempt.Loop.{run_attempt}
use beta_boot_git_ops.Config.{OpenAiConfig}
use beta_boot_git_ops.Driver.{
  ChatOutcome, DriverFault, stalled, buffer_overflow, protocol, show_fault,
}
use beta_boot_git_ops.Emission.{
  StreamId, EmissionRecord, capture_format_version, StreamEndCause, done_sentinel_consumed,
  peer_closed, closed_with_no_content, stall_timeout, throughput_starved, overall_deadline,
  first_byte_backstop, transport_error, handler_directed, overflowed, http_error,
  not_an_event_stream, connect_error, multiple_choices_unsupported, cancelled, TurnVerdictRecord,
  failover_directed, turn_trailer,
}
use beta_boot_git_ops.Emission
use beta_boot_git_ops.Handler.{
  FaultDirective, retry_same_endpoint, failover, give_up, EventHandler, StreamState, emit,
  begin_stream, begin_attempt, acquire_send_bucket, return_send_bucket, on_wire_fault,
}
use beta_boot_git_ops.Handler
use beta_boot_git_ops.Normalize.{SerdeJson}
use beta_boot_git_ops.Text.{codes}
use beta_boot_git_ops.Text.Numbers.{decimal}
use beta_boot_git_ops.Throughput.{Floats}
use beta_boot_git_ops.Base.{
  ℕ, zero, suc, Bool, true, false, Option, none, some, ◌++◌, if◌then◌else◌, length, Text,
}

pub data TurnVerdict : Type 0 where
  committed : ChatOutcome → TurnVerdict
  failed_over : (attempts_here : ℕ) → TurnVerdict
  failed : DriverFault → TurnVerdict

-- `{other:?}` for the causes that have no fault of their own. The directives that the program
-- names hold no character that a debug print escapes.
unfoldable pub debug_cause : StreamEndCause → Text
unfolding decimal
debug_cause done_sentinel_consumed = codes "DoneSentinelConsumed"
debug_cause peer_closed = codes "PeerClosed"
debug_cause closed_with_no_content = codes "ClosedWithNoContent"
debug_cause (multiple_choices_unsupported n) =
    codes "MultipleChoicesUnsupported { n: " ++ (decimal n ++ codes " }")
debug_cause (handler_directed d) = codes "HandlerDirected { directive: \"" ++ (d ++ codes "\" }")
debug_cause _ = codes "Cancelled"

unfoldable pub wire_fault : StreamEndCause → DriverFault
unfolding debug_cause decimal
wire_fault (stall_timeout secs) = stalled secs
wire_fault (first_byte_backstop secs) = stalled secs
wire_fault (throughput_starved floor secs) = stalled secs
wire_fault (overall_deadline secs) = stalled secs
wire_fault (overflowed limit) = buffer_overflow limit
wire_fault (http_error status body) =
    protocol (codes "HTTP " ++ (decimal status ++ (codes ": " ++ body)))
wire_fault (not_an_event_stream ctype prefix) =
    protocol (codes "not an event stream (Content-Type: " ++ (ctype ++ (codes "): " ++ prefix)))
wire_fault (connect_error detail) = protocol detail
wire_fault (transport_error detail) = protocol detail
wire_fault other = protocol (debug_cause other)

unfoldable pub is_cancelled : StreamEndCause → Bool
is_cancelled cancelled = true
is_cancelled _ = false

-- The variables of the turn's loop.
pub record Turning : Type 0 where
  pub st : StreamState
  pub handler : EventHandler
  pub select_polls : ℕ
  pub remaining_allowance : ℕ

-- No result where the fuel of the loop has run out.
abbrev pub Outcome : Type 0
Outcome = Option (TurnVerdict × Turning)

-- What the strategy directs; `f` is the fault to give up with, and `retry` the next round.
unfoldable pub obey :
    FaultDirective × ℕ × EventHandler → DriverFault → Turning → (Turning → Outcome) → Outcome
obey (retry_same_endpoint, remaining, h) f t retry =
    retry (record t { remaining_allowance = remaining; handler = h })
obey (failover, remaining, h) f t retry =
    some (failed_over t.st.attempt, record t { remaining_allowance = remaining; handler = h })
obey (give_up, remaining, h) f t retry =
    some (failed f, record t { remaining_allowance = remaining; handler = h })

unfoldable pub faulted : DriverFault → Turning → (Turning → Outcome) → Outcome
unfolding obey
faulted f t retry =
    obey (on_wire_fault t.handler t.st.stream_id t.st.attempt t.remaining_allowance) f t retry

unfoldable pub conclude : AttemptEnd → Turning → (Turning → Outcome) → Outcome
unfolding faulted is_cancelled wire_fault
conclude (complete (Handler.committed o)) t retry = some (committed o, t)
conclude (complete (Handler.fault f)) t retry = faulted f t retry
conclude (wire_end cause) t retry =
    if is_cancelled cause
    then some (failed (protocol (codes "cancelled")), t)
    else faulted (wire_fault cause) t retry

unfoldable pub no_bucket : DriverFault
no_bucket = protocol (codes "no send bucket available (admission denied)")

unfoldable pub verdict_record : TurnVerdict → TurnVerdictRecord
unfolding show_fault
verdict_record (committed o) = Emission.committed o.finish_reason (length o.content) o.usage
verdict_record (failed_over n) = failover_directed n
verdict_record (failed f) = Emission.failed (show_fault f)

-- The last record of a turn.
unfoldable pub trailer : StreamId → TurnVerdict → Turning → EmissionRecord
unfolding verdict_record
trailer id verdict t =
    turn_trailer id capture_format_version t.st.attempt (verdict_record verdict) t.st.reads
      t.st.installments t.st.events t.st.norm_errors t.select_polls (codes "full")

module _ (j : SerdeJson) (fl : Floats) (cfg : OpenAiConfig) where
  -- An attempt that has its bucket, which it gives back.
  unfoldable pub attempt_round : Reply → Turning → (Turning → Outcome) → Outcome
  unfolding conclude
  attempt_round reply t retry =
      let (end, r) = run_attempt j fl cfg reply t.handler t.st t.select_polls in
      conclude end
        (record t {
          st = r.st;
          handler = return_send_bucket r.handler t.st.stream_id t.st.attempt;
          select_polls = r.select_polls;
        })
        retry

  -- A round, with the answer to its request for a bucket.
  unfoldable pub admitted : Bool × EventHandler → Reply → Turning → (Turning → Outcome) → Outcome
  unfolding attempt_round no_bucket
  admitted (true, h) reply t retry = attempt_round reply (record t { handler = h }) retry
  admitted (false, h) reply t retry = some (failed no_bucket, record t { handler = h })

  -- The loop; `replies` are the answers to the requests, by their number.
  unfoldable pub turn_loop : ℕ → ℕ → (ℕ → Reply) → Turning → Outcome
  unfolding admitted
  turn_loop zero n replies t = none
  turn_loop (suc fuel) n replies t =
      let st = begin_attempt t.st in
      admitted (acquire_send_bucket t.handler st.stream_id st.attempt) (replies n)
        (record t { st = st }) (λ t'. turn_loop fuel (suc n) replies t')

  unfoldable pub with_trailer : StreamId → Outcome → Option (TurnVerdict × EventHandler)
  unfolding trailer
  with_trailer id none = none
  with_trailer id (some (verdict, t)) = some (verdict, emit t.handler (trailer id verdict t))

  -- A retry spends the allowance, so one more round than the allowance is fuel enough.
  unfoldable pub execute_turn :
      StreamId → (ℕ → Reply) → EventHandler → Option (TurnVerdict × EventHandler)
  unfolding turn_loop with_trailer
  execute_turn id replies h =
      let (st, h') = begin_stream h id in
      with_trailer id (
        turn_loop (suc h.retry_allowance_per_turn) 0 replies (record {
          st = st;
          handler = h';
          select_polls = 0;
          remaining_allowance = h.retry_allowance_per_turn;
        }))
