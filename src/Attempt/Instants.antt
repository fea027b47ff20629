-- ===== src/Attempt/Instants.antt =====
-- chat2/src/openai.rs, the read loop on a clock with a last instant: the sum of the last read's time
-- and the stall window, which each round takes, panics behind it. Times are in nanoseconds from the
-- start of the stream.
pub mod Fits
use beta_boot_git_ops.Attempt.{Wakes, ticks, receives, Reply, responds, Response, Run}
use beta_boot_git_ops.Attempt.Clocks.Frames.{handle_frames-Keeps}
use beta_boot_git_ops.Attempt.Frames.{Handled, handle_frames}
use beta_boot_git_ops.Attempt.Locality.{on, handled_on, handle_frames-on}
use beta_boot_git_ops.Attempt.Loop.{
  Ended, stall_window, tick, count_read, parsed, receive, poll, starvation, or_continue,
  unless_starved, read_loop, start, answer, run_attempt, is_success,
}
use beta_boot_git_ops.Attempt.{end_wire}
use beta_boot_git_ops.Config.{OpenAiConfig}
use beta_boot_git_ops.Handler.{EventHandler, StreamState}
use beta_boot_git_ops.Normalize.{SerdeJson}
use beta_boot_git_ops.Sse.{SseEvent, SseOverflow, push}
use beta_boot_git_ops.Text.{codes, contains}
use beta_boot_git_ops.Throughput.{Floats}
use beta_boot_git_ops.Base.{
  ℕ, ◌+◌, ◌-◌, ◌≤◌, ◌≡◌, refl, sym, ap, ◌∙◌, subst, inl, inr, Bool, true, false, not, ◌||◌, Option,
  none, some, List, [], ◌∷◌, append-nil, arith, leb, le→leb, ◌==◌, length, if◌then◌else◌,
  Bool-cases, unwrap_or, Result, ok, err, Bytes,
}

module _ (j : SerdeJson) (fl : Floats) (cfg : OpenAiConfig) (latest : ℕ) where
  -- `Instant + Duration`: nothing where the clock cannot hold the sum, and the program panics.
  unfoldable pub add_duration : ℕ → ℕ → Option ℕ
  add_duration t d = if leb (t + d) latest then some (t + d) else none

  unfoldable pub stall_deadline : Run fl.F → Option ℕ
  unfolding add_duration stall_window
  stall_deadline r = add_duration r.last_read_at (stall_window j fl cfg r)

  -- A round, once the deadline has been computed.
  abbrev pub with_deadline : Option ℕ → Option (Ended j fl cfg) → Option (Ended j fl cfg)
  with_deadline none x = none
  with_deadline (some t) x = x

  abbrev pub go_on_checked :
      Handled fl.F → (Run fl.F → Option (Ended j fl cfg)) → Option (Ended j fl cfg)
  go_on_checked (some e, r) k = some (e, r)
  go_on_checked (none, r) k = k r

  abbrev pub starved_checked :
      Bool × Run fl.F → (Run fl.F → Option (Ended j fl cfg)) → Option (Ended j fl cfg)
  starved_checked (true, r) k = some (end_wire r (starvation j fl cfg))
  starved_checked (false, r) k = k r

  -- The loop with the panic: each round computes the deadline first.
  unfoldable pub checked_loop : Wakes → Run fl.F → Option (Ended j fl cfg)
  unfolding stall_deadline read_loop
  checked_loop (ticks at active rest) r = with_deadline (stall_deadline r) (
      starved_checked (tick j fl cfg (poll j fl cfg r) r.first_byte_at at active)
        (λ r'. checked_loop rest r'))
  checked_loop (receives at wall chunk rest) r = with_deadline (stall_deadline r) (
      go_on_checked (receive j fl cfg (poll j fl cfg r) at wall chunk) (λ r'. checked_loop rest r'))
  checked_loop ws r = with_deadline (stall_deadline r) (some (read_loop j fl cfg ws r))

  unfoldable pub checked_answer : Response → Run fl.F → Option (Ended j fl cfg)
  unfolding checked_loop answer is_success contains
  checked_answer resp r =
      if not (is_success j fl cfg resp.status)
        || not (contains (codes "text/event-stream") (unwrap_or resp.content_type []))
      then some (answer j fl cfg resp r)
      else checked_loop resp.wakes r

  unfoldable pub checked_attempt : Reply → EventHandler → StreamState → ℕ → Option (Ended j fl cfg)
  unfolding checked_answer run_attempt start
  checked_attempt (responds resp) h st polls = checked_answer resp (start j fl cfg h st polls)
  checked_attempt reply h st polls = some (run_attempt j fl cfg reply h st polls)
