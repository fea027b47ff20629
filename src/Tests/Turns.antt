-- ===== src/Tests/Turns.antt =====
-- Attempts and turns.
use beta_boot_git_ops.Attempt.{Reply, not_sent, complete}
use beta_boot_git_ops.Attempt.Loop.{run_attempt, read_loop}
use beta_boot_git_ops.Attempt.Frames.{handle_frames}
use beta_boot_git_ops.Attempt.Replay.{Replays, Commits, run_attempt-Replays, run_attempt-Commits}
use beta_boot_git_ops.Driver.{ChatOutcome, protocol}
use beta_boot_git_ops.Emission.{cancelled}
use beta_boot_git_ops.Handler.{
  EventHandler, emit, acquire_send_bucket, begin_stream, on_wire_fault, return_send_bucket,
  begin_attempt, on_installment, finalize_attempt,
}
use beta_boot_git_ops.Handler
use beta_boot_git_ops.Machine.{finalize, feed}
use beta_boot_git_ops.Normalize.{normalize}
use beta_boot_git_ops.Sse.{push, with_limit}
use beta_boot_git_ops.Tests.Samples.{json, floats, config, handler, alone, state, good_reply}
use beta_boot_git_ops.Text.{codes}
use beta_boot_git_ops.Turn.{
  TurnVerdict, committed, failed_over, failed, Turning, trailer, execute_turn, no_bucket,
}
use beta_boot_git_ops.Turn.Outcomes.{
  execute_turn-returns, execute_turn-ends, execute_turn-Told, execute_turn-committed,
  execute_turn-failed_over, execute_turn-failed,
}
use beta_boot_git_ops.Turn.Verdicts.{Told, Evidence, EndsIn, NotCancelled, ends_of}
use beta_boot_git_ops.Base.{
  ◌+◌, ℕ, zero, suc, ◌≤◌, ◌≡◌, refl, ◌⊎◌, true, false, none, some, arith, unwrap_or,
}

abbrev pub hello : ChatOutcome
hello = record { content = codes "Hello"; finish_reason = codes "stop"; usage = none }

attempt_commits :
    (run_attempt json floats config good_reply handler state 0).0
    ≡ complete (Handler.committed hello)
unfolding run_attempt read_loop push with_limit handle_frames on_installment normalize
    finalize_attempt finalize feed
attempt_commits = refl

run_attempt-Replays_example :
    let (e, r) = run_attempt json floats config good_reply handler state 0 in
    Replays handler state e r.handler
run_attempt-Replays_example =
    run_attempt-Replays json floats config good_reply handler state 0 (omega arith)

run_attempt-Commits_example :
    let (e, r) = run_attempt json floats config good_reply handler state 0 in
    Commits handler state hello r.handler
run_attempt-Commits_example =
    run_attempt-Commits json floats config good_reply handler state 0 hello (omega arith) refl
      attempt_commits

-- The first request is not sent, and the second is answered.
abbrev one_retry : ℕ → Reply
one_retry zero = not_sent (codes "connection refused")
one_retry (suc n) = good_reply

abbrev no_luck : ℕ → Reply
no_luck n = not_sent (codes "connection refused")

abbrev left_by : EventHandler → (ℕ → Reply) → TurnVerdict × EventHandler
left_by h replies =
    unwrap_or {A = TurnVerdict × EventHandler} (execute_turn json floats config 7 replies h)
      (failed no_bucket, h)

turn_commits :
    execute_turn json floats config 7 one_retry handler
    ≡ some (committed hello, (left_by handler one_retry).1)
unfolding run_attempt read_loop push with_limit handle_frames on_installment normalize
    finalize_attempt finalize feed execute_turn acquire_send_bucket begin_stream on_wire_fault
    return_send_bucket begin_attempt
turn_commits = refl

turn_fails_over :
    execute_turn json floats config 7 no_luck handler
    ≡ some (failed_over 2, (left_by handler no_luck).1)
unfolding run_attempt read_loop push with_limit handle_frames on_installment normalize
    finalize_attempt finalize feed execute_turn acquire_send_bucket begin_stream on_wire_fault
    return_send_bucket begin_attempt
turn_fails_over = refl

turn_fails :
    execute_turn json floats config 7 no_luck alone
    ≡ some (failed (protocol (codes "connection refused")), (left_by alone no_luck).1)
unfolding run_attempt read_loop push with_limit handle_frames on_installment normalize
    finalize_attempt finalize feed execute_turn acquire_send_bucket begin_stream on_wire_fault
    return_send_bucket begin_attempt
turn_fails = refl

execute_turn-returns_example :
    (x : TurnVerdict × Turning) × (execute_turn json floats config 7 one_retry handler
      ≡ some (x.0, emit x.1.handler (trailer 7 x.0 x.1)))
    × (x.1.handler.send_buckets ≡ 2)
    × (1 ≤ x.1.st.attempt)
    × (x.1.st.attempt ≤ 2)
execute_turn-returns_example =
    execute_turn-returns json floats config 7 one_retry handler (omega arith) (omega arith)

execute_turn-Told_example :
    (t : Turning) × Told 7 handler t.handler
    × ((left_by handler one_retry).1 ≡ emit t.handler (trailer 7 (committed hello) t))
execute_turn-Told_example =
    execute_turn-Told json floats config 7 one_retry handler (left_by handler one_retry).1
      (committed hello) (omega arith) (omega arith) turn_commits

execute_turn-committed_example :
    (a : ℕ) × (1 ≤ a) × (a ≤ 2) × Evidence hello 7 a (left_by handler one_retry).1.bus
execute_turn-committed_example =
    execute_turn-committed json floats config 7 one_retry handler (left_by handler one_retry).1
      hello (omega arith) (omega arith) turn_commits

execute_turn-failed_over_example : (◌≡◌ {A = ℕ} 2 2) × (handler.knows_failover_exists ≡ true)
execute_turn-failed_over_example =
    execute_turn-failed_over json floats config 7 no_luck handler (left_by handler no_luck).1 2
      (omega arith) (omega arith) turn_fails_over

execute_turn-failed_example :
    let f = protocol (codes "connection refused") in
    ((f ≡ no_bucket) × (alone.send_buckets ≡ 0))
    ⊎ (((f ≡ protocol (codes "cancelled")) × EndsIn cancelled (left_by alone no_luck).1)
        ⊎ (((t : Turning) × ((left_by alone no_luck).1 ≡ emit t.handler (trailer 7 (failed f) t))
              × (t.st.attempt ≡ 2))
            × (alone.knows_failover_exists ≡ false)
            × NotCancelled (left_by alone no_luck).1))
execute_turn-failed_example =
    execute_turn-failed json floats config 7 no_luck alone (left_by alone no_luck).1
      (protocol (codes "connection refused")) (omega arith) (omega arith) turn_fails

-- Two attempts, and two ends told.
execute_turn-ends_example :
    (t : Turning) × ((left_by handler one_retry).1 ≡ emit t.handler (trailer 7 (committed hello) t))
    × ((ends_of (left_by handler one_retry).1 ≡ ends_of handler + t.st.attempt)
        ⊎ ((committed hello ≡ failed no_bucket)
            × (suc (ends_of (left_by handler one_retry).1) ≡ ends_of handler + t.st.attempt)))
execute_turn-ends_example =
    execute_turn-ends json floats config 7 one_retry handler (left_by handler one_retry).1
      (committed hello) (omega arith) (omega arith) turn_commits
