-- ===== src/Tests/Concurrency.antt =====
-- Turns beside each other, and the stress run.
use beta_boot_git_ops.Attempt.{not_sent, Reply, receives, ticks, closes}
use beta_boot_git_ops.Attempt.Gauge.{reply_without, without_gauge}
use beta_boot_git_ops.Attempt.Frames.{handle_frames}
use beta_boot_git_ops.Attempt.Loop.{run_attempt, read_loop}
use beta_boot_git_ops.Chat.{Network}
use beta_boot_git_ops.Concurrent.{Task, returns, System, run, Spawn, task_of, spawn_all}
use beta_boot_git_ops.Concurrent.Endings.{run-Stage}
use beta_boot_git_ops.Concurrent.Together.{AgreesWith, run-Agrees, run-Completes}
use beta_boot_git_ops.Concurrent.WaitFree.{work, count}
use beta_boot_git_ops.Throughput.{eval_throughput}
use beta_boot_git_ops.Concurrent.Trailers.{verdicts_in, IsPending}
use beta_boot_git_ops.Handler.{begin_attempt, on_installment, finalize_attempt}
use beta_boot_git_ops.Machine.{feed, finalize}
use beta_boot_git_ops.Normalize.{normalize}
use beta_boot_git_ops.Sse.{push, with_limit}
use beta_boot_git_ops.Request.{OpenAiCompatDriver}
use beta_boot_git_ops.Stress.{system, spawns, write_all, new_sink, count_committed}
use beta_boot_git_ops.Stress.Run.{Totals, system-Totals}
use beta_boot_git_ops.Tests.Samples.{
  json, floats, config, handler, good_reply, response, first_read, second_read,
}
use beta_boot_git_ops.Tests.Turns.{hello}
use beta_boot_git_ops.Text.{codes}
use beta_boot_git_ops.Turn.{TurnVerdict, committed, failed, no_bucket, verdict_record}
use beta_boot_git_ops.Base.{
  ℕ, zero, suc, ◌≤◌, ◌≡◌, refl, ◌⊎◌, some, List, [], ◌∷◌, arith, get_elem?, unwrap_or,
}

-- A turn whose first request is answered, and one with no luck.
abbrev lucky : Spawn
lucky = record { cfg = config; id = 1; replies = λ n. good_reply }

abbrev unlucky : Spawn
unlucky = record { cfg = config; id = 2; replies = λ n. not_sent (codes "connection refused") }

abbrev both : List Spawn
both = lucky ∷ unlucky ∷ []

-- By turns, `n` times each.
abbrev in_turns : ℕ → List ℕ
in_turns zero = []
in_turns (suc n) = 0 ∷ 1 ∷ in_turns n

abbrev after_all : System
after_all = run (in_turns 40) (spawn_all json floats handler both)

lucky_commits : get_elem? after_all.tasks 0 ≡ some (returns (committed hello))
unfolding run spawn_all run_attempt read_loop push with_limit handle_frames on_installment normalize
    finalize_attempt finalize feed begin_attempt
lucky_commits = refl

-- The answer behind a tick: beside the other turn the gauge reads 2, and alone 1.
abbrev ticking : ℕ → Reply
ticking active = response (
    receives 1000000 5 first_read
      (ticks 1000000000 active (receives 2000000000 6 second_read closes)))

abbrev ticked : Spawn
ticked = record { cfg = config; id = 1; replies = λ n. ticking 2 }

abbrev together : System
together = run (in_turns 60) (spawn_all json floats handler (ticked ∷ unlucky ∷ []))

ticked_returns : get_elem? together.tasks 0 ≡ some (returns (committed hello))
unfolding run spawn_all run_attempt read_loop push with_limit handle_frames on_installment normalize
    finalize_attempt finalize feed begin_attempt eval_throughput
ticked_returns = refl

run-Agrees_example :
    AgreesWith json floats handler together.handler ticked (λ n. ticking 1) (committed hello)
run-Agrees_example =
    run-Agrees json floats handler (ticked ∷ unlucky ∷ []) (in_turns 60) 0 ticked (λ n. ticking 1)
      (committed hello) ((λ e. omega arith, tt), (tt, tt)) (omega arith) (omega arith) refl
      (λ n. unfold reply_without without_gauge in refl) ticked_returns

enough_moves : work (task_of json floats handler unlucky) ≤ count 1 (in_turns 60)
unfolding work task_of run_attempt begin_attempt
enough_moves = omega arith

run-Completes_example :
    (v : TurnVerdict) × (get_elem? together.tasks 1 ≡ some (returns v))
    × AgreesWith json floats handler together.handler unlucky unlucky.replies v
run-Completes_example =
    run-Completes json floats handler (ticked ∷ unlucky ∷ []) (in_turns 60) 1 unlucky
      unlucky.replies ((λ e. omega arith, tt), (tt, tt)) (omega arith) (omega arith) refl
      (λ n. refl) enough_moves

-- The other turn has not got to its trailer yet.
abbrev halfway : System
halfway = run (in_turns 10) (spawn_all json floats handler both)

abbrev waiting : Task
waiting = unwrap_or (get_elem? halfway.tasks 1) (returns (failed no_bucket))

halfway_waits : get_elem? halfway.tasks 1 ≡ some waiting
unfolding run spawn_all run_attempt read_loop push with_limit handle_frames on_installment normalize
    finalize_attempt finalize feed begin_attempt
halfway_waits = refl

run-Stage_example :
    (IsPending 2 waiting × (verdicts_in 2 halfway.handler.bus ≡ []))
    ⊎ ((v : TurnVerdict) × (waiting ≡ returns v)
        × (verdicts_in 2 halfway.handler.bus ≡ verdict_record v ∷ []))
unfolding verdicts_in
run-Stage_example =
    run-Stage json floats handler both (in_turns 10) 1 unlucky waiting
      ((λ e. omega arith, tt), (tt, tt)) refl refl halfway_waits

-- Every request is answered.
abbrev network : Network
network stream n post = good_reply

abbrev driver : OpenAiCompatDriver Unit
driver = record { client = tt; cfg = config }

abbrev stressed : System
stressed = run (in_turns 40) (system json floats network driver 2)

all_commit :
    (get_elem? stressed.tasks 0 ≡ some (returns (committed hello)))
    × (get_elem? stressed.tasks 1 ≡ some (returns (committed hello)))
unfolding run system run_attempt read_loop push with_limit handle_frames on_installment normalize
    finalize_attempt finalize feed begin_attempt
all_commit = (refl, refl)

system-Totals_example : Totals json floats (spawns network driver 1 2) 2 stressed
unfolding run system run_attempt read_loop push with_limit handle_frames on_installment normalize
    finalize_attempt finalize feed begin_attempt
system-Totals_example =
    system-Totals json floats network driver 2 (in_turns 40) (omega arith) (omega arith)
      ((committed hello, refl), ((committed hello, refl), tt))

counted :
    let sink = write_all new_sink stressed.handler.bus in
    (count_committed stressed.tasks ≡ 2)
    × (sink.reads ≡ 4)
    × (sink.events ≡ 6)
    × (sink.trailers ≡ 2)
unfolding run system run_attempt read_loop push with_limit handle_frames on_installment normalize
    finalize_attempt finalize feed begin_attempt write_all count_committed
counted = (refl, refl, refl, refl)
