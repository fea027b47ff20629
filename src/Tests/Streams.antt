-- ===== src/Tests/Streams.antt =====
-- The machine, the bus, the handler and the clock.
use beta_boot_git_ops.Driver.{DriverEvent, text_delta, finish, usage, done}
use beta_boot_git_ops.Emission.{EmissionRecord, anomaly, data_kind}
use beta_boot_git_ops.Emission
use beta_boot_git_ops.Emission.Bus.{spawn, Action, emits, receives, reports, run}
use beta_boot_git_ops.Emission.Bus.Delivery.{Keeps, emitted, run-Keeps}
use beta_boot_git_ops.Emission.Bus.Held.{is_own}
use beta_boot_git_ops.Handler.{on_installment, acquire_send_bucket, return_send_bucket}
use beta_boot_git_ops.Handler.Admission.{
  Pool, ask, give_back, Reach, here, next, total, Reach-total,
}
use beta_boot_git_ops.Handler.Installment.{Refines, on_installment-Refines}
use beta_boot_git_ops.Machine.{stream_ended, new, feed_all, finalize}
use beta_boot_git_ops.Machine.Verdict.{finalize-feed_all}
use beta_boot_git_ops.Tests.Samples.{json, floats, handler, state}
use beta_boot_git_ops.Text.{codes}
use beta_boot_git_ops.Throughput.{eval_throughput}
use beta_boot_git_ops.Throughput.Clock.{Tick, trip, LowRun, trip-LowRun}
use beta_boot_git_ops.Base.{
  ℕ, ◌≤◌, ◌≡◌, refl, true, none, some, List, [], ◌∷◌, arith, length, snoc, ok,
}

abbrev late : List DriverEvent
late =
    text_delta (codes "a")
    ∷ done
    ∷ finish (codes "stop")
    ∷ text_delta (codes "b")
    ∷ usage 1 2 3
    ∷ finish (codes "length")
    ∷ []

finalize-feed_all_example :
    finalize (feed_all new late) stream_ended
    ≡ ok (record { content = codes "ab"; finish_reason = codes "stop"; usage = some (1, 2, 3) })
finalize-feed_all_example = finalize-feed_all late stream_ended

-- A bus for one record, which loses the second of two.
abbrev actions : List Action
actions =
    emits 3 (anomaly 7 1 (codes "a")) ∷ emits 4 (anomaly 7 1 (codes "b")) ∷ receives ∷ reports ∷ []

run-Keeps_example : Keeps 1 (emitted actions) (run (spawn 1) actions)
unfolding is_own
run-Keeps_example = run-Keeps 1 actions (refl, (refl, tt))

on_installment-Refines_example :
    Refines json handler state 1 data_kind
      (codes "hi")
      (on_installment json handler state 1 data_kind (codes "hi") Emission.complete)
on_installment-Refines_example =
    on_installment-Refines json handler state 1 (omega arith) data_kind (codes "hi")
      Emission.complete

-- Two streams, of which the first gives its bucket back.
abbrev pool : Pool
pool = record { handler = handler; in_flight = [] }

abbrev asked : Pool
asked = record { handler = (acquire_send_bucket handler 7 1).1; in_flight = (7, 1) ∷ [] }

abbrev gave_back : Pool
gave_back = record { handler = return_send_bucket asked.handler 7 1; in_flight = [] }

one_round : Reach pool gave_back
unfolding acquire_send_bucket
one_round = next (next here (ask pool 7 1)) (give_back asked 7 1 [] [] refl)

Reach-total_example : (total gave_back ≡ 2) × (length gave_back.in_flight ≤ 2)
Reach-total_example = Reach-total refl (omega arith) one_round

-- Silence from the second second on, under a guard of two seconds.
abbrev tick : ℕ → ℕ → Tick
tick at bytes = record { at = at; bytes = bytes; warmed = true }

abbrev ticks : List Tick
ticks = tick 1 10 ∷ tick 2 0 ∷ tick 3 0 ∷ tick 4 0 ∷ tick 5 0 ∷ []

not_yet : trip floats 1 2 0 none ticks ≡ none
unfolding trip eval_throughput
not_yet = refl

now_starved : trip floats 1 2 0 none (snoc ticks (tick 6 0)) ≡ some (ticks, tick 6 0)
unfolding trip eval_throughput
now_starved = refl

trip-LowRun_example : LowRun floats 1 2 0 (snoc ticks (tick 6 0)) (tick 6 0)
trip-LowRun_example = trip-LowRun floats 1 2 0 (snoc ticks (tick 6 0)) ticks (tick 6 0) now_starved
