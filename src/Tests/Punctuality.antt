-- ===== src/Tests/Punctuality.antt =====
-- The read loop on punctual clocks.
use beta_boot_git_ops.Attempt.{
  Wakes, overall_deadline_passes, stalls, receives, ticks, text, Response, responds,
}
use beta_boot_git_ops.Attempt.Clocks.{World, chunk, start_clocks, select}
use beta_boot_git_ops.Attempt.Clocks.Bounds.{IsSpaced}
use beta_boot_git_ops.Attempt.Clocks.Frames.{ArePunctual}
use beta_boot_git_ops.Attempt.Clocks.Punctual.{run_attempt-Punctual}
use beta_boot_git_ops.Attempt.Instants.{
  add_duration, stall_deadline, checked_loop, checked_answer, checked_attempt,
}
use beta_boot_git_ops.Attempt.Loop.{run_attempt}
use beta_boot_git_ops.Config.{OpenAiConfig, from_secs}
use beta_boot_git_ops.Tests.Samples.{json, floats, config, handler, state, first_read, good_reply}
use beta_boot_git_ops.Text.{codes}
use beta_boot_git_ops.Base.{ℕ, ◌^◌, ◌-◌, ◌≡◌, refl, none, some, [], arith, ◌==◌, if◌then◌else◌}

-- A peer that sends for ever, with this time between two items.
abbrev endless : ℕ → World
endless gap = record {
  item = λ k. chunk 0 first_read;
  gap = λ k. some gap;
  cancelled_at = none;
  active = λ n. 1;
  polls_first = λ n. n;
}

-- A peer that falls silent behind its first item.
abbrev silent_after_one : World
silent_after_one = record (endless 2) { gap = λ k. if k == 0 then some 2 else none }

abbrev hurried : OpenAiConfig
hurried = record config { overall_deadline = 9; stall_timeout = 4; first_byte_backstop = 5 }

-- The third item and the deadline are ready at once, and the item is polled first.
endless_meets_the_deadline :
    select hurried (endless 3) 20 0 (start_clocks (endless 3))
    ≡ some (
        ticks 0 1 (
          receives 3 0 first_read
            (receives 6 0 first_read (receives 9 0 first_read overall_deadline_passes))))
unfolding select start_clocks
endless_meets_the_deadline = refl

silent_stalls :
    select hurried silent_after_one 20 0 (start_clocks silent_after_one)
    ≡ some (ticks 0 1 (receives 2 0 first_read stalls))
unfolding select start_clocks
silent_stalls = refl

abbrev stream : Response
stream = record {
  status = 200;
  content_type = some (codes "text/event-stream");
  body = text [];
  wakes = stalls;
}

abbrev each_second : World
each_second = endless 1000000000

each_second-IsSpaced : IsSpaced config each_second
each_second-IsSpaced k x e = ground arith

run_attempt-Punctual_example :
    (ws : Wakes) × (select config each_second 1200000000003 0 (start_clocks each_second) ≡ some ws)
    × ArePunctual config
        (run_attempt json floats config
          (responds (record stream { wakes = ws }))
          handler
          state
          0).1.handler
run_attempt-Punctual_example =
    run_attempt-Punctual json floats config each_second stream handler state 0 1200000000003
      each_second-IsSpaced (omega arith) tt

-- A clock with 2^63 seconds.
abbrev last_instant : ℕ
last_instant = from_secs (2 ^ 63)

-- The greatest setting that is read without an error.
abbrev patient : OpenAiConfig
patient = record config { first_byte_backstop = from_secs (2 ^ 64 - 1) }

the_clock_ends : checked_attempt json floats patient last_instant good_reply handler state 0 ≡ none
unfolding checked_attempt checked_answer checked_loop stall_deadline add_duration
the_clock_ends = refl
