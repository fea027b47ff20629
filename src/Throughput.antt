-- ===== src/Throughput.antt =====
-- chat2/src/openai.rs, `eval_throughput`: the guard against streams that trickle. Floating-point
-- arithmetic is a parameter: the code's literals and the operations that it uses.
pub mod Clock
use beta_boot_git_ops.Base.{
  ℕ, ◌-◌, Bool, false, ◌&&◌, Option, none, some, leb, if◌then◌else◌, unwrap_or,
}

pub record Floats : Type 1 where
  pub F : Type 0
  pub zero_point_zero : F
  pub zero_point_six : F
  pub zero_point_four : F
  pub add : F → F → F
  pub mul : F → F → F
  pub lt : F → F → Bool
  pub of_u64 : ℕ → F
  pub to_u64 : F → ℕ

module _ (fl : Floats) where
  -- The moving average after one more window.
  unfoldable pub next_ema : fl.F → ℕ → fl.F
  next_ema prev bytes =
      fl.add (fl.mul fl.zero_point_six prev) (fl.mul fl.zero_point_four (fl.of_u64 bytes))

  -- The average, whether the stream is starved, and the clock as it is left: the time since when
  -- the average has been low. Durations are in nanoseconds; their difference stops at 0.
  unfoldable pub eval_throughput : fl.F → ℕ → ℕ → Bool → Option ℕ → ℕ → ℕ → fl.F × Bool × Option ℕ
  unfolding next_ema
  eval_throughput prev_ema bytes_this_window floor_bps warmed starved_since now sustained =
      let ema = next_ema prev_ema bytes_this_window in
      let since = unwrap_or starved_since now in
      if warmed && fl.lt ema (fl.of_u64 floor_bps)
      then (ema, leb sustained (now - since), some since)
      else (ema, false, none)
