-- ===== src/UnitTests/OpenaiRs.antt =====
-- The tests of chat2/src/openai.rs, with decimal fractions in place of floating-point numbers.
use beta_boot_git_ops.Config.{from_secs}
use beta_boot_git_ops.Throughput.{Floats, eval_throughput}
use beta_boot_git_ops.Base.{
  ℕ, zero, suc, ◌+◌, ◌*◌, ◌/◌, ◌^◌, ◌≤◌, ◌≡◌, refl, Bool, true, false, Option, none, some, List, [],
  ◌∷◌, arith, ltb, is_some, All,
}

-- A number of units of ten to the minus its exponent.
pub record Decimal : Type 0 where
  pub units : ℕ
  pub exponent : ℕ

abbrev decimal_of : ℕ → ℕ → Decimal
decimal_of units exponent = record { units = units; exponent = exponent }

abbrev decimals : Floats
decimals = record {
  F = Decimal;
  zero_point_zero = decimal_of 0 0;
  zero_point_six = decimal_of 6 1;
  zero_point_four = decimal_of 4 1;
  add = λ a b.
      decimal_of (a.units * 10 ^ b.exponent + b.units * 10 ^ a.exponent) (a.exponent + b.exponent);
  mul = λ a b. decimal_of (a.units * b.units) (a.exponent + b.exponent);
  lt = λ a b. ltb (a.units * 10 ^ b.exponent) (b.units * 10 ^ a.exponent);
  of_u64 = λ n. decimal_of n 0;
  to_u64 = λ a. a.units / 10 ^ a.exponent;
}

-- The average, and the start of the starvation.
abbrev Clock : Type 0
Clock = Decimal × Option ℕ

-- One window of the tests, at a second: a floor of one byte and a sustained time of 20 seconds.
abbrev window : Clock → ℕ → Bool → ℕ → Bool × Clock
window (ema, ss) bytes warmed sec =
    let (ema', starved, ss') =
      eval_throughput decimals ema bytes 1 warmed ss (from_secs sec) (from_secs 20) in
    (starved, (ema', ss'))

-- The loop from a second on, over so many seconds: which of them starved.
unfoldable windows : Clock → ℕ → ℕ → ℕ → List (ℕ × Bool) × Clock
unfolding eval_throughput
windows c bytes sec zero = ([], c)
windows c bytes sec (suc n) =
    let (starved, c') = window c bytes true sec in
    let (rest, last) = windows c' bytes (suc sec) n in ((sec, starved) ∷ rest, last)

abbrev first_trip : List (ℕ × Bool) → Option ℕ
first_trip [] = none
first_trip ((sec, true) ∷ r) = some sec
first_trip ((sec, false) ∷ r) = first_trip r

abbrev HealthyStreamNeverStarves : Type 0
HealthyStreamNeverStarves =
    All (λ (w : ℕ × Bool). w.1 ≡ false) (windows (decimal_of 0 0, none) 50 1 30).0

none-first_trip :
    (ws : List (ℕ × Bool)) → first_trip ws ≡ none → All (λ (w : ℕ × Bool). w.1 ≡ false) ws
none-first_trip [] e = tt
none-first_trip ((sec, true) ∷ ws) e = cc
none-first_trip ((sec, false) ∷ ws) e = (refl, none-first_trip ws e)

healthy_stream_never_starves : HealthyStreamNeverStarves
unfolding windows eval_throughput
healthy_stream_never_starves = none-first_trip (windows (decimal_of 0 0, none) 50 1 30).0 refl

abbrev SustainedSilenceTripsAfterWindowNotBefore : Type 0
SustainedSilenceTripsAfterWindowNotBefore =
    (t : ℕ) × (first_trip (windows (decimal_of 100 0, none) 0 1 40).0 ≡ some t) × (20 ≤ t)

sustained_silence_trips_after_window_not_before : SustainedSilenceTripsAfterWindowNotBefore
unfolding windows eval_throughput
sustained_silence_trips_after_window_not_before = (30, refl, omega arith)

abbrev WarmupExemptsFirstSecond : Type 0
WarmupExemptsFirstSecond =
    let (starved, (ema, ss)) = window (decimal_of 0 0, none) 0 false 0 in
    (starved ≡ false) × (ss ≡ none)

warmup_exempts_first_second : WarmupExemptsFirstSecond
unfolding eval_throughput
warmup_exempts_first_second = (refl, refl)

-- Ten silent seconds arm the clock, and a healthy one disarms it.
abbrev RecoveryResetsTheClock : Type 0
RecoveryResetsTheClock =
    let (_, (ema, ss)) = windows (decimal_of 0 0, none) 0 1 10 in
    let (starved, (_, ss')) = window (ema, ss) 100 true 11 in
    (is_some ss ≡ true) × (starved ≡ false) × (ss' ≡ none)

recovery_resets_the_clock : RecoveryResetsTheClock
unfolding windows eval_throughput
recovery_resets_the_clock = (refl, refl, refl)
