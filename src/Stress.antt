-- ===== src/Stress.antt =====
-- chat2/examples/stress.rs: many turns at once on one handler, and what a sink counts of them. The
-- environment, the arguments, the network and the order in which the runtime goes on with the turns
-- are arguments.

pub mod Counts
pub mod Totals
pub mod Run
use beta_boot_git_ops.Chat.{Network}
use beta_boot_git_ops.Concurrent.{Task, returns, System, Spawn, spawn_all}
use beta_boot_git_ops.Config.{OpenAiConfig, ConfigError, from_source}
use beta_boot_git_ops.Emission.{
  EmissionRecord, read, normalized_event, turn_trailer, scheduler, content_throughput, capture_drop,
}
use beta_boot_git_ops.EnvFile.{process_only, get}
use beta_boot_git_ops.Handler
use beta_boot_git_ops.Normalize.{SerdeJson}
use beta_boot_git_ops.Request.{message, request, OpenAiCompatDriver}
use beta_boot_git_ops.Request
use beta_boot_git_ops.Text.{codes, text_eq}
use beta_boot_git_ops.Text.Numbers.{parse_u64, decimal}
use beta_boot_git_ops.Throughput.{Floats}
use beta_boot_git_ops.Turn.{committed}
use beta_boot_git_ops.Base.{
  ◌>>=◌, ℕ, zero, suc, ◌+◌, false, Option, none, some, List, [], ◌∷◌, ◌++◌, ltb, if◌then◌else◌,
  get_elem?, unwrap_or, Result, ok, u32, u64, Text,
}

-- The counters are atomics of 64 bits.
pub record CountingSink : Type 0 where
  pub reads : ℕ
  pub events : ℕ
  pub trailers : ℕ
  pub max_active : ℕ
  pub drops : ℕ

abbrev pub new_sink : CountingSink
new_sink = record { reads = 0; events = 0; trailers = 0; max_active = 0; drops = 0 }

abbrev pub fetch_max : ℕ → ℕ → ℕ
fetch_max a b = if ltb a b then b else a

unfoldable pub write : CountingSink → EmissionRecord → CountingSink
write s (read _ _ _ _ _ _ _) = record s { reads = u64 (s.reads + 1) }
write s (normalized_event _ _ _ _) = record s { events = u64 (s.events + 1) }
write s (turn_trailer _ _ _ _ _ _ _ _ _ _) = record s { trailers = u64 (s.trailers + 1) }
write s (scheduler _ _ (content_throughput _ active)) = record s {
  max_active = fetch_max s.max_active active;
}
write s (capture_drop dropped) = record s { drops = dropped }
write s _ = s

unfoldable pub write_all : CountingSink → List EmissionRecord → CountingSink
unfolding write
write_all s [] = s
write_all s (r ∷ rs) = write_all (write s r) rs

-- `set_var`, over the environment as it was.
abbrev pub set_var : Text → Text → (Text → Option Text) → Text → Option Text
set_var name value env key = if text_eq name key then some value else env key

abbrev pub parsed : Option Text → Option ℕ
parsed none = none
parsed (some t) = parse_u64 t

-- The third argument is the number of turns.
unfoldable pub turns : List Text → ℕ
unfolding parse_u64
turns args = unwrap_or (parsed (get_elem? args 3)) 50

unfoldable pub environment : List Text → (Text → Option Text) → Text → Option Text
environment args env = set_var (codes "OPENAI_STALL_SECS") (codes "10") (
    set_var (codes "OPENAI_MODEL") (unwrap_or (get_elem? args 2) (codes "mock-normal")) (
      set_var (codes "OPENAI_BASE_URL")
        (unwrap_or (get_elem? args 1) (codes "http://127.0.0.1:8092"))
        (set_var (codes "OPENAI_API_KEY") (codes "stress-key") env)))

unfoldable pub config : List Text → (Text → Option Text) → Result OpenAiConfig ConfigError
unfolding environment from_source get process_only
config args env = from_source (get (environment args env) process_only)

module _ {C : Type 0} (network : Network) where
  -- `for i in 1..=n`: the streams from `first` on.
  unfoldable pub spawns : OpenAiCompatDriver C → (first count : ℕ) → List Spawn
  unfolding request
  spawns d first zero = []
  spawns d first (suc n) =
      (record {
        cfg = d.cfg;
        id = first;
        replies =
            λ k. network first k (request d.cfg (message (codes "user") (codes "hello") ∷ []));
      })
      ∷ spawns d (suc first) n

module _ {C : Type 0} (j : SerdeJson) (fl : Floats) (network : Network) where
  -- A bucket for each turn, and no allowance and no failover.
  unfoldable pub system : OpenAiCompatDriver C → ℕ → System
  unfolding spawn_all spawns Handler.new
  system d n = spawn_all j fl (Handler.new (u32 n) 0 false) (spawns network d 1 n)

  abbrev pub with_driver : ℕ → Option (OpenAiCompatDriver C) → Option System
  with_driver n none = none
  with_driver n (some d) = some (system d n)

  -- Nothing where the program panics since it has no client.
  unfoldable pub stress :
      (ℕ → Option C) → List Text → (Text → Option Text) → Result (Option System) ConfigError
  unfolding config turns system
  stress build args env = do
    cfg ← config args env
    ok (with_driver (turns args) (Request.new build cfg))

-- The turns that have returned an outcome.
abbrev pub committed_one : Task → ℕ
committed_one (returns (committed o)) = 1
committed_one _ = 0

unfoldable pub count_committed : List Task → ℕ
count_committed [] = 0
count_committed (t ∷ ts) = committed_one t + count_committed ts

-- What is printed: the turns that have committed, and what the sink has counted of the records that
-- it was handed. The time that has passed and the rate are printed floating-point numbers.
unfoldable pub aggregate : ℕ → (wall_time rate : Text) → List Task → CountingSink → List Text
unfolding decimal count_committed
aggregate n wall_time rate tasks sink =
    (codes "=== aggregate (" ++ (decimal n ++ codes " concurrent turns, current_thread) ==="))
    ∷ (codes "committed:     " ++ (decimal (count_committed tasks) ++ (codes "/" ++ decimal n)))
    ∷ (codes "wall time:     " ++ wall_time)
    ∷ (codes "throughput:    " ++ (rate ++ codes " turns/sec"))
    ∷ (codes "total reads:   " ++ decimal sink.reads)
    ∷ (codes "total events:  " ++ decimal sink.events)
    ∷ (codes "trailers:      " ++ decimal sink.trailers)
    ∷ (codes "peak active:   " ++ decimal sink.max_active)
    ∷ (codes "capture drops: " ++ decimal sink.drops)
    ∷ []
