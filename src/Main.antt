-- ===== src/Main.antt =====
-- chat2/src/main.rs: from the arguments to the first prompt. The file system,
-- the process environment, the opening of a capture and tokio's channel are arguments.
pub mod Startup
pub mod Bounds
pub mod Loop
pub mod Dialogue
pub mod Runs
use beta_boot_git_ops.Chat.{Session, begin}
use beta_boot_git_ops.Config.{OpenAiConfig, ConfigError, from_source, from_source_prefixed}
use beta_boot_git_ops.EnvFile.{EnvSource, process_only, LoadError, from_file, get}
use beta_boot_git_ops.Ports.{Screen, eprintln}
use beta_boot_git_ops.Text.{codes, text_eq}
use beta_boot_git_ops.Text.Numbers.{decimal, parse_u64}
use mathlib.Core.Option
use beta_boot_git_ops.Base.{
  ℕ, ◌/◌, ◌^◌, Bool, true, false, ◌||◌, Option, none, some, List, [], ◌∷◌, ◌++◌, map, ltb,
  if◌then◌else◌, is_some, unwrap_or, Result, ok, err, ◌>>=◌, Text,
}

pub record Environment : Type 0 where
  -- `std::fs::read_to_string`, where it succeeds.
  pub read_to_string : Text → Option Text
  -- `std::env::var`, where it succeeds.
  pub env : Text → Option Text
  -- `CaptureSink::create`: the path of the new file, or the error's text.
  pub create_capture : Text → Result Text Text
  -- `mpsc::channel` panics at this capacity.
  pub channel_panics : ℕ → Bool

-- Why the program ends before its first prompt, in the order of `main`.
pub data StartError : Type 0 where
  bad_env_file : LoadError → StartError
  bad_config : ConfigError → StartError
  -- `parse` of this text.
  not_a_number : (value : Text) → StartError
  no_capture : (detail : Text) → StartError
  panics_at_capacity : ℕ → StartError

-- The variables of `main` once all is read.
pub record Started : Type 0 where
  pub source : EnvSource
  pub primary : OpenAiConfig
  pub failover : Option OpenAiConfig
  pub retry_allowance : ℕ
  pub send_buckets : ℕ
  pub bus_capacity : ℕ
  -- The file of the capture, where there is one.
  pub capture : Option Text

abbrev pub below_u32 : Option ℕ → Option ℕ
below_u32 none = none
below_u32 (some n) = if ltb n (2 ^ 32) then some n else none

-- `str::parse` at `u32`; that at `usize` is the one at `u64`.
unfoldable pub parse_u32 : Text → Option ℕ
unfolding parse_u64
parse_u32 t = below_u32 (parse_u64 t)

abbrev pub number_of : Text → Option ℕ → Result ℕ StartError
number_of s none = err (not_a_number s)
number_of s (some n) = ok n

-- `s.map(|s| s.parse()).transpose()?.unwrap_or(dflt)`.
unfoldable pub number_or : (Text → Option ℕ) → Option Text → ℕ → Result ℕ StartError
number_or parse none dflt = ok dflt
number_or parse (some s) dflt = number_of s (parse s)

abbrev pub or_refuse {ℓ κ} :
    {A : Type ℓ} {E : Type κ} → (E → StartError) → Result A E → Result A StartError
or_refuse why (ok a) = ok a
or_refuse why (err e) = err (why e)

abbrev pub present {ℓ κ} : {A : Type ℓ} {E : Type κ} → Result A E → Result (Option A) E
present (ok a) = ok (some a)
present (err e) = err e

unfoldable pub capture_of :
    (Text → Result Text Text) → Option Text → Result (Option Text) StartError
capture_of create none = ok none
capture_of create (some dir) = present (or_refuse no_capture (create dir))

unfoldable pub failover_of :
    (Text → Option Text) → Option Text → Result (Option OpenAiConfig) StartError
unfolding from_source_prefixed
failover_of look none = ok none
failover_of look (some url) =
    present (or_refuse bad_config (from_source_prefixed look (codes "FAILOVER_")))

-- `EmissionBus::spawn`.
unfoldable pub open_bus : Bool → Started → Result Started StartError
open_bus true s = err (panics_at_capacity s.bus_capacity)
open_bus false s = ok s

module _ (w : Environment) where
  -- `OpenAiConfig`s, numbers, sinks and bus, once there is a source.
  unfoldable pub start_with : EnvSource → Result Started StartError
  unfolding open_bus get from_source parse_u32 number_or capture_of failover_of
  start_with source = do
    primary ← or_refuse bad_config (from_source (get w.env source))
    failover ← failover_of (get w.env source) (get w.env source (codes "FAILOVER_OPENAI_BASE_URL"))
    retry_allowance ← number_or parse_u32 (get w.env source (codes "OPENAI_RETRY_ALLOWANCE")) 1
    send_buckets ← number_or parse_u32 (get w.env source (codes "OPENAI_SEND_BUCKETS")) 1
    bus_capacity ← number_or parse_u64 (get w.env source (codes "OPENAI_BUS_CAPACITY")) 4096
    capture ← capture_of w.create_capture (get w.env source (codes "OPENAI_CAPTURE_DIR"))
    open_bus (w.channel_panics bus_capacity) (record {
      source = source;
      primary = primary;
      failover = failover;
      retry_allowance = retry_allowance;
      send_buckets = send_buckets;
      bus_capacity = bus_capacity;
      capture = capture;
    })

  unfoldable pub is_help : Text → Bool
  is_help f = text_eq f (codes "-h") || text_eq f (codes "--help")

  -- The first argument behind the program's name; `none` is the end after the help.
  unfoldable pub start : List Text → Option (Result Started StartError)
  unfolding start_with process_only from_file is_help
  start [] = some (start_with process_only)
  start (f ∷ args) =
      if is_help f
      then none
      else some (or_refuse bad_env_file (from_file f (w.read_to_string f)) >>= start_with)

abbrev pub recording : Option Text → Screen
recording none = record { stdout = []; stderr = [] }
recording (some path) = record {
  stdout = [];
  stderr = (codes "[CAPTURE] recording to " ++ path) ∷ [];
}

-- The first lines on the terminal, and the variables of the loop.
unfoldable pub banner : Started → Text
unfolding decimal
banner s =
    codes "rar-chat — endpoint "
    ++ (s.primary.base_url
        ++ (codes " | model "
            ++ (s.primary.model
                ++ (codes " | failover "
                    ++ (unwrap_or (Option.map (λ (c : OpenAiConfig). c.base_url) s.failover)
                          (codes "(none)")
                        ++ (codes " | buckets "
                            ++ (decimal s.send_buckets
                                ++ (codes " | config "
                                    ++ unwrap_or s.source.origin
                                        (codes "(process environment)")))))))))

unfoldable pub first_screen : Started → Screen
unfolding banner
first_screen s =
    eprintln (eprintln (recording s.capture) (banner s))
      (codes "commands: /quit  /reset (Ctrl-D also quits)")

unfoldable pub session_of : Started → Session
unfolding begin first_screen
session_of s =
    begin s.primary.system_prompt s.send_buckets s.retry_allowance (is_some s.failover)
      (first_screen s)

unfoldable pub print_help : Screen
print_help = record {
  stdout = [];
  stderr =
      codes "usage: rar-chat [ENV_FILE]"
      ∷ codes
          "  wire:     OPENAI_API_KEY (req), OPENAI_MODEL (req), OPENAI_BASE_URL, OPENAI_SYSTEM, OPENAI_INCLUDE_USAGE"
      ∷ codes
          "  clocks:   OPENAI_STALL_SECS, OPENAI_FIRST_BYTE_BACKSTOP_SECS, OPENAI_OVERALL_DEADLINE_SECS,"
      ∷ codes "            OPENAI_THROUGHPUT_FLOOR_BPS, OPENAI_THROUGHPUT_SUSTAINED_SECS"
      ∷ codes "  strategy: OPENAI_RETRY_ALLOWANCE, OPENAI_SEND_BUCKETS, OPENAI_BUS_CAPACITY"
      ∷ codes "  capture:  OPENAI_CAPTURE_DIR"
      ∷ codes "  failover: FAILOVER_OPENAI_BASE_URL / _MODEL / _API_KEY"
      ∷ [];
}
