-- ===== src/Config.antt =====
-- chat2/src/openai.rs, `OpenAiConfig` and how it is read from a source. Durations are in
-- nanoseconds.
pub mod Sources
use beta_boot_git_ops.Text.{codes, text_eq}
use beta_boot_git_ops.Text.Numbers.{parse_u64}
use beta_boot_git_ops.Base.{
  ◌>>=◌, ℕ, ◌*◌, ◌/◌, Bool, false, not, ◌&&◌, ◌||◌, Option, none, some, [], ◌∷◌, ◌++◌, ◌==◌,
  if◌then◌else◌, is_empty, unwrap_or, or_else, Result, ok, err, Text,
}

pub record OpenAiConfig : Type 0 where
  pub base_url : Text
  pub api_key : Text
  pub model : Text
  pub request_usage : Bool
  pub stall_timeout : ℕ
  pub first_byte_backstop : ℕ
  pub overall_deadline : ℕ
  pub throughput_floor_bps : ℕ
  pub throughput_sustained : ℕ
  pub system_prompt : Option Text

-- `Duration::from_secs`, `as_secs` and `as_millis`.
abbrev pub from_secs : ℕ → ℕ
from_secs n = n * 1000000000

abbrev pub as_secs : ℕ → ℕ
as_secs d = d / 1000000000

abbrev pub as_millis : ℕ → ℕ
as_millis d = d / 1000000

-- `trim_end_matches('/')`.
unfoldable pub trim_end_slashes : Text → Text
trim_end_slashes [] = []
trim_end_slashes (c ∷ cs) =
    let rest = trim_end_slashes cs in if is_empty rest && c == b'/' then [] else c ∷ rest

pub data ConfigError : Type 0 where
  not_set : (name : Text) → ConfigError
  must_be_integer : (name : Text) → ConfigError

-- `Option::context`.
abbrev pub context : Option Text → ConfigError → Result Text ConfigError
context none e = err e
context (some t) e = ok t

abbrev pub integer_or : Text → Option ℕ → Result ℕ ConfigError
integer_or name none = err (must_be_integer name)
integer_or name (some n) = ok n

-- The closure `secs`, on the value that was looked up.
unfoldable pub secs : Text → Option Text → ℕ → Result ℕ ConfigError
unfolding parse_u64
secs name none dflt = ok dflt
secs name (some s) dflt = integer_or name (parse_u64 s)

unfoldable pub is_off : Option Text → Bool
is_off none = false
is_off (some t) = text_eq t (codes "0") || (text_eq t (codes "false") || text_eq t (codes "no"))

module _ (get : Text → Option Text) where
  unfoldable pub secs_of : Text → ℕ → Result ℕ ConfigError
  unfolding secs
  secs_of name dflt = secs name (get name) dflt

  unfoldable pub base_url_of : Option Text → Text
  unfolding trim_end_slashes
  base_url_of url = trim_end_slashes (unwrap_or url (codes "https://api.openai.com/v1"))

  -- The configuration, once everything that can fail is at hand.
  unfoldable pub configure : Text → Text → Text → ℕ → ℕ → ℕ → ℕ → ℕ → OpenAiConfig
  unfolding base_url_of is_off
  configure prefix api_key model stall backstop overall floor sustained = record {
    base_url = base_url_of (get (prefix ++ codes "OPENAI_BASE_URL"));
    api_key = api_key;
    model = model;
    request_usage = not (is_off (get (codes "OPENAI_INCLUDE_USAGE")));
    stall_timeout = from_secs stall;
    first_byte_backstop = from_secs backstop;
    overall_deadline = from_secs overall;
    throughput_floor_bps = floor;
    throughput_sustained = from_secs sustained;
    system_prompt = get (codes "OPENAI_SYSTEM");
  }

  unfoldable pub with_numbers : (ℕ → ℕ → ℕ → ℕ → ℕ → OpenAiConfig) → Result OpenAiConfig ConfigError
  unfolding secs_of
  with_numbers config = do
    stall ← secs_of (codes "OPENAI_STALL_SECS") 30
    backstop ← secs_of (codes "OPENAI_FIRST_BYTE_BACKSTOP_SECS") 120
    overall ← secs_of (codes "OPENAI_OVERALL_DEADLINE_SECS") 600
    floor ← secs_of (codes "OPENAI_THROUGHPUT_FLOOR_BPS") 1
    sustained ← secs_of (codes "OPENAI_THROUGHPUT_SUSTAINED_SECS") 20
    ok (config stall backstop overall floor sustained)

  unfoldable pub from_source_prefixed : Text → Result OpenAiConfig ConfigError
  unfolding with_numbers configure
  from_source_prefixed prefix = do
    api_key ←
        context (or_else (get (prefix ++ codes "OPENAI_API_KEY")) (get (codes "OPENAI_API_KEY")))
          (not_set (codes "OPENAI_API_KEY"))
    model ← context (get (prefix ++ codes "OPENAI_MODEL")) (not_set (codes "OPENAI_MODEL"))
    with_numbers (configure prefix api_key model)

  unfoldable pub from_source : Result OpenAiConfig ConfigError
  unfolding from_source_prefixed
  from_source = from_source_prefixed []
