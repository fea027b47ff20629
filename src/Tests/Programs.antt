-- ===== src/Tests/Programs.antt =====
-- Whole runs of the program.
use beta_boot_git_ops.Attempt.{not_sent}
use beta_boot_git_ops.Chat.{Network}
use beta_boot_git_ops.Config.{from_secs}
use beta_boot_git_ops.EnvFile.{process_only, get}
use beta_boot_git_ops.Main.{Environment, Started, start_with}
use beta_boot_git_ops.Main.Startup.{Starts, start_with-Starts}
use beta_boot_git_ops.Tests.Samples.{good_reply}
use beta_boot_git_ops.Text.{codes, text_eq}
use beta_boot_git_ops.Base.{
  Bool, true, ◌||◌, none, some, List, [], ◌∷◌, ◌++◌, ◌==◌, if◌then◌else◌, ok, Text,
}

abbrev is_one_of : Text → Text → Text → Bool
is_one_of t a b = text_eq t a || text_eq t b

-- The keys, the models and the number of buckets are set.
abbrev environment : Environment
environment = record {
  read_to_string = λ path. none;
  env = λ name.
      if is_one_of name (codes "OPENAI_API_KEY") (codes "OPENAI_MODEL")
      then some (codes "x")
      else if text_eq name (codes "OPENAI_SEND_BUCKETS")
      then some (codes "2")
      else if is_one_of name (codes "OPENAI_SYSTEM") (codes "OPENAI_CAPTURE_DIR")
      then some (codes "y")
      else none;
  create_capture = λ dir. ok (dir ++ codes "/capture-0.jsonl");
  channel_panics = λ n. n == 0;
}

start_with-Starts_example :
    Starts
      (get environment.env process_only)
      environment
      process_only
      (start_with environment process_only)
start_with-Starts_example = start_with-Starts environment process_only

abbrev started : Started
started = record {
  source = record { file_entries = []; origin = none };
  primary = record {
    base_url = codes "https://api.openai.com/v1";
    api_key = codes "x";
    model = codes "x";
    request_usage = true;
    stall_timeout = from_secs 30;
    first_byte_backstop = from_secs 120;
    overall_deadline = from_secs 600;
    throughput_floor_bps = 1;
    throughput_sustained = from_secs 20;
    system_prompt = some (codes "y");
  };
  failover = none;
  retry_allowance = 1;
  send_buckets = 2;
  bus_capacity = 4096;
  capture = some (codes "y/capture-0.jsonl");
}

-- The first question is answered, and the second is not.
abbrev network : Network
network id n p = if id == 1 then good_reply else not_sent (codes "connection refused")

abbrev lines : List Text
lines = codes "hi" ∷ codes "  " ∷ codes "again " ∷ codes "/quit" ∷ codes "never" ∷ []
