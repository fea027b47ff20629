-- ===== src/Tests/Samples.antt =====
-- Concrete parameters and inputs: a JSON parser for a few payloads, arithmetic on whole numbers in
-- place of floats, a configuration, and a stream with two reads.
use beta_boot_git_ops.Attempt.{Wakes, closes, receives, text, Reply, responds}
use beta_boot_git_ops.Config.{OpenAiConfig, from_secs}
use beta_boot_git_ops.Handler.{EventHandler, StreamState}
use beta_boot_git_ops.Machine
use beta_boot_git_ops.Normalize.{Chunk, SerdeJson}
use beta_boot_git_ops.Text.{codes, text_eq}
use beta_boot_git_ops.Throughput.{Floats}
use beta_boot_git_ops.Base.{
  ℕ, ◌+◌, ◌*◌, ◌/◌, true, false, Option, none, some, [], ◌∷◌, ltb, if◌then◌else◌, ok, err, Text,
  Bytes,
}

abbrev pub chunk : Option Text → Option Text → Chunk Text
chunk content finish_reason = record {
  choices =
      (record {
        delta = record { content = content; tool_calls = none };
        finish_reason = finish_reason;
      })
      ∷ [];
  usage = none;
  error = none;
}

-- The payload "stop" carries a finish reason, "broken" is no JSON, and every other is a delta.
abbrev pub json : SerdeJson
json = record {
  Value = Text;
  from_str = λ t.
      if text_eq t (codes "broken")
      then err (codes "expected value at line 1 column 1")
      else ok (if text_eq t (codes "stop") then chunk none (some t) else chunk (some t) none);
  show_value = λ v. v;
}

abbrev pub floats : Floats
floats = record {
  F = ℕ;
  zero_point_zero = 0;
  zero_point_six = 6;
  zero_point_four = 4;
  add = λ a b. a + b;
  mul = λ a b. a * b / 10;
  lt = ltb;
  of_u64 = λ n. n;
  to_u64 = λ x. x;
}

abbrev pub config : OpenAiConfig
config = record {
  base_url = codes "http://localhost";
  api_key = [];
  model = codes "m";
  request_usage = true;
  stall_timeout = from_secs 30;
  first_byte_backstop = from_secs 120;
  overall_deadline = from_secs 600;
  throughput_floor_bps = 1;
  throughput_sustained = from_secs 20;
  system_prompt = none;
}

abbrev pub handler : EventHandler
handler = record {
  bus = [];
  send_buckets = 2;
  retry_allowance_per_turn = 1;
  knows_failover_exists = true;
}

abbrev pub alone : EventHandler
alone = record handler { knows_failover_exists = false }

abbrev pub state : StreamState
state = record {
  stream_id = 7;
  attempt = 1;
  machine = Machine.new;
  installments = 0;
  events = 0;
  norm_errors = 0;
  reads = 0;
  content_bytes = 0;
  saw_any_content = false;
}

-- A delta that is split over two reads, a finish reason, and the sentinel.
abbrev pub first_read : Bytes
first_read = codes "data: Hel"

abbrev pub second_read : Bytes
second_read = codes "lo\n\ndata: stop\n\ndata: [DONE]\n\n"

abbrev pub good_wakes : Wakes
good_wakes = receives 1000000 5 first_read (receives 2000000 6 second_read closes)

abbrev pub response : Wakes → Reply
response wakes = responds (record {
  status = 200;
  content_type = some (codes "text/event-stream; charset=utf-8");
  body = text [];
  wakes = wakes;
})

abbrev pub good_reply : Reply
good_reply = response good_wakes
