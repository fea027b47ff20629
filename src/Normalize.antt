-- ===== src/Normalize.antt =====
-- chat2/src/event_handler.rs, `normalize`: one `data` installment becomes events. JSON is parsed by
-- the crate serde_json, which is a parameter here.
pub mod Events
use beta_boot_git_ops.Text.{codes, text_eq, trim}
use beta_boot_git_ops.Driver.{DriverEvent, text_delta, finish, usage, done}
use beta_boot_git_ops.Base.{
  ℕ, Option, none, some, List, [], ◌∷◌, ◌++◌, ltb, if◌then◌else◌, length, snoc, is_empty, Result,
  ok, err, Text,
}

-- The parts of a chunk; `V` is `serde_json::Value`.
pub record Delta (V : Type 0) : Type 0 where
  pub content : Option Text
  pub tool_calls : Option V

pub record Choice (V : Type 0) : Type 0 where
  pub delta : Delta V
  pub finish_reason : Option Text

pub record TokenUsage : Type 0 where
  pub prompt_tokens : ℕ
  pub completion_tokens : ℕ
  pub total_tokens : ℕ

pub record Chunk (V : Type 0) : Type 0 where
  pub choices : List (Choice V)
  pub usage : Option TokenUsage
  pub error : Option V

-- What the program uses of serde_json: `from_str` at `Chunk`, with its error as printed, and the
-- printing of a value.
pub record SerdeJson : Type 1 where
  pub Value : Type 0
  pub from_str : Text → Result (Chunk Value) Text
  pub show_value : Value → Text

pub record Normalized : Type 0 where
  pub events : List DriverEvent
  pub unhandled_channels : List Text
  pub multiple_choices : Option ℕ

abbrev pub done_sentinel : Text
done_sentinel = codes "[DONE]"

abbrev pub tool_calls_channel : Text
tool_calls_channel = codes "tool_calls"

-- The loop's three tests on a choice, each on what the ones before have collected.
push_channel {ℓ} : {V : Type ℓ} → Option V → List Text → List Text
push_channel none unhandled = unhandled
push_channel (some v) unhandled = snoc unhandled tool_calls_channel

push_text : Option Text → List DriverEvent → List DriverEvent
push_text none events = events
push_text (some t) events = if is_empty t then events else snoc events (text_delta t)

push_finish : Option Text → List DriverEvent → List DriverEvent
push_finish none events = events
push_finish (some r) events = snoc events (finish r)

collect :
    {V : Type 0} → List (Choice V) → List DriverEvent → List Text → List DriverEvent × List Text
unfolding push_channel push_text push_finish
collect [] events unhandled = (events, unhandled)
collect (c ∷ cs) events unhandled =
    collect cs (push_finish c.finish_reason (push_text c.delta.content events))
      (push_channel c.delta.tool_calls unhandled)

push_usage : Option TokenUsage → List DriverEvent → List DriverEvent
push_usage none events = events
push_usage (some u) events = snoc events (usage u.prompt_tokens u.completion_tokens u.total_tokens)

-- A chunk that was parsed.
of_chunk : (j : SerdeJson) → Chunk j.Value → Option j.Value → Result Normalized Text
unfolding collect push_usage
of_chunk j chunk (some e) = err (codes "server error in stream: " ++ j.show_value e)
of_chunk j chunk none =
    let n = length chunk.choices in
    let (events, unhandled) = collect chunk.choices [] [] in
    ok (record {
      events = push_usage chunk.usage events;
      unhandled_channels = unhandled;
      multiple_choices = if ltb 1 n then some n else none;
    })

unfoldable pub normalize : SerdeJson → Text → Result Normalized Text
unfolding of_chunk trim text_eq
normalize j text =
    if text_eq (trim text) done_sentinel
    then ok (record { events = done ∷ []; unhandled_channels = []; multiple_choices = none })
    else elim (j.from_str text) as (λ _. Result Normalized Text) [
      | ok chunk ↦ of_chunk j chunk chunk.error
      | err e ↦ err (codes "unparseable chunk: " ++ e)
    ]
