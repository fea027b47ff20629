-- ===== src/UnitTests/EventHandlerRs.antt =====
-- The tests of chat2/src/event_handler.rs. The parser of JSON is the table of what serde_json reads
-- the payloads of the tests as.
use beta_boot_git_ops.Driver.{text_delta, finish, done}
use beta_boot_git_ops.Handler.{
  EventHandler, retry_same_endpoint, failover, acquire_send_bucket, return_send_bucket,
  on_wire_fault, new,
}
use beta_boot_git_ops.Normalize.{Choice, Chunk, SerdeJson, Normalized, normalize}
use beta_boot_git_ops.Text.{codes, text_eq}
use beta_boot_git_ops.Base.{
  ◌≡◌, refl, true, false, Option, none, some, List, [], ◌∷◌, if◌then◌else◌, ok, err, Text,
}

abbrev one_chunk : Text
one_chunk = codes "{\"choices\":[{\"delta\":{\"content\":\"hi\"},\"finish_reason\":\"stop\"}]}"

abbrev tool_calls : Text
tool_calls = codes "{\"choices\":[{\"delta\":{\"tool_calls\":[{\"index\":0}]}}]}"

abbrev two_choices : Text
two_choices =
    codes "{\"choices\":[{\"delta\":{\"content\":\"a\"}},{\"delta\":{\"content\":\"b\"}}]}"

abbrev says : Text → Option Text → Choice Text
says content finish_reason = record {
  delta = record { content = some content; tool_calls = none };
  finish_reason = finish_reason;
}

abbrev of_choices : List (Choice Text) → Chunk Text
of_choices choices = record { choices = choices; usage = none; error = none }

abbrev calls : Choice Text
calls = record {
  delta = record { content = none; tool_calls = some (codes "[{\"index\":0}]") };
  finish_reason = none;
}

abbrev json : SerdeJson
json = record {
  Value = Text;
  from_str = λ t.
      if text_eq t one_chunk
      then ok (of_choices (says (codes "hi") (some (codes "stop")) ∷ []))
      else if text_eq t tool_calls
      then ok (of_choices (calls ∷ []))
      else if text_eq t two_choices
      then ok (of_choices (says (codes "a") none ∷ says (codes "b") none ∷ []))
      else err (codes "expected value at line 1 column 1");
  show_value = λ v. v;
}

-- `new(bus, 4, 2, true)`.
abbrev silent_handler : EventHandler
silent_handler = new 4 2 true

abbrev DoneMapsToDone : Type 0
DoneMapsToDone =
    (n : Normalized) × (normalize json (codes "[DONE]") ≡ ok n) × (n.events ≡ done ∷ [])

done_maps_to_done : DoneMapsToDone
unfolding normalize
done_maps_to_done =
    (record { events = done ∷ []; unhandled_channels = []; multiple_choices = none }, refl, refl)

abbrev DeltaAndFinishInOneChunk : Type 0
DeltaAndFinishInOneChunk =
    (n : Normalized) × (normalize json one_chunk ≡ ok n)
    × (n.events ≡ text_delta (codes "hi") ∷ finish (codes "stop") ∷ [])

delta_and_finish_in_one_chunk : DeltaAndFinishInOneChunk
unfolding normalize text_eq
delta_and_finish_in_one_chunk = (
  record {
    events = text_delta (codes "hi") ∷ finish (codes "stop") ∷ [];
    unhandled_channels = [];
    multiple_choices = none;
  },
  refl,
  refl,
)

abbrev ToolCallsChannelIsSurfacedNotDropped : Type 0
ToolCallsChannelIsSurfacedNotDropped =
    (n : Normalized) × (normalize json tool_calls ≡ ok n)
    × (n.unhandled_channels ≡ codes "tool_calls" ∷ [])

tool_calls_channel_is_surfaced_not_dropped : ToolCallsChannelIsSurfacedNotDropped
unfolding normalize text_eq
tool_calls_channel_is_surfaced_not_dropped = (
  record { events = []; unhandled_channels = codes "tool_calls" ∷ []; multiple_choices = none },
  refl,
  refl,
)

abbrev MultipleChoicesFlagged : Type 0
MultipleChoicesFlagged =
    (n : Normalized) × (normalize json two_choices ≡ ok n) × (n.multiple_choices ≡ some 2)

multiple_choices_flagged : MultipleChoicesFlagged
unfolding normalize text_eq
multiple_choices_flagged = (
  record {
    events = text_delta (codes "a") ∷ text_delta (codes "b") ∷ [];
    unhandled_channels = [];
    multiple_choices = some 2;
  },
  refl,
  refl,
)

abbrev AllowanceSingleBudgetThenFailover : Type 0
AllowanceSingleBudgetThenFailover =
    let (first, rem1, h1) = on_wire_fault silent_handler 1 1 2 in
    let (second, rem2, h2) = on_wire_fault h1 1 2 rem1 in
    let (third, rem3, h3) = on_wire_fault h2 1 3 rem2 in
    (first ≡ retry_same_endpoint) × (second ≡ retry_same_endpoint) × (third ≡ failover)

allowance_single_budget_then_failover : AllowanceSingleBudgetThenFailover
unfolding on_wire_fault new
allowance_single_budget_then_failover = (refl, refl, refl)

abbrev ZeroBucketsFailFast : Type 0
ZeroBucketsFailFast =
    let (first, h1) = acquire_send_bucket (new 1 0 false) 1 1 in
    let (second, h2) = acquire_send_bucket h1 1 1 in
    let (third, h3) = acquire_send_bucket (return_send_bucket h2 1 1) 1 1 in
    (first ≡ true) × (second ≡ false) × (third ≡ true)

zero_buckets_fail_fast : ZeroBucketsFailFast
unfolding acquire_send_bucket return_send_bucket new
zero_buckets_fail_fast = (refl, refl, refl)
