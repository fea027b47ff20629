-- ===== src/Handler.antt =====
-- chat2/src/event_handler.rs, the component: per-stream state, the strategy counters, and the
-- refinement of installments. The bus stands for the records handed to `emit`, in order (what the
-- bus makes of them is Emission/Bus); the send buckets are the one atomic that streams share.
pub mod Installment
pub mod Admission
use beta_boot_git_ops.Text.{codes}
use beta_boot_git_ops.Text.Numbers.{decimal}
use beta_boot_git_ops.Text.Utf8.{byte_len}
use beta_boot_git_ops.Driver.{DriverEvent, text_delta, done, ChatOutcome, DriverFault, protocol}
use beta_boot_git_ops.Emission.{
  StreamId, EmissionRecord, normalized_event, normalization_error, wire, ledger, anomaly,
  InstallmentKind, data_kind, comment_kind, InstallmentStatus, unhandled_channel, send_bucket_spent,
  send_bucket_returned, send_bucket_denied, retry_allowance_granted, retry_allowance_spent,
}
use beta_boot_git_ops.Machine
use beta_boot_git_ops.Machine.{EndCause, StreamMachine, feed, finalize}
use beta_boot_git_ops.Normalize.{SerdeJson, Normalized, normalize}
use beta_boot_git_ops.Base.{
  ℕ, zero, suc, ◌+◌, Bool, true, false, not, ◌||◌, Option, none, some, List, [], ◌∷◌, ◌++◌, map,
  if◌then◌else◌, length, snoc, Result, ok, err, u32, u64, Text,
}

pub data FlowDirective : Type 0 where
  continue stop_complete abort : FlowDirective

pub data FaultDirective : Type 0 where
  retry_same_endpoint failover give_up : FaultDirective

pub record StreamState : Type 0 where
  pub stream_id : StreamId
  pub attempt : ℕ
  pub machine : StreamMachine
  pub installments : ℕ
  pub events : ℕ
  pub norm_errors : ℕ
  pub reads : ℕ
  pub content_bytes : ℕ
  pub saw_any_content : Bool

unfoldable pub new_state : StreamId → StreamState
new_state id = record {
  stream_id = id;
  attempt = 0;
  machine = Machine.new;
  installments = 0;
  events = 0;
  norm_errors = 0;
  reads = 0;
  content_bytes = 0;
  saw_any_content = false;
}

-- The new attempt's number is `attempt` of the new state.
unfoldable pub begin_attempt : StreamState → StreamState
begin_attempt st = record st { attempt = u32 (st.attempt + 1); machine = Machine.new }

pub data TurnResolution : Type 0 where
  committed : ChatOutcome → TurnResolution
  fault : DriverFault → TurnResolution

pub record EventHandler : Type 0 where
  pub bus : List EmissionRecord
  pub send_buckets : ℕ
  pub retry_allowance_per_turn : ℕ
  pub knows_failover_exists : Bool

unfoldable pub new : ℕ → ℕ → Bool → EventHandler
new send_buckets retry_allowance_per_turn knows_failover_exists = record {
  bus = [];
  send_buckets = send_buckets;
  retry_allowance_per_turn = retry_allowance_per_turn;
  knows_failover_exists = knows_failover_exists;
}

abbrev pub emit : EventHandler → EmissionRecord → EventHandler
emit h r = record h { bus = snoc h.bus r }

-- Records emitted one after the other.
abbrev pub emit_all : EventHandler → List EmissionRecord → EventHandler
emit_all h rs = record h { bus = h.bus ++ rs }

unfoldable pub begin_stream : EventHandler → StreamId → StreamState × EventHandler
unfolding new_state
begin_stream h id =
    (new_state id, emit h (ledger id 0 (retry_allowance_granted h.retry_allowance_per_turn)))

unfoldable pub acquire_send_bucket : EventHandler → StreamId → ℕ → Bool × EventHandler
acquire_send_bucket h stream attempt = elim h.send_buckets [
  | zero ↦ (false, emit h (ledger stream attempt send_bucket_denied))
  | suc v ↦
      (true, record (emit h (ledger stream attempt (send_bucket_spent v))) { send_buckets = v })
]

unfoldable pub return_send_bucket : EventHandler → StreamId → ℕ → EventHandler
return_send_bucket h stream attempt =
    let after = u32 (h.send_buckets + 1) in
    record (emit h (ledger stream attempt (send_bucket_returned after))) { send_buckets = after }

-- The allowance that remains is the caller's, and comes back changed.
unfoldable pub on_wire_fault : EventHandler → StreamId → ℕ → ℕ → FaultDirective × ℕ × EventHandler
on_wire_fault h stream attempt zero = (if h.knows_failover_exists then failover else give_up, 0, h)
on_wire_fault h stream attempt (suc remaining) = (
  retry_same_endpoint,
  remaining,
  emit h (ledger stream attempt (retry_allowance_spent remaining)),
)

-- The loop over the events: the machine, the count of content bytes, and whether the sentinel was seen.
unfoldable pub count_text : StreamState → Text → StreamState
count_text st t = record st {
  content_bytes = u64 (st.content_bytes + byte_len t);
  saw_any_content = true;
}

unfoldable pub take_event : StreamState → DriverEvent → StreamState
unfolding count_text
take_event st (text_delta t) = count_text (record st { machine = feed st.machine (text_delta t) }) t
take_event st e = record st { machine = feed st.machine e }

unfoldable pub is_done : DriverEvent → Bool
is_done done = true
is_done _ = false

unfoldable pub take_events : StreamState → Bool → List DriverEvent → StreamState × Bool
unfolding take_event is_done
take_events st saw_done [] = (st, saw_done)
take_events st saw_done (e ∷ es) = take_events (take_event st e) (saw_done || is_done e) es

abbrev pub Refined : Type 0
Refined = Result FlowDirective DriverFault × StreamState × EventHandler

unfoldable pub several_choices : ℕ → Text
unfolding decimal
several_choices n = codes "multiple choices (n=" ++ (decimal n ++ codes ") not supported")

-- An installment that was normalized, with `multiple_choices` apart.
unfoldable pub refine : EventHandler → StreamState → ℕ → Normalized → Option ℕ → Refined
unfolding take_events
refine h st seq norm (some n) =
    let detail = several_choices n in
    (err (protocol detail), st, emit h (normalization_error st.stream_id st.attempt seq detail))
refine h st seq norm none =
    let wired =
      emit_all h
        (map (λ ch. wire st.stream_id st.attempt (unhandled_channel ch)) norm.unhandled_channels) in
    let counted : StreamState = record st {
      installments = u64 (st.installments + 1);
      events = u64 (st.events + length norm.events);
    } in
    let (st', saw_done) = take_events counted false norm.events in
    let told =
      emit_all wired (map (λ e. normalized_event st.stream_id st.attempt seq e) norm.events) in
    (ok (if saw_done then stop_complete else continue), st', told)

unfoldable pub on_installment :
    SerdeJson
    → EventHandler
    → StreamState
    → ℕ
    → InstallmentKind
    → Text
    → InstallmentStatus
    → Refined
unfolding refine
on_installment j h st seq comment_kind payload _ = (ok continue, st, h)
on_installment j h st seq data_kind payload _ = elim (normalize j payload) [
  | ok norm ↦ refine h st seq norm norm.multiple_choices
  | err detail ↦ (
    err (protocol detail),
    record st { norm_errors = u64 (st.norm_errors + 1) },
    emit h (normalization_error st.stream_id st.attempt seq detail),
  )
]

unfoldable pub resolution : Result ChatOutcome DriverFault → TurnResolution
resolution (ok o) = committed o
resolution (err f) = fault f

unfoldable pub finalize_attempt :
    EventHandler → StreamState → EndCause → TurnResolution × StreamState × EventHandler
unfolding resolution
finalize_attempt h st cause = (
  resolution (finalize st.machine cause),
  record st { machine = Machine.new },
  emit_all h (map (λ note. anomaly st.stream_id st.attempt note) st.machine.anomalies),
)
