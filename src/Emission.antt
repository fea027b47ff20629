-- ===== src/Emission.antt =====
-- chat2/src/emission.rs, the types: every observable fact of a turn is one `EmissionRecord`.
pub mod Bus
use beta_boot_git_ops.Driver.{DriverEvent, Usage}
use beta_boot_git_ops.Base.{ℕ, Option, Text}

abbrev pub capture_format_version : ℕ
capture_format_version = 2

abbrev pub StreamId : Type 0
StreamId = ℕ

pub data InstallmentKind : Type 0 where
  data_kind comment_kind : InstallmentKind

pub data InstallmentStatus : Type 0 where
  complete recovered_tail : InstallmentStatus

pub data StreamEndCause : Type 0 where
  done_sentinel_consumed peer_closed closed_with_no_content : StreamEndCause
  stall_timeout : (window_secs : ℕ) → StreamEndCause
  throughput_starved : (floor_bps sustained_secs : ℕ) → StreamEndCause
  overall_deadline : (limit_secs : ℕ) → StreamEndCause
  first_byte_backstop : (window_secs : ℕ) → StreamEndCause
  transport_error : (detail : Text) → StreamEndCause
  handler_directed : (directive : Text) → StreamEndCause
  overflowed : (limit_bytes : ℕ) → StreamEndCause
  http_error : (status : ℕ) (body : Text) → StreamEndCause
  not_an_event_stream : (content_type body_prefix : Text) → StreamEndCause
  connect_error : (detail : Text) → StreamEndCause
  multiple_choices_unsupported : (n : ℕ) → StreamEndCause
  cancelled : StreamEndCause

pub data WireNote : Type 0 where
  ttft : (ms : ℕ) → WireNote
  inter_read_gap : (ms bytes : ℕ) → WireNote
  keep_alive_comment eof_without_done_sentinel read_pacing_engaged : WireNote
  unhandled_channel : (channel : Text) → WireNote

pub data SchedNote : Type 0 where
  content_throughput : (bytes_per_sec active_streams : ℕ) → SchedNote
  select_wake : (arm : Text) → SchedNote
  emit_latency_us : (us : ℕ) → SchedNote

pub data LedgerEntry : Type 0 where
  send_bucket_spent : (available_after : ℕ) → LedgerEntry
  send_bucket_returned : (available_after : ℕ) → LedgerEntry
  send_bucket_denied : LedgerEntry
  retry_allowance_granted : (total : ℕ) → LedgerEntry
  retry_allowance_spent : (remaining : ℕ) → LedgerEntry

pub data TurnVerdictRecord : Type 0 where
  committed : (finish_reason : Text) (chars : ℕ) (usage : Option Usage) → TurnVerdictRecord
  failed : (fault : Text) → TurnVerdictRecord
  failover_directed : (after_attempts : ℕ) → TurnVerdictRecord

pub data EmissionRecord : Type 0 where
  read : (stream attempt seq at_ms wall_unix_ms bytes gap_ms : ℕ) → EmissionRecord
  installment :
      (stream attempt seq first_read last_read bytes : ℕ) (kind : InstallmentKind) (payload : Text)
      (status : InstallmentStatus)
      → EmissionRecord
  normalized_event : (stream attempt installment_seq : ℕ) (event : DriverEvent) → EmissionRecord
  normalization_error : (stream attempt installment_seq : ℕ) (detail : Text) → EmissionRecord
  undecodable_installment :
      (stream attempt seq bytes : ℕ) (error hex_prefix : Text) → EmissionRecord
  residue : (stream attempt : ℕ) (bytes : ℕ) (lossy_text : Text) → EmissionRecord
  stream_end :
      (stream attempt : ℕ) (cause : StreamEndCause) (unconsumed_buffer_bytes : ℕ) → EmissionRecord
  wire : (stream attempt : ℕ) (note : WireNote) → EmissionRecord
  ledger : (stream attempt : ℕ) (entry : LedgerEntry) → EmissionRecord
  anomaly : (stream attempt : ℕ) (note : Text) → EmissionRecord
  scheduler : (stream attempt : ℕ) (note : SchedNote) → EmissionRecord
  turn_trailer :
      (stream format_version attempts : ℕ) (verdict : TurnVerdictRecord)
      (reads installments events normalization_errors select_polls : ℕ) (capture_policy : Text)
      → EmissionRecord
  capture_drop : (dropped : ℕ) → EmissionRecord
