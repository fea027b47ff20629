-- ===== src/Attempt.antt =====
-- chat2/src/openai.rs, `run_attempt`: one request and the stream of its response. What the
-- environment does is an argument: how the request is answered, and what each `select!` wakes up
-- to, with one reading of the clock for each wakeup, in nanoseconds from the start of the stream.
pub mod Frames
pub mod Loop
pub mod Records
pub mod Progress
pub mod Ends
pub mod Goes
pub mod Whole
pub mod Replay
pub mod Silence
pub mod Locality
pub mod Clocks
pub mod Gauge
pub mod Instants
use beta_boot_git_ops.Emission.{EmissionRecord, StreamEndCause, stream_end, scheduler, select_wake}
use beta_boot_git_ops.Handler.{EventHandler, StreamState, TurnResolution, emit}
use beta_boot_git_ops.Sse.{SseParser, buffered}
use beta_boot_git_ops.Base.{ℕ, Bool, Option, Text, Bytes}

-- The wakeups of the read loop. The last is one that ends the attempt, whatever came before it.
pub data Wakes : Type 0 where
  cancels : Wakes
  overall_deadline_passes : Wakes
  stalls : Wakes
  closes : Wakes
  fails : (detail : Text) → Wakes
  -- The tick of the throughput clock, with what the gauge of active streams, which all turns share,
  -- reads then: it depends on the turns beside this one.
  ticks : (at active_streams : ℕ) → Wakes → Wakes
  -- Bytes, with the time of day in milliseconds.
  receives : (at wall_unix_ms : ℕ) (chunk : Bytes) → Wakes → Wakes

-- `resp.text()` under the stall timeout.
pub data Body : Type 0 where
  text : Text → Body
  unreadable timed_out : Body

pub record Response : Type 0 where
  pub status : ℕ
  -- The `Content-Type` header, if it is there and is text.
  pub content_type : Option Text
  -- Read only where the response is no event stream.
  pub body : Body
  -- Read only where it is.
  pub wakes : Wakes

-- How the request is answered.
pub data Reply : Type 0 where
  cancels_first : Reply
  no_headers_in_time : Reply
  not_sent : (detail : Text) → Reply
  responds : Response → Reply

pub data AttemptEnd : Type 0 where
  complete : TurnResolution → AttemptEnd
  wire_end : StreamEndCause → AttemptEnd

-- The state of an attempt: the handler and the stream's state, which outlive it, the count of
-- polls, and the variables of the read loop.
pub record Run (F : Type 0) : Type 0 where
  pub handler : EventHandler
  pub st : StreamState
  pub select_polls : ℕ
  pub parser : SseParser
  pub last_read_at : ℕ
  pub first_byte_at : Option ℕ
  pub read_seq : ℕ
  pub inst_seq : ℕ
  pub span_start : ℕ
  pub ttft_emitted : Bool
  pub ema_bps : F
  pub starved_dur : Option ℕ
  pub content_bytes_this_sec : ℕ

module _ {F : Type 0} where
  abbrev pub tell : Run F → EmissionRecord → Run F
  tell r e = record r { handler = emit r.handler e }

  -- A record under the stream and attempt of the run.
  abbrev pub tell_of : Run F → (ℕ → ℕ → EmissionRecord) → Run F
  tell_of r e = tell r (e r.st.stream_id r.st.attempt)

  abbrev pub tell_end : Run F → StreamEndCause → ℕ → Run F
  tell_end r cause unconsumed = tell_of r (λ s a. stream_end s a cause unconsumed)

  -- The exits with a cause of the wire, once there is a parser.
  abbrev pub end_wire : Run F → StreamEndCause → AttemptEnd × Run F
  end_wire r cause = (wire_end cause, tell_end r cause (buffered r.parser))

  abbrev pub tell_wake : Run F → Text → Run F
  tell_wake r arm = tell_of r (λ s a. scheduler s a (select_wake arm))
