-- ===== src/Lib.antt =====
-- Verification of rar-chat, the streaming chat client under chat2/.
--
-- The program sends a chat request to an OpenAI-compatible endpoint and reads the answer as a
-- stream of server-sent events. Bytes from the network go through the frame parser
-- (chat2/src/sse.rs); each data frame is normalized to events and fed to the verdict machine by the
-- handler (chat2/src/event_handler.rs, chat2/src/machine.rs, over the data of chat2/src/driver.rs);
-- the driver (chat2/src/openai.rs) runs one attempt after another under deadlines, a throughput
-- guard, send buckets and a retry allowance; and everything is told to an emission bus
-- (chat2/src/emission.rs), whose writer task hands the records to sinks.
--
-- Which file models what:
--   * Base: tests, lists, results and machine words that the other files share. `u32` and `u64` are
--     the wrap-around of the counters.
--   * Text: what the program uses of str and String. Text.Utf8 has the strict and the lossy
--     decoding of the standard library, Text.Lines `lines`, Text.Numbers the formatting of numbers.
--   * Driver: `DriverEvent`, `ChatOutcome`, `DriverFault` and its `Display`.
--   * Machine: `StreamMachine`, `feed`, `finalize`. Machine.Verdict and Machine.Evidence say what
--     they decide.
--   * Sse: `find`, `parse_block`, `SseParser` with `push`, `finish_with_residue`, `finish`. The
--     files under Sse prove how `push` frames the bytes.
--   * Emission: the records. Emission.Bus: `EmissionBus` and its writer task as a list of actions of
--     the tasks, in any order; the bounded channel is the queue.
--   * Normalize: `normalize`. Handler: `StreamState`, `EventHandler` and all its operations.
--     Handler.Admission has the send buckets under interleaving.
--   * Throughput: `eval_throughput`, and under Throughput.Clock a run of its ticks.
--   * EnvFile: chat2/src/env_file.rs, `EnvSource` with `from_file` and `get`. Lookup has the order of
--     lookup, Errors the position of an error, RoundTrip a file that is written.
--   * Config: `OpenAiConfig`, `from_source_prefixed`. Config.Sources says what is read.
--   * Attempt: `run_attempt`. Attempt.Frames has the loop over frames, Attempt.Loop the read loop and
--     what stands before and behind it; Records, Progress, Ends, Goes, Whole and Replay prove what
--     an attempt leaves in the records, and Silence what becomes of a peer that sends no content.
--     Attempt.Clocks has the `select!` of the loop on clocks that keep time: what it wakes up to.
--     Attempt.Instants has the stall deadline on a clock with a last instant.
--     Attempt.Gauge has what an attempt is by the gauge of active streams.
--   * Turn: `execute_turn`, `wire_fault`. Verdicts, Buckets, Rounds, Loop, Completed and Outcomes
--     prove what a turn returns.
--   * Concurrent: `execute_turn` as the tree of what it does to the handler that it shares, and any
--     number of turns on one handler, which go on in the order of a schedule, one operation at a
--     time. Attempt.Locality has why the records of an attempt are its own; Alone, Discipline, Tally,
--     Steps, Moves, Solo, Isolation, WaitFree, Trailers, Endings, Gauge and Together prove what becomes
--     of each turn.
--   * Stress: chat2/examples/stress.rs, its sink, its arguments and its turns. Stress.Counts, Totals
--     and Run say what it counts.
--   * Ports: chat2/src/ports.rs, `TerminalSink` and `CaptureSink` as functions on what they have
--     printed and written. Printed, Captured and Answer put them behind the bus and the turn.
--   * Request: `OpenAiCompatDriver`, the request that an attempt sends, `Message` and `ChatRequest`.
--   * ActiveGuard: the gauge of active streams, under interleaving.
--   * Chat: chat2/src/main.rs, one of the user's lines with the history and the failover. Main: from
--     the arguments to the first prompt; Main.Loop: the loop over the lines and the whole program.
--     Main.Startup, Main.Bounds, Main.Dialogue and Main.Runs say what comes of them, Chat.OneTurn,
--     Chat.History and Chat.Requests what comes of a line.
--   * UnitTests: the repository's own unit tests, run on the model.
--   * Tests: runs of the code, and the theorems at concrete inputs.
--
-- How the state is modelled. Each struct is a record, and an operation that changes one takes it
-- and returns it. In Handler, Attempt and Turn the bus stands for the list of records handed to
-- `emit`, in order; what the bus then does with them is Emission.Bus. The network, the clock and
-- the choice of `select!` are arguments: a `Reply` says how a request is answered, and its `Wakes`
-- what each `select!` of the read loop wakes up to, one after another, with one reading of the
-- clock for each wakeup, in nanoseconds from the start of the stream; every sequence of wakeups is
-- allowed, also one that the deadlines would have cut short. The crate serde_json and
-- floating-point arithmetic are parameters (`SerdeJson`, `Floats`); one theorem assumes of the latter
-- that an average without content falls below the floor and stays there. A file's contents, the
-- process environment, the opening of a capture and the capacities that tokio's channel panics at
-- are arguments.
--
-- Loops. The wakeups of `select!` recur on fuel, of which twice the nanoseconds of the overall
-- deadline and three are enough: each wakeup that does not end the loop puts off the next item or the
-- next tick, and neither wakes the loop behind the deadline. The read loop and the loops over frames
-- recur on the wakeups and on the frames. Framing recurs on fuel: `push` gives as much as there are
-- bytes, and each frame takes at least two. The turn's loop recurs on fuel: `execute_turn` gives one
-- more than the allowance, and each further round spends one of the allowance.
--
-- Turns beside each other. Between two operations on the handler a turn works on state of its own, so
-- a schedule names turns, and each step is one record handed to the bus, one bucket taken or one given
-- back: as fine as the atomics of the program are. The network's answers to a turn do not depend on
-- the schedule. What a turn reads of the gauge of active streams does: the readings stand in its
-- answers, at the ticks, and are any numbers, so the answers of a turn beside others and those of the
-- turn alone are the same but for them. The gauge itself is ActiveGuard. A tree has finitely many
-- operations, so no fuel is needed.
--
-- The program's own terminal and the terminal sink's are two screens: their lines are not put in one
-- order. `drain` is the end of the program where the writer finishes within its five seconds.
--
-- Not modelled: the printing of the request's JSON (a call of serde), the JSON of a record (serde), and
-- the runtime that picks the next turn, which is the schedule. A `Reply` has finitely many wakeups. Attempt.Clocks gives them to a peer that may send
-- for ever, on clocks on which the loop's own work takes no time. The building of the HTTP client is an
-- argument of Request and of Stress; Chat and Main begin where the clients are built. Durations and
-- times have no bound, and a clock no last instant, in Attempt, Turn, Concurrent, Chat and Main: the
-- program panics where the sum of the last read's time and the stall timeout or the backstop is behind
-- the last instant of the clock. Attempt.Instants has the attempt with that panic.
mod Base
pub mod Text
pub mod Driver
pub mod Machine
pub mod Sse
pub mod Emission
pub mod Normalize
pub mod Handler
pub mod Throughput
pub mod EnvFile
pub mod Config
pub mod Request
pub mod Attempt
pub mod ActiveGuard
pub mod Concurrent
pub mod Turn
pub mod Ports
pub mod Chat
pub mod Main
pub mod Stress
pub mod Tests
pub mod UnitTests
