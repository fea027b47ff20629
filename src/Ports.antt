-- ===== src/Ports.antt =====
-- chat2/src/ports.rs: the sinks. What a terminal shows is a text and a list of lines, one for each
-- `eprintln!`; a file is the lines that were flushed to it. Printing JSON is serde_json's.
pub mod Terminal
pub mod Capture
pub mod Printed
pub mod Answer
pub mod Captured
use beta_boot_git_ops.Driver.{DriverEvent, text_delta, finish, usage, done}
use beta_boot_git_ops.Emission.{
  EmissionRecord, normalized_event, normalization_error, undecodable_installment, residue, wire,
  anomaly, turn_trailer, capture_drop, WireNote, ttft, unhandled_channel,
}
use beta_boot_git_ops.Text.{codes}
use beta_boot_git_ops.Text.Numbers.{decimal}
use beta_boot_git_ops.Base.{
  ℕ, ◌+◌, Bool, true, false, not, ◌||◌, List, [], ◌∷◌, ◌++◌, leb, if◌then◌else◌, snoc, Result, ok,
  err, u32, Text,
}

pub record Screen : Type 0 where
  pub stdout : Text
  pub stderr : List Text

abbrev pub print : Screen → Text → Screen
print s t = record s { stdout = s.stdout ++ t }

abbrev pub eprintln : Screen → Text → Screen
eprintln s t = record s { stderr = snoc s.stderr t }

unfoldable pub show_event : Screen → DriverEvent → Screen
unfolding decimal
show_event s (text_delta t) = print s t
show_event s (finish reason) =
    eprintln s (codes "\n[SYSTEM] Stream completed. Exit Reason: " ++ reason)
show_event s (usage p c t) = eprintln s (
    codes "[ACCOUNTING] Prompt: "
    ++ (decimal p ++ (codes ", Completion: " ++ (decimal c ++ (codes ", Total: " ++ decimal t)))))
show_event s done = s

unfoldable pub show_note : Screen → WireNote → Screen
unfolding decimal
show_note s (ttft ms) = eprintln s (codes "\n[METRIC] TTFT: " ++ (decimal ms ++ codes "ms"))
show_note s (unhandled_channel channel) = eprintln s (
    codes "\n[WIRE] unhandled channel present: "
    ++ (channel ++ codes " (surfaced, not interpreted)"))
show_note s _ = s

-- `TerminalSink`.
unfoldable pub terminal_write : Screen → EmissionRecord → Screen
unfolding show_event show_note decimal
terminal_write s (normalized_event _ _ _ event) = show_event s event
terminal_write s (wire _ _ note) = show_note s note
terminal_write s (anomaly _ _ note) = eprintln s (codes "\n[ANOMALY] " ++ note)
terminal_write s (normalization_error _ _ _ detail) =
    eprintln s (codes "\n[WIRE-ERROR] normalization failed: " ++ detail)
terminal_write s (undecodable_installment _ _ _ bytes error hex_prefix) = eprintln s (
    codes "\n[WIRE-ERROR] undecodable frame ("
    ++ (decimal bytes ++ (codes "b): " ++ (error ++ (codes " [" ++ (hex_prefix ++ codes "]"))))))
terminal_write s (residue _ _ bytes _) =
    eprintln s
      (codes "\n[WIRE-ERROR] " ++ (decimal bytes ++ codes "b unframed residue at stream end"))
terminal_write s (capture_drop dropped) =
    eprintln s (codes "\n[CAPTURE] " ++ (decimal dropped ++ codes " record(s) dropped under load"))
terminal_write s _ = s

unfoldable pub terminal_write_all : Screen → List EmissionRecord → Screen
unfolding terminal_write
terminal_write_all s [] = s
terminal_write_all s (r ∷ rs) = terminal_write_all (terminal_write s r) rs

-- `CaptureSink`: the lines that were flushed, and those written since, of which the buffered writer
-- may have passed some on. Writes do not fail here; the code ignores it where they do.
pub record CaptureSink : Type 0 where
  pub flushed : List Text
  pub pending : List Text
  pub since_flush : ℕ

unfoldable pub create : CaptureSink
create = record { flushed = []; pending = []; since_flush = 0 }

unfoldable pub is_boundary : EmissionRecord → Bool
is_boundary (turn_trailer _ _ _ _ _ _ _ _ _ _) = true
is_boundary _ = false

abbrev pub flush : CaptureSink → CaptureSink
flush c = record c { flushed = c.flushed ++ c.pending; pending = [] }

-- `drop` of the sink.
unfoldable pub drop_capture : CaptureSink → CaptureSink
drop_capture c = flush c

unfoldable pub line_of : Result Text Text → Text
line_of (ok line) = line
line_of (err e) = codes "{\"rec\":\"capture_error\",\"detail\":\"" ++ (e ++ codes "\"}")

module _ (to_string : EmissionRecord → Result Text Text) where
  unfoldable pub capture_write : CaptureSink → EmissionRecord → CaptureSink
  unfolding line_of is_boundary
  capture_write c r =
      let written : CaptureSink = record c {
        pending = snoc c.pending (line_of (to_string r));
        since_flush = u32 (c.since_flush + 1);
      } in
      if is_boundary r || leb 64 written.since_flush
      then record (flush written) { since_flush = 0 }
      else written

  unfoldable pub capture_write_all : CaptureSink → List EmissionRecord → CaptureSink
  unfolding capture_write
  capture_write_all c [] = c
  capture_write_all c (r ∷ rs) = capture_write_all (capture_write c r) rs
