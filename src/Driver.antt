-- ===== src/Driver.antt =====
-- chat2/src/driver.rs: the events of a stream, the outcome of a call, and its faults.
use beta_boot_git_ops.Text.{codes}
use beta_boot_git_ops.Text.Numbers.{decimal}
use beta_boot_git_ops.Base.{ℕ, Option, ◌++◌, Text}

pub data DriverEvent : Type 0 where
  text_delta : Text → DriverEvent
  finish : Text → DriverEvent
  -- The tokens of the prompt, of the completion, and in total.
  usage : ℕ → ℕ → ℕ → DriverEvent
  done : DriverEvent

abbrev pub Usage : Type 0
Usage = ℕ × ℕ × ℕ

pub record ChatOutcome : Type 0 where
  pub content : Text
  pub finish_reason : Text
  pub usage : Option Usage

pub data DriverFault : Type 0 where
  truncated : ℕ → DriverFault
  aborted : ℕ → DriverFault
  stalled : ℕ → DriverFault
  buffer_overflow : ℕ → DriverFault
  empty_stream : DriverFault
  protocol : Text → DriverFault

-- `Display` of a fault.
unfoldable pub show_fault : DriverFault → Text
unfolding decimal
show_fault (truncated n) =
    codes "stream truncated: connection ended before finish_reason ("
    ++ (decimal n ++ codes " chars of uncommitted partial output discarded)")
show_fault (aborted n) =
    codes "stream aborted by handler directive ("
    ++ (decimal n ++ codes " chars of uncommitted partial output discarded)")
show_fault (stalled n) = codes "stream stalled: no bytes for " ++ (decimal n ++ codes "s")
show_fault (buffer_overflow n) =
    codes "SSE buffer exceeded " ++ (decimal n ++ codes " bytes without a frame terminator")
show_fault empty_stream = codes "stream accepted but produced no content before closing"
show_fault (protocol m) = codes "protocol violation: " ++ m
