-- ===== src/Machine.antt =====
-- chat2/src/machine.rs: the state machine that decides whether a call completed.
pub mod Verdict
pub mod Evidence
use beta_boot_git_ops.Text.{codes}
use beta_boot_git_ops.Driver.{
  DriverEvent, text_delta, finish, usage, done, Usage, ChatOutcome, DriverFault, truncated, aborted,
  empty_stream,
}
use beta_boot_git_ops.Base.{
  ℕ, Bool, true, false, Option, none, some, List, [], ◌∷◌, ◌++◌, ◌==◌, if◌then◌else◌, length, snoc,
  is_some, Result, ok, err, Text,
}

pub data EndCause : Type 0 where
  stream_ended handler_abort : EndCause

pub record StreamMachine : Type 0 where
  pub content : Text
  pub finish_reason : Option Text
  pub usage : Option Usage
  pub saw_done : Bool
  pub anomalies : List Text

abbrev pub new : StreamMachine
new = record { content = []; finish_reason = none; usage = none; saw_done = false; anomalies = [] }

-- `chars().count()` of the content.
abbrev pub partial_chars : StreamMachine → ℕ
partial_chars m = length m.content

abbrev pub is_completable : StreamMachine → Bool
is_completable m = is_some m.finish_reason

unfoldable pub late_text : Text
late_text = codes "text delta arrived after finish_reason"

unfoldable pub second_finish : Text → Text → Text
second_finish r prev =
    codes "second finish_reason '"
    ++ (r ++ (codes "' after '" ++ (prev ++ codes "' — keeping the first")))

unfoldable pub feed : StreamMachine → DriverEvent → StreamMachine
feed m (text_delta t) = record m {
  anomalies = if is_some m.finish_reason then snoc m.anomalies late_text else m.anomalies;
  content = m.content ++ t;
}
feed m (finish r) = elim m.finish_reason [
  | none ↦ record m { finish_reason = some r }
  | some prev ↦ record m { anomalies = snoc m.anomalies (second_finish r prev) }
]
feed m (usage p c t) = record m { usage = some (p, c, t) }
feed m done = record m { saw_done = true }

-- The verdict: the cause and the finish reason decide it.
resolve : StreamMachine → EndCause → Option Text → Result ChatOutcome DriverFault
resolve m handler_abort _ = err (aborted (partial_chars m))
resolve m stream_ended (some r) =
    ok (record { content = m.content; finish_reason = r; usage = m.usage })
resolve m stream_ended none =
    if partial_chars m == 0 then err empty_stream else err (truncated (partial_chars m))

unfoldable pub finalize : StreamMachine → EndCause → Result ChatOutcome DriverFault
unfolding resolve
finalize m cause = resolve m cause m.finish_reason

-- A stream's events, in order.
unfoldable pub feed_all : StreamMachine → List DriverEvent → StreamMachine
feed_all m [] = m
feed_all m (e ∷ es) = feed_all (feed m e) es
