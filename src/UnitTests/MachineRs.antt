-- ===== src/UnitTests/MachineRs.antt =====
-- The tests of chat2/src/machine.rs.
use beta_boot_git_ops.Driver.{
  DriverEvent, text_delta, finish, usage, done, ChatOutcome, truncated, empty_stream, aborted,
}
use beta_boot_git_ops.Machine.{new, feed, feed_all, finalize, stream_ended, handler_abort}
use beta_boot_git_ops.Text.{codes}
use beta_boot_git_ops.Base.{◌≡◌, refl, none, some, List, [], ◌∷◌, map, length, ok, err, Text}

abbrev deltas : List Text → List DriverEvent
deltas words = map (λ w. text_delta w) words

abbrev stop : DriverEvent
stop = finish (codes "stop")

abbrev SunnyPathFinishThenDone : Type 0
SunnyPathFinishThenDone =
    let m = feed_all new (deltas (codes "Hello" ∷ codes " world" ∷ [])) in
    let m = feed (feed (feed m stop) (usage 3 2 5)) done in
    (out : ChatOutcome) × (finalize m stream_ended ≡ ok out)
    × (out.content ≡ codes "Hello world")
    × (out.finish_reason ≡ codes "stop")
    × (out.usage ≡ some (3, 2, 5))

sunny_path_finish_then_done : SunnyPathFinishThenDone
unfolding feed feed_all finalize
sunny_path_finish_then_done = (
  record { content = codes "Hello world"; finish_reason = codes "stop"; usage = some (3, 2, 5) },
  refl,
  refl,
  refl,
  refl,
)

-- The connection dies in the middle of the answer.
abbrev EofBeforeFinishReasonIsTruncated : Type 0
EofBeforeFinishReasonIsTruncated =
    let m = feed_all new (deltas (codes "partial" ∷ codes " answer" ∷ [])) in
    finalize m stream_ended ≡ err (truncated 14)

eof_before_finish_reason_is_truncated : EofBeforeFinishReasonIsTruncated
unfolding feed feed_all finalize
eof_before_finish_reason_is_truncated = refl

abbrev EofWithNoContentIsEmptyStreamNotTruncated : Type 0
EofWithNoContentIsEmptyStreamNotTruncated = finalize new stream_ended ≡ err empty_stream

eof_with_no_content_is_empty_stream_not_truncated : EofWithNoContentIsEmptyStreamNotTruncated
unfolding finalize
eof_with_no_content_is_empty_stream_not_truncated = refl

-- The sentinel carries no completion authority.
abbrev DoneWithoutFinishReasonIsTruncated : Type 0
DoneWithoutFinishReasonIsTruncated =
    finalize (feed (feed new (text_delta (codes "half"))) done) stream_ended ≡ err (truncated 4)

done_without_finish_reason_is_truncated : DoneWithoutFinishReasonIsTruncated
unfolding feed finalize
done_without_finish_reason_is_truncated = refl

abbrev FinishReasonWithoutDoneIsSuccess : Type 0
FinishReasonWithoutDoneIsSuccess =
    (out : ChatOutcome) × (finalize (feed (feed new (text_delta (codes "full"))) stop) stream_ended
      ≡ ok out)
    × (out.content ≡ codes "full")
    × (out.usage ≡ none)

finish_reason_without_done_is_success : FinishReasonWithoutDoneIsSuccess
unfolding feed finalize
finish_reason_without_done_is_success = (
  record { content = codes "full"; finish_reason = codes "stop"; usage = none },
  refl,
  refl,
  refl,
)

abbrev HandlerAbortIsAbortedNotTruncated : Type 0
HandlerAbortIsAbortedNotTruncated =
    finalize (feed new (text_delta (codes "cut"))) handler_abort ≡ err (aborted 3)

handler_abort_is_aborted_not_truncated : HandlerAbortIsAbortedNotTruncated
unfolding feed finalize
handler_abort_is_aborted_not_truncated = refl

abbrev LateTextIsKeptAndFlagged : Type 0
LateTextIsKeptAndFlagged =
    let m = feed (feed new stop) (text_delta (codes "straggler")) in
    (length m.anomalies ≡ 1)
    × (out : ChatOutcome) × (finalize m stream_ended ≡ ok out)
    × (out.content ≡ codes "straggler")

late_text_is_kept_and_flagged : LateTextIsKeptAndFlagged
unfolding feed finalize
late_text_is_kept_and_flagged = (
  refl,
  record { content = codes "straggler"; finish_reason = codes "stop"; usage = none },
  refl,
  refl,
)
