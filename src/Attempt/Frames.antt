-- ===== src/Attempt/Frames.antt =====
-- The loop over the frames of one read, and over those recovered at the end of the stream.
use beta_boot_git_ops.Attempt.{AttemptEnd, complete, Run, tell_of, tell_end}
use beta_boot_git_ops.Config.{as_millis}
use beta_boot_git_ops.Driver.{DriverFault}
use beta_boot_git_ops.Emission.{
  InstallmentKind, data_kind, comment_kind, InstallmentStatus, recovered_tail, installment,
  undecodable_installment, wire, keep_alive_comment, ttft, inter_read_gap, done_sentinel_consumed,
  handler_directed,
}
use beta_boot_git_ops.Emission
use beta_boot_git_ops.Handler.{
  FlowDirective, continue, stop_complete, abort, Refined, on_installment, finalize_attempt,
}
use beta_boot_git_ops.Machine.{EndCause, stream_ended, handler_abort}
use beta_boot_git_ops.Normalize.{SerdeJson}
use beta_boot_git_ops.Sse.{SsePayload, comment, data_of, undecodable, SseEvent, buffered}
use beta_boot_git_ops.Text.{codes, join}
use beta_boot_git_ops.Text.Numbers.{hex_byte}
use beta_boot_git_ops.Base.{
  ℕ, ◌+◌, ◌-◌, ◌^◌, true, Option, none, some, List, [], ◌∷◌, map, if◌then◌else◌, length, take,
  Result, ok, err, u64, Text, Bytes,
}

-- The first 16 bytes in hexadecimal.
unfoldable pub hex_prefix : Bytes → Text
unfolding hex_byte join
hex_prefix raw = join (codes " ") (map hex_byte (take 16 raw))

-- Where the loop goes on there is no end yet.
abbrev pub Handled : Type 0 → Type 0
Handled F = Option AttemptEnd × Run F

module _ {F : Type 0} where
  -- The next round of a loop, unless this one ended it.
  abbrev pub go_on : Handled F → (Run F → Handled F) → Handled F
  go_on (some e, r) k = (some e, r)
  go_on (none, r) k = k r

  unfoldable pub next_installment : Run F → Run F
  next_installment r = record r { inst_seq = u64 (r.inst_seq + 1) }

  unfoldable pub tell_undecodable : Run F → Bytes → Text → Run F
  unfolding hex_prefix
  tell_undecodable r raw error =
      tell_of r (λ s a. undecodable_installment s a r.inst_seq (length raw) error (hex_prefix raw))

  unfoldable pub tell_installment : Run F → ℕ → InstallmentKind → Text → InstallmentStatus → Run F
  tell_installment r bytes kind payload status =
      tell_of r
        (λ s a. installment s a r.inst_seq r.span_start r.read_seq bytes kind payload status)

  -- The first data of the attempt tells how long it took.
  unfoldable pub tell_ttft : Run F → ℕ → Run F
  tell_ttft r now =
      if r.ttft_emitted
      then r
      else tell_of (record r { ttft_emitted = true }) (λ s a. wire s a (ttft (as_millis now)))

  -- What follows from the handler's answer; `before` is the count of content bytes before it.
  unfoldable pub end_with : Run F → Emission.StreamEndCause → EndCause → Handled F
  end_with r cause verdict =
      let told = tell_end r cause (buffered r.parser) in
      let (resolution, st, h) = finalize_attempt told.handler told.st verdict in
      (some (complete resolution), record told { st = st; handler = h })

  unfoldable pub flow : Run F → ℕ → Result FlowDirective DriverFault → Handled F
  unfolding end_with
  flow r before (ok continue) = (
    none,
    record r {
      content_bytes_this_sec =
          u64 (r.content_bytes_this_sec + u64 (r.st.content_bytes + 2 ^ 64 - before));
    },
  )
  flow r before (ok stop_complete) = end_with r done_sentinel_consumed stream_ended
  flow r before (ok abort) = end_with r (handler_directed (codes "abort")) handler_abort
  flow r before (err _) = end_with r (handler_directed (codes "protocol_error")) handler_abort

  -- The handler's call, and its changes to the run.
  unfoldable pub refined_run : Run F → Refined → Run F
  refined_run r (answer, st, h) = record r { st = st; handler = h }

  unfoldable pub handle_data : SerdeJson → Run F → ℕ → ℕ → ℕ → Text → Handled F
  unfolding tell_installment tell_ttft flow refined_run
  handle_data j r now gap bytes d =
      let told = tell_installment r bytes data_kind d Emission.complete in
      let timed = tell_ttft (record told { span_start = told.read_seq }) now in
      let gapped = tell_of timed (λ s a. wire s a (inter_read_gap (as_millis gap) bytes)) in
      let answer =
        on_installment j gapped.handler gapped.st gapped.inst_seq data_kind d Emission.complete in
      flow (refined_run gapped answer) gapped.st.content_bytes answer.0

  unfoldable pub handle_payload : SerdeJson → Run F → ℕ → ℕ → ℕ → SsePayload → Handled F
  unfolding tell_undecodable tell_installment handle_data
  handle_payload j r now gap bytes (undecodable raw error) =
      (none, record (tell_undecodable r raw error) { span_start = r.read_seq })
  handle_payload j r now gap bytes (comment c) =
      let told = tell_installment r bytes comment_kind c Emission.complete in
      (
        none,
        tell_of (record told { span_start = told.read_seq }) (λ s a. wire s a keep_alive_comment),
      )
  handle_payload j r now gap bytes (data_of d) = handle_data j r now gap bytes d

  -- One frame of a read.
  unfoldable pub handle_frame : SerdeJson → Run F → ℕ → ℕ → SseEvent → Handled F
  unfolding handle_payload next_installment
  handle_frame j r now gap ev =
      handle_payload j (next_installment r) now gap ev.raw_byte_len ev.payload

  -- The frames of a read, up to one that ends the attempt.
  unfoldable pub handle_frames : SerdeJson → Run F → ℕ → ℕ → List SseEvent → Handled F
  unfolding handle_frame
  handle_frames j r now gap [] = (none, r)
  handle_frames j r now gap (ev ∷ evs) =
      go_on (handle_frame j r now gap ev) (λ r'. handle_frames j r' now gap evs)

  -- A frame recovered at the end of the stream: the handler's answer is ignored.
  unfoldable pub recover_payload : SerdeJson → Run F → ℕ → SsePayload → Run F
  unfolding tell_undecodable tell_installment refined_run
  recover_payload j r bytes (undecodable raw error) = tell_undecodable r raw error
  recover_payload j r bytes (comment c) =
      let told = tell_installment r bytes comment_kind c recovered_tail in
      refined_run told
        (on_installment j told.handler told.st told.inst_seq comment_kind c recovered_tail)
  recover_payload j r bytes (data_of d) =
      let told = tell_installment r bytes data_kind d recovered_tail in
      refined_run told
        (on_installment j told.handler told.st told.inst_seq data_kind d recovered_tail)

  unfoldable pub recover_frames : SerdeJson → Run F → List SseEvent → Run F
  unfolding recover_payload next_installment
  recover_frames j r [] = r
  recover_frames j r (ev ∷ evs) =
      recover_frames j (recover_payload j (next_installment r) ev.raw_byte_len ev.payload) evs
