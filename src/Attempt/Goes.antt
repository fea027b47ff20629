-- ===== src/Attempt/Goes.antt =====
-- The loops over frames go on, or end as an attempt may end.
use beta_boot_git_ops.Attempt.{Run, tell_of}
use beta_boot_git_ops.Attempt.Frames.{
  Handled, go_on, next_installment, tell_undecodable, tell_installment, tell_ttft, end_with, flow,
  refined_run, handle_data, handle_payload, handle_frame, handle_frames, recover_payload,
  recover_frames,
}
use beta_boot_git_ops.Attempt.Progress.{
  Progress, Progress-refl, Progress-trans, Progress-tell, on_installment-Progress,
}
use beta_boot_git_ops.Driver.{DriverFault}
use beta_boot_git_ops.Config.{as_millis}
use beta_boot_git_ops.Emission
use beta_boot_git_ops.Emission.{
  EmissionRecord, StreamEndCause, cancelled, handler_directed, anomaly, data_kind, comment_kind,
  recovered_tail, wire, inter_read_gap,
}
use beta_boot_git_ops.Handler.{FlowDirective, continue, stop_complete, abort, on_installment}
use beta_boot_git_ops.Normalize.{SerdeJson}
use beta_boot_git_ops.Sse.{SsePayload, comment, data_of, undecodable, SseEvent}
use beta_boot_git_ops.Base.{
  ◌≢◌, ℕ, ◌^◌, ◌<◌, refl, inl, inr, none, some, List, [], ◌∷◌, Bool-cases, Result, ok, err, Text,
}
use beta_boot_git_ops.Attempt.Ends.{cause_of, Ends, Ends-after, finalize_attempt-Judged}

module _ {F : Type 0} where
  abbrev pub RunProgress : List StreamEndCause → Run F → Run F → Type 0
  RunProgress cs r r' = Progress cs r.handler r.st r'.handler r'.st

  -- A step of a loop goes on with no end told, or ends the attempt.
  abbrev pub Goes : Run F → Handled F → Type 0
  Goes r (none, r') = RunProgress [] r r'
  Goes r (some e, r') = Ends r.handler r.st e r'.handler r'.st

  abbrev pub IsWord : Run F → Type 0
  IsWord r = r.st.content_bytes < 2 ^ 64

  pub Goes-after : (r r1 : Run F) (x : Handled F) → RunProgress [] r r1 → Goes r1 x → Goes r x
  Goes-after r r1 (none, r') p g = Progress-trans p g
  Goes-after r r1 (some e, r') p g = Ends-after e r'.handler r'.st p g

  end_with-Goes :
      (r : Run F) (cause : StreamEndCause)
      → cause ≢ cancelled
      → IsWord r
      → Goes r (end_with r cause (cause_of cause))
  unfolding end_with
  end_with-Goes r cause live w =
      finalize_attempt-Judged cause live (Progress-tell r.handler r.st _ w (refl, refl) refl)

  flow-Goes :
      (r : Run F) (before : ℕ) (answer : Result FlowDirective DriverFault)
      → IsWord r
      → Goes r (flow r before answer)
  unfolding flow
  flow-Goes r before (ok continue) w = Progress-refl r.handler r.st w
  flow-Goes r before (ok stop_complete) w = end_with-Goes r _ (λ e. cc) w
  flow-Goes r before (ok abort) w = end_with-Goes r _ (λ e. cc) w
  flow-Goes r before (err f) w = end_with-Goes r _ (λ e. cc) w

  tell_ttft-Progress : (r : Run F) (now : ℕ) → IsWord r → RunProgress [] r (tell_ttft r now)
  unfolding tell_ttft
  tell_ttft-Progress r now w = elim (Bool-cases r.ttft_emitted) [
    | inl told ↦ rw (told, tell_ttft) (Progress-refl r.handler r.st w)
    | inr first ↦ rw (first, tell_ttft) (Progress-tell r.handler r.st _ w (refl, refl) refl)
  ]

  handle_data-Goes :
      (j : SerdeJson) (r : Run F) (now gap bytes : ℕ) (d : Text)
      → IsWord r
      → Goes r (handle_data j r now gap bytes d)
  unfolding handle_data tell_installment refined_run
  handle_data-Goes j r now gap bytes d w =
      let told = tell_installment r bytes data_kind d Emission.complete in
      let spanned = record told { span_start = told.read_seq } in
      let timed = tell_ttft spanned now in
      let gapped = tell_of timed (λ s a. wire s a (inter_read_gap (as_millis gap) bytes)) in
      let answer =
        on_installment j gapped.handler gapped.st gapped.inst_seq data_kind d Emission.complete in
      let answered = refined_run gapped answer in
      let installed : RunProgress [] r spanned =
        Progress-tell r.handler r.st _ w (refl, refl) refl in
      let clocked : RunProgress [] spanned timed = tell_ttft-Progress spanned now w in
      let spaced : RunProgress [] timed gapped =
        Progress-tell timed.handler timed.st _ clocked.word (refl, refl) refl in
      let fed : RunProgress [] gapped answered =
        on_installment-Progress j gapped.handler gapped.st gapped.inst_seq data_kind d
          Emission.complete clocked.word in
      Goes-after r answered (flow answered gapped.st.content_bytes answer.0)
        (Progress-trans installed (Progress-trans clocked (Progress-trans spaced fed)))
        (flow-Goes answered gapped.st.content_bytes answer.0 fed.word)

  handle_payload-Goes :
      (j : SerdeJson) (r : Run F) (now gap bytes : ℕ) (p : SsePayload)
      → IsWord r
      → Goes r (handle_payload j r now gap bytes p)
  unfolding handle_payload tell_undecodable tell_installment
  handle_payload-Goes j r now gap bytes (undecodable raw error) w =
      Progress-tell r.handler r.st _ w (refl, refl) refl
  handle_payload-Goes j r now gap bytes (comment c) w =
      let told = tell_installment r bytes comment_kind c Emission.complete in
      Progress-trans {h' = told.handler} {st' = told.st}
        (Progress-tell r.handler r.st _ w (refl, refl) refl)
        (Progress-tell told.handler told.st _ w (refl, refl) refl)
  handle_payload-Goes j r now gap bytes (data_of d) w = handle_data-Goes j r now gap bytes d w

  go_on-Goes :
      (r : Run F) (x : Handled F) (k : Run F → Handled F)
      → Goes r x
      → ((r' : Run F) → IsWord r' → Goes r' (k r'))
      → Goes r (go_on x k)
  go_on-Goes r (some e, r') k g on = g
  go_on-Goes r (none, r') k g on = Goes-after r r' (k r') g (on r' g.word)

  -- The frames of one read leave the attempt going on with no end told, or end it with one.
  pub handle_frames-Goes :
      (j : SerdeJson) (r : Run F) (now gap : ℕ) (evs : List SseEvent)
      → IsWord r
      → Goes r (handle_frames j r now gap evs)
  unfolding handle_frames handle_frame next_installment
  handle_frames-Goes j r now gap [] w = Progress-refl r.handler r.st w
  handle_frames-Goes j r now gap (ev ∷ evs) w =
      go_on-Goes r (handle_frame j r now gap ev) (λ r'. handle_frames j r' now gap evs)
        (handle_payload-Goes j (next_installment r) now gap ev.raw_byte_len ev.payload w)
        (λ r' w'. handle_frames-Goes j r' now gap evs w')

  recover_payload-Progress :
      (j : SerdeJson) (r : Run F) (bytes : ℕ) (p : SsePayload)
      → IsWord r
      → RunProgress [] r (recover_payload j r bytes p)
  unfolding recover_payload tell_undecodable tell_installment refined_run
  recover_payload-Progress j r bytes (undecodable raw error) w =
      Progress-tell r.handler r.st _ w (refl, refl) refl
  recover_payload-Progress j r bytes (comment c) w =
      let told = tell_installment r bytes comment_kind c recovered_tail in
      Progress-trans {h' = told.handler} {st' = told.st}
        (Progress-tell r.handler r.st _ w (refl, refl) refl)
        (on_installment-Progress j told.handler told.st told.inst_seq comment_kind c recovered_tail
          w)
  recover_payload-Progress j r bytes (data_of d) w =
      let told = tell_installment r bytes data_kind d recovered_tail in
      Progress-trans {h' = told.handler} {st' = told.st}
        (Progress-tell r.handler r.st _ w (refl, refl) refl)
        (on_installment-Progress j told.handler told.st told.inst_seq data_kind d recovered_tail w)

  pub recover_frames-Progress :
      (j : SerdeJson) (r : Run F) (evs : List SseEvent)
      → IsWord r
      → RunProgress [] r (recover_frames j r evs)
  unfolding recover_frames next_installment
  recover_frames-Progress j r [] w = Progress-refl r.handler r.st w
  recover_frames-Progress j r (ev ∷ evs) w =
      let r' = recover_payload j (next_installment r) ev.raw_byte_len ev.payload in
      let p : RunProgress [] r r' =
        recover_payload-Progress j (next_installment r) ev.raw_byte_len ev.payload w in
      Progress-trans p (recover_frames-Progress j r' evs p.word)
