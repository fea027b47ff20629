-- ===== src/Attempt/Locality.antt =====
-- chat2/src/openai.rs, `run_attempt` on handlers that differ in what they have emitted: the frames.
pub mod Loop
use beta_boot_git_ops.Attempt.{Run, tell, tell_of}
use beta_boot_git_ops.Attempt.Frames.{
  Handled, go_on, next_installment, tell_undecodable, tell_installment, tell_ttft, end_with, flow,
  refined_run, handle_data, handle_payload, handle_frame, handle_frames, recover_payload,
  recover_frames,
}
use beta_boot_git_ops.Config.{as_millis}
use beta_boot_git_ops.Driver.{DriverFault}
use beta_boot_git_ops.Emission.{
  EmissionRecord, InstallmentKind, data_kind, comment_kind, InstallmentStatus, recovered_tail, wire,
  inter_read_gap, keep_alive_comment, StreamEndCause,
}
use beta_boot_git_ops.Emission
use beta_boot_git_ops.Handler.{
  EventHandler, StreamState, FlowDirective, continue, stop_complete, abort, Refined, refine,
  on_installment, finalize_attempt,
}
use beta_boot_git_ops.Machine.{EndCause}
use beta_boot_git_ops.Normalize.{SerdeJson, Normalized, normalize}
use beta_boot_git_ops.Sse.{SsePayload, comment, data_of, undecodable, SseEvent}
use beta_boot_git_ops.Base.{
  ℕ, ◌≡◌, refl, ap, ◌∙◌, inl, inr, true, Option, none, some, List, [], ◌∷◌, ◌++◌, append_assoc,
  Bool-cases, Result, ok, err, Result-cases, Text, Bytes,
}

-- The handler `g` once it has emitted what `h` has, too.
abbrev pub behind : EventHandler → EventHandler → EventHandler
behind g h = record g { bus = g.bus ++ h.bus }

pub behind-emit_all :
    (g h : EventHandler) (rs : List EmissionRecord)
    → (let x : EventHandler = record (behind g h) { bus = (behind g h).bus ++ rs } in x)
      ≡ behind g (record h { bus = h.bus ++ rs })
behind-emit_all g h rs = ap (λ b. record g { bus = b }) (append_assoc g.bus h.bus rs)

-- The handler's answer, its records behind those of `g`.
abbrev pub refined_behind : EventHandler → Refined → Refined
refined_behind g (answer, st, h) = (answer, st, behind g h)

module _ (g : EventHandler) where
  refine-behind :
      (h : EventHandler) (st : StreamState) (seq : ℕ) (norm : Normalized) (o : Option ℕ)
      → refine (behind g h) st seq norm o ≡ refined_behind g (refine h st seq norm o)
  unfolding refine
  refine-behind h st seq norm (some n) = simp append_assoc
  refine-behind h st seq norm none = simp append_assoc

  pub on_installment-behind :
      (j : SerdeJson) (h : EventHandler) (st : StreamState) (seq : ℕ) (kind : InstallmentKind)
      (payload : Text) (status : InstallmentStatus)
      → on_installment j (behind g h) st seq kind payload status
        ≡ refined_behind g (on_installment j h st seq kind payload status)
  unfolding on_installment
  on_installment-behind j h st seq comment_kind payload status = refl
  on_installment-behind j h st seq data_kind payload status =
      elim (Result-cases (normalize j payload)) [
        | inl (norm, p) ↦ rw (p, on_installment) (refine-behind h st seq norm norm.multiple_choices)
        | inr (detail, p) ↦ rw (p, on_installment) (simp append_assoc)
      ]

  module _ {F : Type 0} where
    -- The run behind what `g` has emitted.
    abbrev pub on : Run F → Run F
    on r = record r { handler = behind g r.handler }

    abbrev pub handled_on : Handled F → Handled F
    handled_on (e, r) = (e, on r)

    pub tell-on : (r : Run F) (e : EmissionRecord) → tell (on r) e ≡ on (tell r e)
    tell-on r e =
        ap (λ b. record r { handler = record g { bus = b } })
          (append_assoc g.bus r.handler.bus (e ∷ []))

    tell_undecodable-on :
        (r : Run F) (raw : Bytes) (error : Text)
        → tell_undecodable (on r) raw error ≡ on (tell_undecodable r raw error)
    unfolding tell_undecodable
    tell_undecodable-on r raw error = tell-on r _

    tell_installment-on :
        (r : Run F) (bytes : ℕ) (kind : InstallmentKind) (payload : Text)
        (status : InstallmentStatus)
        → tell_installment (on r) bytes kind payload status
          ≡ on (tell_installment r bytes kind payload status)
    unfolding tell_installment
    tell_installment-on r bytes kind payload status = tell-on r _

    tell_ttft-on : (r : Run F) (now : ℕ) → tell_ttft (on r) now ≡ on (tell_ttft r now)
    unfolding tell_ttft
    tell_ttft-on r now = elim (Bool-cases r.ttft_emitted) [
      | inl e ↦ rw e refl
      | inr e ↦ rw e (tell-on (record r { ttft_emitted = true }) _)
    ]

    end_with-on :
        (r : Run F) (cause : StreamEndCause) (v : EndCause)
        → end_with (on r) cause v ≡ handled_on (end_with r cause v)
    unfolding end_with finalize_attempt
    end_with-on r cause v = simp append_assoc

    flow-on :
        (r : Run F) (before : ℕ) (answer : Result FlowDirective DriverFault)
        → flow (on r) before answer ≡ handled_on (flow r before answer)
    unfolding flow
    flow-on r before (ok continue) = refl
    flow-on r before (ok stop_complete) = end_with-on r _ _
    flow-on r before (ok abort) = end_with-on r _ _
    flow-on r before (err f) = end_with-on r _ _

    refined-on :
        (j : SerdeJson) (r : Run F) (seq : ℕ) (kind : InstallmentKind) (payload : Text)
        (status : InstallmentStatus)
        → refined_run (on r) (on_installment j (behind g r.handler) r.st seq kind payload status)
          ≡ on (refined_run r (on_installment j r.handler r.st seq kind payload status))
    unfolding refined_run
    refined-on j r seq kind payload status =
        ap (λ x. refined_run (on r) x)
          (on_installment-behind j r.handler r.st seq kind payload status)

    -- Behind the records of the installment itself.
    answered-on :
        (j : SerdeJson) (r : Run F) (d : Text)
        → let answer = λ (x : Run F).
          on_installment j x.handler x.st x.inst_seq data_kind d Emission.complete in
          flow (refined_run (on r) (answer (on r))) r.st.content_bytes (answer (on r)).0
          ≡ handled_on (flow (refined_run r (answer r)) r.st.content_bytes (answer r).0)
    unfolding refined_run
    answered-on j r d =
        ap (λ (x : Refined). flow (refined_run (on r) x) r.st.content_bytes x.0)
          (on_installment-behind j r.handler r.st r.inst_seq data_kind d Emission.complete)
        ∙ flow-on _ _ _

    handle_data-on :
        (j : SerdeJson) (r : Run F) (now gap bytes : ℕ) (d : Text)
        → handle_data j (on r) now gap bytes d ≡ handled_on (handle_data j r now gap bytes d)
    unfolding handle_data
    handle_data-on j r now gap bytes d =
        let gapped =
          λ (x : Run F). tell_of x (λ s a. wire s a (inter_read_gap (as_millis gap) bytes)) in
        let answered = λ (x : Run F).
          let answer = on_installment j x.handler x.st x.inst_seq data_kind d Emission.complete in
          flow (refined_run x answer) x.st.content_bytes answer.0 in
        let spanned = λ (x : Run F). let y : Run F = record x { span_start = x.read_seq } in y in
        let told = tell_installment r bytes data_kind d Emission.complete in
        ap (λ x. answered (gapped (tell_ttft (spanned x) now)))
          (tell_installment-on r bytes data_kind d Emission.complete)
        ∙ (ap (λ x. answered (gapped x)) (tell_ttft-on (spanned told) now)
            ∙ (ap answered (tell-on (tell_ttft (spanned told) now) _)
                ∙ answered-on j (gapped (tell_ttft (spanned told) now)) d))

    handle_payload-on :
        (j : SerdeJson) (r : Run F) (now gap bytes : ℕ) (p : SsePayload)
        → handle_payload j (on r) now gap bytes p ≡ handled_on (handle_payload j r now gap bytes p)
    unfolding handle_payload
    handle_payload-on j r now gap bytes (undecodable raw error) =
        ap (λ (x : Run F). (none, record x { span_start = r.read_seq }))
          (tell_undecodable-on r raw error)
    handle_payload-on j r now gap bytes (comment c) =
        let spanned = λ (x : Run F). let y : Run F = record x { span_start = x.read_seq } in y in
        ap (λ (x : Run F). (none, tell_of (spanned x) (λ s a. wire s a keep_alive_comment)))
          (tell_installment-on r bytes comment_kind c Emission.complete)
        ∙ ap (λ x. (none, x))
            (tell-on (spanned (tell_installment r bytes comment_kind c Emission.complete)) _)
    handle_payload-on j r now gap bytes (data_of d) = handle_data-on j r now gap bytes d

    go_on-on :
        (x : Handled F) (k : Run F → Handled F)
        → ((r : Run F) → k (on r) ≡ handled_on (k r))
        → go_on (handled_on x) k ≡ handled_on (go_on x k)
    go_on-on (some e, r) k h = refl
    go_on-on (none, r) k h = h r

    pub handle_frames-on :
        (j : SerdeJson) (r : Run F) (now gap : ℕ) (evs : List SseEvent)
        → handle_frames j (on r) now gap evs ≡ handled_on (handle_frames j r now gap evs)
    unfolding handle_frames handle_frame next_installment
    handle_frames-on j r now gap [] = refl
    handle_frames-on j r now gap (ev ∷ evs) =
        ap (λ x. go_on x (λ r'. handle_frames j r' now gap evs))
          (handle_payload-on j (next_installment r) now gap ev.raw_byte_len ev.payload)
        ∙ go_on-on (handle_frame j r now gap ev) (λ r'. handle_frames j r' now gap evs)
            (λ r'. handle_frames-on j r' now gap evs)

    recover_payload-on :
        (j : SerdeJson) (r : Run F) (bytes : ℕ) (p : SsePayload)
        → recover_payload j (on r) bytes p ≡ on (recover_payload j r bytes p)
    unfolding recover_payload
    recover_payload-on j r bytes (undecodable raw error) = tell_undecodable-on r raw error
    recover_payload-on j r bytes (comment c) =
        ap
          (λ (x : Run F).
            refined_run x
              (on_installment j x.handler x.st x.inst_seq comment_kind c recovered_tail))
          (tell_installment-on r bytes comment_kind c recovered_tail)
        ∙ refined-on j (tell_installment r bytes comment_kind c recovered_tail) _ _ _ _
    recover_payload-on j r bytes (data_of d) =
        ap
          (λ (x : Run F).
            refined_run x (on_installment j x.handler x.st x.inst_seq data_kind d recovered_tail))
          (tell_installment-on r bytes data_kind d recovered_tail)
        ∙ refined-on j (tell_installment r bytes data_kind d recovered_tail) _ _ _ _

    pub recover_frames-on :
        (j : SerdeJson) (r : Run F) (evs : List SseEvent)
        → recover_frames j (on r) evs ≡ on (recover_frames j r evs)
    unfolding recover_frames next_installment
    recover_frames-on j r [] = refl
    recover_frames-on j r (ev ∷ evs) =
        ap (λ x. recover_frames j x evs)
          (recover_payload-on j (next_installment r) ev.raw_byte_len ev.payload)
        ∙ recover_frames-on j (recover_payload j (next_installment r) ev.raw_byte_len ev.payload)
            evs
