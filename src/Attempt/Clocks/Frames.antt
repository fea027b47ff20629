-- ===== src/Attempt/Clocks/Frames.antt =====
-- The records of reads on punctual clocks, through the loop over frames.
use beta_boot_git_ops.Attempt.{Run, tell_of}
use beta_boot_git_ops.Attempt.Frames.{
  Handled, go_on, next_installment, tell_undecodable, tell_installment, tell_ttft, end_with, flow,
  refined_run, handle_data, handle_payload, handle_frame, handle_frames, recover_payload,
  recover_frames,
}
use beta_boot_git_ops.Config.{OpenAiConfig, as_millis}
use beta_boot_git_ops.Driver.{DriverFault, DriverEvent}
use beta_boot_git_ops.Emission.{
  EmissionRecord, read, InstallmentKind, data_kind, comment_kind, InstallmentStatus, recovered_tail,
  wire, inter_read_gap, normalized_event, unhandled_channel, anomaly, StreamEndCause,
}
use beta_boot_git_ops.Emission
use beta_boot_git_ops.Handler.{
  EventHandler, StreamState, FlowDirective, continue, stop_complete, abort, refine, on_installment,
  finalize_attempt,
}
use beta_boot_git_ops.Machine.{EndCause}
use beta_boot_git_ops.Normalize.{SerdeJson, Normalized, normalize}
use beta_boot_git_ops.Sse.{SsePayload, comment, data_of, undecodable, SseEvent}
use beta_boot_git_ops.Base.{
  ℕ, ◌≤◌, ◌≡◌, refl, ◌∙◌, inl, inr, Option, none, some, List, [], ◌∷◌, map, Bool-cases, snoc,
  if◌then◌else◌, ◌==◌, All, All-append, Result, ok, err, Result-cases, Text,
}

module _ (cfg : OpenAiConfig) where
  -- A read that came by the overall deadline, and behind what was before it by the backstop, if it
  -- is the first, or by the stall timeout, if it is a later one; any other record.
  abbrev pub IsPunctual : EmissionRecord → Type 0
  IsPunctual (read _ _ seq at_ms _ _ gap_ms) =
      (at_ms ≤ as_millis cfg.overall_deadline)
      × (gap_ms ≤ as_millis (if seq == 1 then cfg.first_byte_backstop else cfg.stall_timeout))
  IsPunctual _ = Unit

  abbrev pub ArePunctual : EventHandler → Type 0
  ArePunctual h = All IsPunctual h.bus

  pub emitted :
      (h : List EmissionRecord) (r : EmissionRecord)
      → All IsPunctual h
      → IsPunctual r
      → All IsPunctual (snoc h r)
  emitted h r p q = All-append IsPunctual h (r ∷ []) p (q, tt)

  normalized-ArePunctual :
      (s a seq : ℕ) (es : List DriverEvent)
      → All IsPunctual (map (λ e. normalized_event s a seq e) es)
  normalized-ArePunctual s a seq [] = tt
  normalized-ArePunctual s a seq (e ∷ es) = (tt, normalized-ArePunctual s a seq es)

  channels-ArePunctual :
      (s a : ℕ) (chs : List Text) → All IsPunctual (map (λ ch. wire s a (unhandled_channel ch)) chs)
  channels-ArePunctual s a [] = tt
  channels-ArePunctual s a (ch ∷ chs) = (tt, channels-ArePunctual s a chs)

  anomalies-ArePunctual :
      (s a : ℕ) (notes : List Text) → All IsPunctual (map (λ note. anomaly s a note) notes)
  anomalies-ArePunctual s a [] = tt
  anomalies-ArePunctual s a (n ∷ ns) = (tt, anomalies-ArePunctual s a ns)

  refine-ArePunctual :
      (h : EventHandler) (st : StreamState) (seq : ℕ) (norm : Normalized) (o : Option ℕ)
      → ArePunctual h
      → ArePunctual (refine h st seq norm o).2
  unfolding refine
  refine-ArePunctual h st seq norm (some n) p = emitted h.bus _ p tt
  refine-ArePunctual h st seq norm none p =
      All-append IsPunctual _ _
        (All-append IsPunctual h.bus _ p
          (channels-ArePunctual st.stream_id st.attempt norm.unhandled_channels))
        (normalized-ArePunctual st.stream_id st.attempt seq norm.events)

  pub on_installment-ArePunctual :
      (j : SerdeJson) (h : EventHandler) (st : StreamState) (seq : ℕ) (kind : InstallmentKind)
      (payload : Text) (status : InstallmentStatus)
      → ArePunctual h
      → ArePunctual (on_installment j h st seq kind payload status).2
  unfolding on_installment
  on_installment-ArePunctual j h st seq comment_kind payload status p = p
  on_installment-ArePunctual j h st seq data_kind payload status p =
      elim (Result-cases (normalize j payload)) [
        | inl (norm, e) ↦
            rw (e, on_installment) (refine-ArePunctual h st seq norm norm.multiple_choices p)
        | inr (detail, e) ↦ rw (e, on_installment) (emitted h.bus _ p tt)
      ]

  pub finalize_attempt-ArePunctual :
      (h : EventHandler) (st : StreamState) (cause : EndCause)
      → ArePunctual h
      → ArePunctual (finalize_attempt h st cause).2
  unfolding finalize_attempt
  finalize_attempt-ArePunctual h st cause p =
      All-append IsPunctual h.bus _ p
        (anomalies-ArePunctual st.stream_id st.attempt st.machine.anomalies)

  module _ {F : Type 0} where
    -- The time of the last read and its number are as they were, and all records are punctual.
    pub record Keeps (r r' : Run F) : Type 0 where
      pub same_read : r'.last_read_at ≡ r.last_read_at
      pub same_seq : r'.read_seq ≡ r.read_seq
      pub punctual : ArePunctual r'.handler

    end_with-Keeps :
        (r : Run F) (cause : StreamEndCause) (v : EndCause)
        → ArePunctual r.handler
        → Keeps r (end_with r cause v).1
    unfolding end_with
    end_with-Keeps r cause v p = record {
      same_read = refl;
      same_seq = refl;
      punctual = finalize_attempt-ArePunctual _ r.st v (emitted r.handler.bus _ p tt);
    }

    flow-Keeps :
        (r : Run F) (before : ℕ) (answer : Result FlowDirective DriverFault)
        → ArePunctual r.handler
        → Keeps r (flow r before answer).1
    unfolding flow
    flow-Keeps r before (ok continue) p = record { same_read = refl; same_seq = refl; punctual = p }
    flow-Keeps r before (ok stop_complete) p = end_with-Keeps r _ _ p
    flow-Keeps r before (ok abort) p = end_with-Keeps r _ _ p
    flow-Keeps r before (err f) p = end_with-Keeps r _ _ p

    tell_ttft-Keeps : (r : Run F) (now : ℕ) → ArePunctual r.handler → Keeps r (tell_ttft r now)
    unfolding tell_ttft
    tell_ttft-Keeps r now p = elim (Bool-cases r.ttft_emitted) [
      | inl e ↦ rw e (record { same_read = refl; same_seq = refl; punctual = p })
      | inr e ↦
          rw e
            (record { same_read = refl; same_seq = refl; punctual = emitted r.handler.bus _ p tt })
    ]

    handle_data-Keeps :
        (j : SerdeJson) (r : Run F) (now gap bytes : ℕ) (d : Text)
        → ArePunctual r.handler
        → Keeps r (handle_data j r now gap bytes d).1
    unfolding handle_data tell_installment refined_run
    handle_data-Keeps j r now gap bytes d p =
        let told = tell_installment r bytes data_kind d Emission.complete in
        let spanned : Run F = record told { span_start = told.read_seq } in
        let timed = tell_ttft-Keeps spanned now (emitted r.handler.bus _ p tt) in
        let gapped : Run F =
          tell_of (tell_ttft spanned now)
            (λ s a. wire s a (inter_read_gap (as_millis gap) bytes)) in
        let answered =
          on_installment-ArePunctual j gapped.handler gapped.st gapped.inst_seq data_kind d
            Emission.complete (emitted (tell_ttft spanned now).handler.bus _ timed.punctual tt) in
        let answer =
          on_installment j gapped.handler gapped.st gapped.inst_seq data_kind d Emission.complete in
        let flown =
          flow-Keeps (refined_run gapped answer) gapped.st.content_bytes answer.0 answered in
        record {
          same_read = flown.same_read ∙ timed.same_read;
          same_seq = flown.same_seq ∙ timed.same_seq;
          punctual = flown.punctual;
        }

    handle_payload-Keeps :
        (j : SerdeJson) (r : Run F) (now gap bytes : ℕ) (x : SsePayload)
        → ArePunctual r.handler
        → Keeps r (handle_payload j r now gap bytes x).1
    unfolding handle_payload tell_undecodable tell_installment
    handle_payload-Keeps j r now gap bytes (undecodable raw error) p = record {
      same_read = refl;
      same_seq = refl;
      punctual = emitted r.handler.bus _ p tt;
    }
    handle_payload-Keeps j r now gap bytes (comment c) p = record {
      same_read = refl;
      same_seq = refl;
      punctual = emitted _ _ (emitted r.handler.bus _ p tt) tt;
    }
    handle_payload-Keeps j r now gap bytes (data_of d) p = handle_data-Keeps j r now gap bytes d p

    go_on-Keeps :
        (r : Run F) (x : Handled F) (k : Run F → Handled F)
        → Keeps r x.1
        → ((r' : Run F) → ArePunctual r'.handler → Keeps r' (k r').1)
        → Keeps r (go_on x k).1
    go_on-Keeps r (some e, r') k q h = q
    go_on-Keeps r (none, r') k q h =
        let q' = h r' q.punctual in
        record {
          same_read = q'.same_read ∙ q.same_read;
          same_seq = q'.same_seq ∙ q.same_seq;
          punctual = q'.punctual;
        }

    pub handle_frames-Keeps :
        (j : SerdeJson) (r : Run F) (now gap : ℕ) (evs : List SseEvent)
        → ArePunctual r.handler
        → Keeps r (handle_frames j r now gap evs).1
    unfolding handle_frames handle_frame next_installment
    handle_frames-Keeps j r now gap [] p = record {
      same_read = refl;
      same_seq = refl;
      punctual = p;
    }
    handle_frames-Keeps j r now gap (ev ∷ evs) p =
        let q = handle_payload-Keeps j (next_installment r) now gap ev.raw_byte_len ev.payload p in
        go_on-Keeps r (handle_frame j r now gap ev) (λ r'. handle_frames j r' now gap evs)
          (record { same_read = q.same_read; same_seq = q.same_seq; punctual = q.punctual })
          (λ r' p'. handle_frames-Keeps j r' now gap evs p')

    recover_payload-ArePunctual :
        (j : SerdeJson) (r : Run F) (bytes : ℕ) (x : SsePayload)
        → ArePunctual r.handler
        → ArePunctual (recover_payload j r bytes x).handler
    unfolding recover_payload tell_undecodable tell_installment refined_run
    recover_payload-ArePunctual j r bytes (undecodable raw error) p = emitted r.handler.bus _ p tt
    recover_payload-ArePunctual j r bytes (comment c) p =
        on_installment-ArePunctual j _ r.st _ comment_kind c recovered_tail
          (emitted r.handler.bus _ p tt)
    recover_payload-ArePunctual j r bytes (data_of d) p =
        on_installment-ArePunctual j _ r.st _ data_kind d recovered_tail
          (emitted r.handler.bus _ p tt)

    pub recover_frames-ArePunctual :
        (j : SerdeJson) (r : Run F) (evs : List SseEvent)
        → ArePunctual r.handler
        → ArePunctual (recover_frames j r evs).handler
    unfolding recover_frames next_installment
    recover_frames-ArePunctual j r [] p = p
    recover_frames-ArePunctual j r (ev ∷ evs) p =
        recover_frames-ArePunctual j
          (recover_payload j (next_installment r) ev.raw_byte_len ev.payload) evs
          (recover_payload-ArePunctual j (next_installment r) ev.raw_byte_len ev.payload p)
