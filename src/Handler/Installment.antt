-- ===== src/Handler/Installment.antt =====
-- `on_installment` on every branch.
use beta_boot_git_ops.Text.Utf8.{byte_len, encode}
use beta_boot_git_ops.Driver.{DriverEvent, text_delta, finish, usage, done, protocol}
use beta_boot_git_ops.Emission.{
  EmissionRecord, normalized_event, normalization_error, wire, InstallmentKind, data_kind,
  comment_kind, InstallmentStatus, unhandled_channel,
}
use beta_boot_git_ops.Machine.{feed_all}
use beta_boot_git_ops.Machine.Verdict.{text_of}
use beta_boot_git_ops.Normalize.{SerdeJson, Normalized, normalize}
use beta_boot_git_ops.Handler.{
  continue, stop_complete, StreamState, EventHandler, emit, emit_all, count_text, take_event,
  is_done, take_events, Refined, several_choices, refine, on_installment,
}
use beta_boot_git_ops.Base.{
  ℕ, ◌+◌, ◌^◌, ◌<◌, ◌≡◌, refl, ◌∙◌, inl, inr, Bool, true, false, ◌||◌, Option, none, some, List, [],
  ◌∷◌, ◌++◌, map, append_assoc, arith, if◌then◌else◌, length, length-append, ok, err, Result-cases,
  u64, Text,
}

encode-append : (s t : Text) → encode (s ++ t) ≡ encode s ++ encode t
unfolding encode
encode-append [] t = refl
encode-append (c ∷ s) t = simp (encode-append s t, append_assoc)

pub byte_len-append : (s t : Text) → byte_len (s ++ t) ≡ byte_len s + byte_len t
byte_len-append s t = rw (encode-append s t) (length-append (encode s) (encode t))

-- Is there a sentinel, and is there text?
abbrev pub has_done : List DriverEvent → Bool
has_done [] = false
has_done (text_delta t ∷ es) = has_done es
has_done (finish r ∷ es) = has_done es
has_done (usage p c t ∷ es) = has_done es
has_done (done ∷ es) = true

abbrev pub has_text : List DriverEvent → Bool
has_text [] = false
has_text (text_delta t ∷ es) = true
has_text (finish r ∷ es) = has_text es
has_text (usage p c t ∷ es) = has_text es
has_text (done ∷ es) = has_text es

-- The state that these events lead to.
abbrev pub state_after : StreamState → List DriverEvent → StreamState
state_after st es = record st {
  machine = feed_all st.machine es;
  content_bytes = u64 (st.content_bytes + byte_len (text_of es));
  saw_any_content = st.saw_any_content || has_text es;
}

take_events-state_after :
    (es : List DriverEvent) (st : StreamState) (saw : Bool)
    → st.content_bytes < 2 ^ 64
    → take_events st saw es ≡ (state_after st es, saw || has_done es)
unfolding take_events take_event is_done feed_all count_text encode
take_events-state_after [] st saw h = ground arith
take_events-state_after (text_delta t ∷ es) st saw h =
    take_events-state_after es (take_event st (text_delta t)) (saw || false) (omega arith)
    ∙ ground (arith, byte_len-append t (text_of es))
take_events-state_after (finish r ∷ es) st saw h =
    take_events-state_after es (take_event st (finish r)) (saw || false) h ∙ ground arith
take_events-state_after (usage p c t ∷ es) st saw h =
    take_events-state_after es (take_event st (usage p c t)) (saw || false) h ∙ ground arith
take_events-state_after (done ∷ es) st saw h =
    take_events-state_after es (take_event st done) (saw || true) h ∙ ground arith

-- The state after an installment with these events, its counters included.
abbrev pub refined_state : StreamState → List DriverEvent → StreamState
refined_state st es = record (state_after st es) {
  installments = u64 (st.installments + 1);
  events = u64 (st.events + length es);
}

-- One record for each channel that is not interpreted, then one for each event.
abbrev pub channel_records : StreamState → List Text → List EmissionRecord
channel_records st = map (λ ch. wire st.stream_id st.attempt (unhandled_channel ch))

abbrev pub event_records : StreamState → ℕ → List DriverEvent → List EmissionRecord
event_records st seq = map (λ e. normalized_event st.stream_id st.attempt seq e)

abbrev pub refined_records : StreamState → ℕ → Normalized → List EmissionRecord
refined_records st seq norm =
    channel_records st norm.unhandled_channels ++ event_records st seq norm.events

module _ (j : SerdeJson) (h : EventHandler) (st : StreamState) (seq : ℕ) where
  -- What an installment should do: four ways.
  pub data Refines (kind : InstallmentKind) (payload : Text) : Refined → Type 0 where
    keep_alive : kind ≡ comment_kind → Refines kind payload (ok continue, st, h)
    malformed :
        (detail : Text)
        → kind ≡ data_kind
        → normalize j payload ≡ err detail
        → Refines kind payload (
          err (protocol detail),
          record st { norm_errors = u64 (st.norm_errors + 1) },
          emit h (normalization_error st.stream_id st.attempt seq detail),
        )
    several :
        (norm : Normalized) (n : ℕ)
        → kind ≡ data_kind
        → normalize j payload ≡ ok norm
        → norm.multiple_choices ≡ some n
        → Refines kind payload (
          err (protocol (several_choices n)),
          st,
          emit h (normalization_error st.stream_id st.attempt seq (several_choices n)),
        )
    refined :
        (norm : Normalized)
        → kind ≡ data_kind
        → normalize j payload ≡ ok norm
        → norm.multiple_choices ≡ none
        → Refines kind payload (
          ok (if has_done norm.events then stop_complete else continue),
          refined_state st norm.events,
          emit_all h (refined_records st seq norm),
        )

  module _ (word : st.content_bytes < 2 ^ 64) where
    refine-Refines :
        (payload : Text) (norm : Normalized) (o : Option ℕ)
        → normalize j payload ≡ ok norm
        → norm.multiple_choices ≡ o
        → Refines data_kind payload (refine h st seq norm o)
    unfolding refine
    refine-Refines payload norm (some n) p e = several norm n refl p e
    refine-Refines payload norm none p e =
        let counted : StreamState = record st {
          installments = u64 (st.installments + 1);
          events = u64 (st.events + length norm.events);
        } in
        rw (take_events-state_after norm.events counted false word, append_assoc)
          (refined norm refl p e)

    -- On every branch, where the count of content bytes fits 64 bits. A comment changes nothing. A payload that cannot be normalized, or with
    -- several choices, is a protocol fault, recorded, and feeds nothing to the machine. Any other
    -- feeds its events to the machine, counts the bytes of its text, records each channel that is
    -- not interpreted and then each event, and stops exactly where a sentinel is among the events.
    pub on_installment-Refines :
        (kind : InstallmentKind) (payload : Text) (status : InstallmentStatus)
        → Refines kind payload (on_installment j h st seq kind payload status)
    unfolding on_installment
    on_installment-Refines comment_kind payload status = keep_alive refl
    on_installment-Refines data_kind payload status = elim (Result-cases (normalize j payload)) [
      | inl (norm, p) ↦
          rw (p, on_installment) (refine-Refines payload norm norm.multiple_choices p refl)
      | inr (detail, p) ↦ rw (p, on_installment) (malformed detail refl p)
    ]
