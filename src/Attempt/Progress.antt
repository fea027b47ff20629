-- ===== src/Attempt/Progress.antt =====
-- What the steps of an attempt have in common: they add records of the attempt to those emitted,
-- and the machine has been fed exactly the events that these records tell of.
use beta_boot_git_ops.Driver.{DriverEvent}
use beta_boot_git_ops.Emission.{EmissionRecord, StreamEndCause, InstallmentKind, InstallmentStatus}
use beta_boot_git_ops.Handler.{Refined, EventHandler, StreamState, emit, emit_all, on_installment}
use beta_boot_git_ops.Handler.Installment.{
  Refines, keep_alive, malformed, several, refined, channel_records, event_records, refined_records,
  refined_state, on_installment-Refines,
}
use beta_boot_git_ops.Machine.{StreamMachine, feed, feed_all}
use beta_boot_git_ops.Normalize.{SerdeJson, Normalized}
use beta_boot_git_ops.Base.{
  ℕ, ◌^◌, ◌<◌, ◌≡◌, refl, sym, ap, ◌∙◌, subst, List, [], ◌∷◌, ◌++◌, append-nil, append_assoc, arith,
  All, All-append, Text,
}
use beta_boot_git_ops.Attempt.Records.{
  IsLabelled, event_in, end_in, events_in, ends_in, events_in-append, ends_in-append,
}

feed_all-append :
    (m : StreamMachine) (es fs : List DriverEvent)
    → feed_all m (es ++ fs) ≡ feed_all (feed_all m es) fs
unfolding feed_all
feed_all-append m [] fs = refl
feed_all-append m (e ∷ es) fs = feed_all-append (feed m e) es fs

-- From one handler and stream state to another, with these ends of the stream told.
pub record Progress (cs : List StreamEndCause) (h : EventHandler) (st : StreamState)
    (h' : EventHandler) (st' : StreamState) : Type 0 where
  pub added : List EmissionRecord
  pub emitted : h' ≡ emit_all h added
  pub labelled : All (IsLabelled st.stream_id st.attempt) added
  pub ends : ends_in added ≡ cs
  pub fed : st'.machine ≡ feed_all st.machine (events_in added)
  pub same_stream : st'.stream_id ≡ st.stream_id
  pub same_attempt : st'.attempt ≡ st.attempt
  pub word : st'.content_bytes < 2 ^ 64

pub Progress-refl :
    (h : EventHandler) (st : StreamState) → st.content_bytes < 2 ^ 64 → Progress [] h st h st
unfolding events_in ends_in feed_all
Progress-refl h st w = record {
  added = [];
  emitted = ap (λ b. record h { bus = b }) (sym (append-nil h.bus));
  labelled = tt;
  ends = refl;
  fed = refl;
  same_stream = refl;
  same_attempt = refl;
  word = w;
}

pub relabel :
    {s s' a a' : ℕ} (rs : List EmissionRecord)
    → s' ≡ s
    → a' ≡ a
    → All (IsLabelled s' a') rs
    → All (IsLabelled s a) rs
relabel {s = s} {a' = a'} rs p q l =
    subst (λ x. All (IsLabelled s x) rs) q (subst (λ x. All (IsLabelled x a') rs) p l)

pub Progress-trans :
    {cs ds : List StreamEndCause} {h h' h'' : EventHandler} {st st' st'' : StreamState}
    → Progress cs h st h' st'
    → Progress ds h' st' h'' st''
    → Progress (cs ++ ds) h st h'' st''
Progress-trans {h = h} {st = st} {st' = st'} p q = record {
  added = p.added ++ q.added;
  emitted =
      q.emitted
      ∙ rw p.emitted (ap (λ b. record h { bus = b }) (append_assoc h.bus p.added q.added));
  labelled =
      All-append (IsLabelled st.stream_id st.attempt) p.added q.added p.labelled
        (relabel q.added p.same_stream p.same_attempt q.labelled);
  ends = ends_in-append p.added q.added ∙ rw (p.ends, q.ends) refl;
  fed =
      q.fed
      ∙ rw (p.fed, events_in-append p.added q.added)
          (sym (feed_all-append st.machine (events_in p.added) (events_in q.added)));
  same_stream = q.same_stream ∙ p.same_stream;
  same_attempt = q.same_attempt ∙ p.same_attempt;
  word = q.word;
}

-- One record that tells of no event, and a change of the state that leaves the machine alone.
pub Progress-tell :
    (h : EventHandler) (st : StreamState) (r : EmissionRecord)
    → st.content_bytes < 2 ^ 64
    → IsLabelled st.stream_id st.attempt r
    → event_in r ≡ []
    → Progress (end_in r) h st (emit h r) st
unfolding events_in ends_in feed_all
Progress-tell h st r w l e = record {
  added = r ∷ [];
  emitted = refl;
  labelled = (l, tt);
  ends = append-nil (end_in r);
  fed = rw e;
  same_stream = refl;
  same_attempt = refl;
  word = w;
}

-- An installment's records tell of the events that it feeds to the machine.
module _ (st : StreamState) (seq : ℕ) where
  channels-IsLabelled :
      (cs : List Text) → All (IsLabelled st.stream_id st.attempt) (channel_records st cs)
  channels-IsLabelled [] = tt
  channels-IsLabelled (c ∷ cs) = ((refl, refl), channels-IsLabelled cs)

  events-IsLabelled :
      (es : List DriverEvent) → All (IsLabelled st.stream_id st.attempt) (event_records st seq es)
  events-IsLabelled [] = tt
  events-IsLabelled (e ∷ es) = ((refl, refl), events-IsLabelled es)

  events_in-channels : (cs : List Text) → events_in (channel_records st cs) ≡ []
  unfolding events_in
  events_in-channels [] = refl
  events_in-channels (c ∷ cs) = events_in-channels cs

  events_in-events : (es : List DriverEvent) → events_in (event_records st seq es) ≡ es
  unfolding events_in
  events_in-events [] = refl
  events_in-events (e ∷ es) = ap (◌∷◌ e) (events_in-events es)

  ends_in-channels : (cs : List Text) → ends_in (channel_records st cs) ≡ []
  unfolding ends_in
  ends_in-channels [] = refl
  ends_in-channels (c ∷ cs) = ends_in-channels cs

  ends_in-events : (es : List DriverEvent) → ends_in (event_records st seq es) ≡ []
  unfolding ends_in
  ends_in-events [] = refl
  ends_in-events (e ∷ es) = ends_in-events es

-- One record, with a change of the counters.
pub Progress-count :
    (h : EventHandler) (st st' : StreamState) (r : EmissionRecord)
    → st'.content_bytes < 2 ^ 64
    → IsLabelled st.stream_id st.attempt r
    → event_in r ≡ []
    → end_in r ≡ []
    → st'.machine ≡ st.machine
    → st'.stream_id ≡ st.stream_id
    → st'.attempt ≡ st.attempt
    → Progress [] h st (emit h r) st'
unfolding events_in ends_in feed_all
Progress-count h st st' r w l e z m s a = record {
  added = r ∷ [];
  emitted = refl;
  labelled = (l, tt);
  ends = rw z refl;
  fed = rw (e, m) refl;
  same_stream = s;
  same_attempt = a;
  word = w;
}

refined-Progress :
    (h : EventHandler) (st : StreamState) (seq : ℕ) (norm : Normalized)
    → Progress [] h st (emit_all h (refined_records st seq norm)) (refined_state st norm.events)
refined-Progress h st seq norm = record {
  added = refined_records st seq norm;
  emitted = refl;
  labelled =
      All-append (IsLabelled st.stream_id st.attempt) (channel_records st norm.unhandled_channels)
        (event_records st seq norm.events) (channels-IsLabelled st seq norm.unhandled_channels)
        (events-IsLabelled st seq norm.events);
  ends =
      ends_in-append (channel_records st norm.unhandled_channels) (event_records st seq norm.events)
      ∙ rw (ends_in-channels st seq norm.unhandled_channels, ends_in-events st seq norm.events)
          refl;
  fed = ap (feed_all st.machine) (
      sym (
        events_in-append (channel_records st norm.unhandled_channels)
          (event_records st seq norm.events)
        ∙ rw (
          events_in-channels st seq norm.unhandled_channels,
          events_in-events st seq norm.events,
        )));
  same_stream = refl;
  same_attempt = refl;
  word = omega arith;
}

module _ (j : SerdeJson) (h : EventHandler) (st : StreamState) (seq : ℕ) where
  Refines-Progress :
      {kind : InstallmentKind} {payload : Text} {x : Refined}
      → st.content_bytes < 2 ^ 64
      → Refines j h st seq kind payload x
      → Progress [] h st x.2 x.1
  Refines-Progress w (keep_alive k) = Progress-refl h st w
  Refines-Progress w (malformed detail k n) =
      Progress-count h st _ _ w (refl, refl) refl refl refl refl refl
  Refines-Progress w (several norm n k p m) = Progress-tell h st _ w (refl, refl) refl
  Refines-Progress w (refined norm k p m) = refined-Progress h st seq norm

  pub on_installment-Progress :
      (kind : InstallmentKind) (payload : Text) (status : InstallmentStatus)
      → st.content_bytes < 2 ^ 64
      → let x = on_installment j h st seq kind payload status in Progress [] h st x.2 x.1
  on_installment-Progress kind payload status w =
      Refines-Progress w (on_installment-Refines j h st seq w kind payload status)
