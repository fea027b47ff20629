-- ===== src/Attempt/Ends.antt =====
-- How an attempt may end.
use beta_boot_git_ops.Attempt.{AttemptEnd, complete, wire_end}
use beta_boot_git_ops.Attempt.Records.{
  IsLabelled, event_in, end_in, events_in-append, ends_in-append, events_in, ends_in,
}
use beta_boot_git_ops.Attempt.Progress.{Progress, Progress-trans, relabel}
use beta_boot_git_ops.Emission.{
  EmissionRecord, StreamEndCause, cancelled, handler_directed, anomaly,
}
use beta_boot_git_ops.Handler.{
  EventHandler, StreamState, emit, emit_all, TurnResolution, resolution, finalize_attempt,
}
use beta_boot_git_ops.Machine
use beta_boot_git_ops.Machine.{EndCause, stream_ended, handler_abort, finalize}
use beta_boot_git_ops.Base.{
  ℕ, ◌≡◌, ◌≢◌, refl, ap, ◌∙◌, List, [], ◌∷◌, ◌++◌, map, append_assoc, All, All-append, Text,
}

-- What an end of the stream asks of the machine: the handler's directives abort, and every other
-- end leaves the verdict to the evidence.
abbrev pub cause_of : StreamEndCause → EndCause
cause_of (handler_directed d) = handler_abort
cause_of _ = stream_ended

-- The machine's verdict on the attempt, after the end of the stream was told. What is told behind
-- it tells of no event and of no end.
pub record Judged (h : EventHandler) (st : StreamState) (res : TurnResolution) (h' : EventHandler)
    (st' : StreamState) : Type 0 where
  pub told : EventHandler
  pub last : StreamState
  pub end : StreamEndCause
  pub not_cancelled : end ≢ cancelled
  pub progress : Progress (end ∷ []) h st told last
  pub judged : res ≡ resolution (finalize last.machine (cause_of end))
  pub notes : List EmissionRecord
  pub noted : h' ≡ emit_all told notes
  pub labelled : All (IsLabelled st.stream_id st.attempt) notes
  pub no_events : events_in notes ≡ []
  pub no_ends : ends_in notes ≡ []
  pub reset : st' ≡ record last { machine = Machine.new }

abbrev pub Ends : EventHandler → StreamState → AttemptEnd → EventHandler → StreamState → Type 0
Ends h st (wire_end cause) h' st' = Progress (cause ∷ []) h st h' st'
Ends h st (complete res) h' st' = Judged h st res h' st'

pub Ends-after :
    {h h1 : EventHandler} {st st1 : StreamState} (e : AttemptEnd) (h' : EventHandler)
    (st' : StreamState)
    → Progress [] h st h1 st1
    → Ends h1 st1 e h' st'
    → Ends h st e h' st'
Ends-after (wire_end cause) h' st' p q = Progress-trans p q
Ends-after {st = st} {st1 = st1} (complete res) h' st' p q = record {
  told = q.told;
  last = q.last;
  progress = Progress-trans p q.progress;
  end = q.end;
  not_cancelled = q.not_cancelled;
  judged = q.judged;
  notes = q.notes;
  noted = q.noted;
  labelled = relabel q.notes p.same_stream p.same_attempt q.labelled;
  no_events = q.no_events;
  no_ends = q.no_ends;
  reset = q.reset;
}

module _ (s a : ℕ) where
  anomalies-IsLabelled : (ns : List Text) → All (IsLabelled s a) (map (λ n. anomaly s a n) ns)
  anomalies-IsLabelled [] = tt
  anomalies-IsLabelled (n ∷ ns) = ((refl, refl), anomalies-IsLabelled ns)

  events_in-anomalies : (ns : List Text) → events_in (map (λ n. anomaly s a n) ns) ≡ []
  unfolding events_in
  events_in-anomalies [] = refl
  events_in-anomalies (n ∷ ns) = events_in-anomalies ns

  ends_in-anomalies : (ns : List Text) → ends_in (map (λ n. anomaly s a n) ns) ≡ []
  unfolding ends_in
  ends_in-anomalies [] = refl
  ends_in-anomalies (n ∷ ns) = ends_in-anomalies ns

pub finalize_attempt-Judged :
    {h told : EventHandler} {st last : StreamState} (end : StreamEndCause)
    → end ≢ cancelled
    → Progress (end ∷ []) h st told last
    → let x = finalize_attempt told last (cause_of end) in Judged h st x.0 x.2 x.1
unfolding finalize_attempt
finalize_attempt-Judged {told = told} {last = last} end live p = record {
  told = told;
  last = last;
  progress = p;
  end = end;
  not_cancelled = live;
  judged = refl;
  notes = map (λ n. anomaly last.stream_id last.attempt n) last.machine.anomalies;
  noted = refl;
  labelled =
      relabel (map (λ n. anomaly last.stream_id last.attempt n) last.machine.anomalies)
        p.same_stream p.same_attempt
        (anomalies-IsLabelled last.stream_id last.attempt last.machine.anomalies);
  no_events = events_in-anomalies last.stream_id last.attempt last.machine.anomalies;
  no_ends = ends_in-anomalies last.stream_id last.attempt last.machine.anomalies;
  reset = refl;
}

-- One more record behind the verdict.
pub Judged-note :
    {h h' : EventHandler} {st st' : StreamState} {res : TurnResolution} (r : EmissionRecord)
    → IsLabelled st.stream_id st.attempt r
    → event_in r ≡ []
    → end_in r ≡ []
    → Judged h st res h' st'
    → Judged h st res (emit h' r) st'
unfolding events_in ends_in
Judged-note {st = st} r l e z q = record {
  told = q.told;
  last = q.last;
  progress = q.progress;
  end = q.end;
  not_cancelled = q.not_cancelled;
  judged = q.judged;
  notes = q.notes ++ (r ∷ []);
  noted =
      rw q.noted (ap (λ b. record q.told { bus = b }) (append_assoc q.told.bus q.notes (r ∷ [])));
  labelled = All-append (IsLabelled st.stream_id st.attempt) q.notes (r ∷ []) q.labelled (l, tt);
  no_events = events_in-append q.notes (r ∷ []) ∙ rw (q.no_events, e) refl;
  no_ends = ends_in-append q.notes (r ∷ []) ∙ rw (q.no_ends, z) refl;
  reset = q.reset;
}
