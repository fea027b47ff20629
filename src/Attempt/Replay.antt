-- ===== src/Attempt/Replay.antt =====
-- What an attempt ends in, said of the records that it emitted alone.
use beta_boot_git_ops.Attempt.{AttemptEnd, complete, wire_end, Reply}
use beta_boot_git_ops.Attempt.Ends.{cause_of, Ends}
use beta_boot_git_ops.Attempt.Loop.{run_attempt}
use beta_boot_git_ops.Attempt.Records.{
  IsLabelled, events_in, ends_in, events_in-append, ends_in-append,
}
use beta_boot_git_ops.Attempt.Whole.{run_attempt-Ends}
use beta_boot_git_ops.Config.{OpenAiConfig}
use beta_boot_git_ops.Driver.{DriverEvent, Usage, ChatOutcome}
use beta_boot_git_ops.Emission.{EmissionRecord, StreamEndCause, cancelled}
use beta_boot_git_ops.Handler.{
  EventHandler, StreamState, TurnResolution, emit_all, committed, resolution,
}
use beta_boot_git_ops.Machine.{
  StreamMachine, EndCause, stream_ended, handler_abort, feed_all, finalize,
}
use beta_boot_git_ops.Machine
use beta_boot_git_ops.Machine.Verdict.{
  text_of, first_finish, last_usage, verdict, finalize-feed_all,
}
use beta_boot_git_ops.Normalize.{SerdeJson}
use beta_boot_git_ops.Throughput.{Floats}
use beta_boot_git_ops.Base.{
  ℕ, ◌^◌, ◌<◌, ◌≡◌, ◌≢◌, refl, sym, ap, ◌∙◌, subst, Option, none, some, List, [], ◌∷◌, ◌++◌,
  append-nil, append_assoc, arith, All, All-append, Text,
}

-- The end of an attempt, from the machine it began with, the events and the end that its records
-- tell of.
abbrev pub EndOf : StreamMachine → List DriverEvent → StreamEndCause → AttemptEnd → Type 0
EndOf m es cause (wire_end c) = c ≡ cause
EndOf m es cause (complete res) = res ≡ resolution (finalize (feed_all m es) (cause_of cause))

-- The records of an attempt: each under its stream and number, one of them an end of the stream,
-- and the attempt's end the one that they replay to.
pub record Replays (h : EventHandler) (st : StreamState) (e : AttemptEnd) (h' : EventHandler)
    : Type 0 where
  pub records : List EmissionRecord
  pub emitted : h' ≡ emit_all h records
  pub labelled : All (IsLabelled st.stream_id st.attempt) records
  pub cause : StreamEndCause
  pub one_end : ends_in records ≡ cause ∷ []
  pub replayed : EndOf st.machine (events_in records) cause e
  pub cancels_on_wire : (res : TurnResolution) → e ≡ complete res → cause ≢ cancelled

-- What the attempt leaves of the stream's state.
pub record Keeps (st st' : StreamState) : Type 0 where
  pub same_stream : st'.stream_id ≡ st.stream_id
  pub same_attempt : st'.attempt ≡ st.attempt
  pub word : st'.content_bytes < 2 ^ 64

Ends-Replays :
    (h h' : EventHandler) (st st' : StreamState) (e : AttemptEnd)
    → Ends h st e h' st'
    → Replays h st e h'
Ends-Replays h h' st st' (wire_end cause) p = record {
  records = p.added;
  emitted = p.emitted;
  labelled = p.labelled;
  cause = cause;
  one_end = p.ends;
  replayed = refl;
  cancels_on_wire = λ res e. cc;
}
Ends-Replays h h' st st' (complete res) q =
    let p = q.progress in
    record {
      records = p.added ++ q.notes;
      emitted =
          q.noted
          ∙ rw p.emitted (ap (λ b. record h { bus = b }) (append_assoc h.bus p.added q.notes));
      labelled =
          All-append (IsLabelled st.stream_id st.attempt) p.added q.notes p.labelled q.labelled;
      cause = q.end;
      one_end = ends_in-append p.added q.notes ∙ rw (p.ends, q.no_ends) refl;
      replayed =
          q.judged
          ∙ rw
              (p.fed, events_in-append p.added q.notes, q.no_events, append-nil (events_in p.added))
              refl;
      cancels_on_wire = λ res e. q.not_cancelled;
    }

Ends-Keeps :
    (h h' : EventHandler) (st st' : StreamState) (e : AttemptEnd)
    → Ends h st e h' st'
    → Keeps st st'
Ends-Keeps h h' st st' (wire_end cause) p = record {
  same_stream = p.same_stream;
  same_attempt = p.same_attempt;
  word = p.word;
}
Ends-Keeps h h' st st' (complete res) q =
    let p = q.progress in
    record {
      same_stream = ap (λ s. s.stream_id) q.reset ∙ p.same_stream;
      same_attempt = ap (λ s. s.attempt) q.reset ∙ p.same_attempt;
      word = rw q.reset p.word;
    }

module _ (j : SerdeJson) (fl : Floats) (cfg : OpenAiConfig) where
  -- Where the count of content bytes fits 64 bits, the attempt's records replay to its end: all of them carry its stream and its number, exactly
  -- one of them tells of an end of the stream, an exit of the wire is the cause told, and an
  -- attempt that completed ended in the machine's verdict on just the events that the records
  -- tell of, for the end told, which is no cancellation.
  pub run_attempt-Replays :
      (reply : Reply) (h : EventHandler) (st : StreamState) (polls : ℕ)
      → st.content_bytes < 2 ^ 64
      → let (e, r) = run_attempt j fl cfg reply h st polls in Replays h st e r.handler
  run_attempt-Replays reply h st polls w =
      Ends-Replays h _ st _ (run_attempt j fl cfg reply h st polls).0
        (run_attempt-Ends j fl cfg reply h st polls w)

  pub run_attempt-Keeps :
      (reply : Reply) (h : EventHandler) (st : StreamState) (polls : ℕ)
      → st.content_bytes < 2 ^ 64
      → let (e, r) = run_attempt j fl cfg reply h st polls in Keeps st r.st
  run_attempt-Keeps reply h st polls w =
      Ends-Keeps h _ st _ (run_attempt j fl cfg reply h st polls).0
        (run_attempt-Ends j fl cfg reply h st polls w)

-- An outcome, its content, finish reason and usage those that the records tell of.
pub record Commits (h : EventHandler) (st : StreamState) (o : ChatOutcome) (h' : EventHandler)
    : Type 0 where
  pub records : List EmissionRecord
  pub emitted : h' ≡ emit_all h records
  pub labelled : All (IsLabelled st.stream_id st.attempt) records
  pub cause : StreamEndCause
  pub one_end : ends_in records ≡ cause ∷ []
  pub not_aborted : cause_of cause ≡ stream_ended
  pub content : o.content ≡ text_of (events_in records)
  pub finish_reason : first_finish (events_in records) ≡ some o.finish_reason
  pub usage : o.usage ≡ last_usage (events_in records)

verdict-committed :
    (c : EndCause) (t : Text) (f : Option Text) (u : Option Usage) (o : ChatOutcome)
    → committed o ≡ resolution (verdict c t f u)
    → (c ≡ stream_ended) × (o.content ≡ t) × (f ≡ some o.finish_reason) × (o.usage ≡ u)
unfolding resolution
verdict-committed handler_abort t f u o e = ground arith
verdict-committed stream_ended t (some r) u o e =
    let same : o ≡ record { content = t; finish_reason = r; usage = u } = cc in
    (
      refl,
      ap (λ o. o.content) same,
      ap (λ o. some o.finish_reason) (sym same),
      ap (λ o. o.usage) same,
    )
verdict-committed stream_ended [] none u o e = ground arith
verdict-committed stream_ended (x ∷ t) none u o e = ground arith

pub Replays-Commits :
    (h : EventHandler) (st : StreamState) (o : ChatOutcome) (h' : EventHandler)
    → st.machine ≡ Machine.new
    → Replays h st (complete (committed o)) h'
    → Commits h st o h'
Replays-Commits h st o h' m q =
    let (ended, content, finish_reason, usage) =
      verdict-committed (cause_of q.cause) (text_of (events_in q.records))
        (first_finish (events_in q.records)) (last_usage (events_in q.records)) o
        (q.replayed
          ∙ rw m (rw (finalize-feed_all (events_in q.records) (cause_of q.cause)) refl)) in
    record {
      records = q.records;
      emitted = q.emitted;
      labelled = q.labelled;
      cause = q.cause;
      one_end = q.one_end;
      not_aborted = ended;
      content = content;
      finish_reason = finish_reason;
      usage = usage;
    }

module _ (j : SerdeJson) (fl : Floats) (cfg : OpenAiConfig) where
  -- Commit only on evidence: an attempt that starts with a new machine and ends in an outcome has
  -- emitted one end of the stream, which is not the handler's abort, and events of which the
  -- outcome's content is the joined text, its finish reason the first one told, and its usage the
  -- last one told. The count of content bytes fits 64 bits.
  pub run_attempt-Commits :
      (reply : Reply) (h : EventHandler) (st : StreamState) (polls : ℕ) (o : ChatOutcome)
      → st.content_bytes < 2 ^ 64
      → st.machine ≡ Machine.new
      → (run_attempt j fl cfg reply h st polls).0 ≡ complete (committed o)
      → let (e, r) = run_attempt j fl cfg reply h st polls in Commits h st o r.handler
  run_attempt-Commits reply h st polls o w m e =
      Replays-Commits h st o (run_attempt j fl cfg reply h st polls).1.handler m (
        subst (λ x. Replays h st x (run_attempt j fl cfg reply h st polls).1.handler) e
          (run_attempt-Replays j fl cfg reply h st polls w))
