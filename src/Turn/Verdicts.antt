-- ===== src/Turn/Verdicts.antt =====
-- What a turn's verdict rests on, and what a turn adds to the records.
use beta_boot_git_ops.Attempt.Ends.{cause_of}
use beta_boot_git_ops.Attempt.Records.{IsLabelled, events_in, ends_in, ends_in-append}
use beta_boot_git_ops.Driver.{ChatOutcome, protocol}
use beta_boot_git_ops.Emission.{EmissionRecord, StreamEndCause, cancelled}
use beta_boot_git_ops.Handler.{EventHandler, emit, emit_all}
use beta_boot_git_ops.Machine.{stream_ended}
use beta_boot_git_ops.Machine.Verdict.{text_of, first_finish, last_usage}
use beta_boot_git_ops.Text.{codes}
use beta_boot_git_ops.Turn.{
  TurnVerdict, committed, failed_over, failed, Turning, Outcome, no_bucket,
}
use beta_boot_git_ops.Base.{
  ℕ, arith, length, inl, inr, suc, ◌+◌, ◌<◌, ◌≡◌, ◌≢◌, refl, sym, ap, ◌∙◌, ◌⊎◌, true, false, some,
  List, [], ◌∷◌, ◌++◌, append-nil, append_assoc, All, All-append, snoc,
}

-- A record of this stream, whatever its attempt.
abbrev pub IsOfStream : ℕ → EmissionRecord → Type 0
IsOfStream s r = (a : ℕ) × IsLabelled s a r

pub IsOfStream-All :
    (s a : ℕ) (rs : List EmissionRecord) → All (IsLabelled s a) rs → All (IsOfStream s) rs
IsOfStream-All s a [] l = tt
IsOfStream-All s a (r ∷ rs) (l, ls) = ((a, l), IsOfStream-All s a rs ls)

-- A handler that has emitted records of the stream, and is as it was in all else: its send buckets
-- with it.
pub record Told (s : ℕ) (h h' : EventHandler) : Type 0 where
  pub records : List EmissionRecord
  pub emitted : h' ≡ emit_all h records
  pub of_stream : All (IsOfStream s) records

pub Told-refl : (s : ℕ) (h : EventHandler) → Told s h h
Told-refl s h = record {
  records = [];
  emitted = ap (λ b. record h { bus = b }) (sym (append-nil h.bus));
  of_stream = tt;
}

pub Told-one :
    (s : ℕ) (h : EventHandler) (r : EmissionRecord) → IsOfStream s r → Told s h (emit h r)
Told-one s h r l = record { records = r ∷ []; emitted = refl; of_stream = (l, tt) }

pub Told-trans : {s : ℕ} {h h1 h' : EventHandler} → Told s h h1 → Told s h1 h' → Told s h h'
Told-trans {s = s} {h = h} p q = record {
  records = p.records ++ q.records;
  emitted =
      q.emitted
      ∙ rw p.emitted (ap (λ b. record h { bus = b }) (append_assoc h.bus p.records q.records));
  of_stream = All-append (IsOfStream s) p.records q.records p.of_stream q.of_stream;
}

-- The records of the attempt that an outcome was read from, among all that were emitted: they tell
-- of the outcome, and what was emitted behind them tells of no event.
pub record Evidence (o : ChatOutcome) (s a : ℕ) (bus : List EmissionRecord) : Type 0 where
  pub before : List EmissionRecord
  pub records : List EmissionRecord
  pub behind : List EmissionRecord
  pub parts : bus ≡ before ++ (records ++ behind)
  pub labelled : All (IsLabelled s a) records
  pub cause : StreamEndCause
  pub one_end : ends_in records ≡ cause ∷ []
  pub not_aborted : cause_of cause ≡ stream_ended
  pub content : o.content ≡ text_of (events_in records)
  pub finish_reason : first_finish (events_in records) ≡ some o.finish_reason
  pub usage : o.usage ≡ last_usage (events_in records)
  pub silence : events_in behind ≡ []

-- The last end of a stream that was told is this one.
abbrev pub EndsIn : StreamEndCause → EventHandler → Type 0
EndsIn c h = (before : List StreamEndCause) × (ends_in h.bus ≡ snoc before c)

pub EndsIn-emit :
    (c : StreamEndCause) (h : EventHandler) (r : EmissionRecord)
    → ends_in (r ∷ []) ≡ []
    → EndsIn c h
    → EndsIn c (emit h r)
EndsIn-emit c h r e (before, q) =
    (before, ends_in-append h.bus (r ∷ []) ∙ rw e (append-nil (ends_in h.bus)) ∙ q)

-- The last end that was told is no cancellation.
abbrev pub NotCancelled : EventHandler → Type 0
NotCancelled h = (c : StreamEndCause) × (c ≢ cancelled) × EndsIn c h

-- What a verdict rests on: an outcome on the records of the last attempt; a failover on a spent
-- allowance, where a failover exists; a fault on that the buckets are out, on a cancellation that
-- the last end of a stream tells of, or on a spent allowance where there is no failover.
abbrev pub Justified : TurnVerdict → Turning → Type 0
Justified (committed o) t = Evidence o t.st.stream_id t.st.attempt t.handler.bus
Justified (failed_over n) t =
    (n ≡ t.st.attempt) × (t.remaining_allowance ≡ 0) × (t.handler.knows_failover_exists ≡ true)
Justified (failed f) t =
    ((f ≡ no_bucket) × (t.handler.send_buckets ≡ 0))
    ⊎ (((f ≡ protocol (codes "cancelled")) × EndsIn cancelled t.handler)
        ⊎ ((t.remaining_allowance ≡ 0)
            × (t.handler.knows_failover_exists ≡ false)
            × NotCancelled t.handler))

-- How many ends of a stream have been told.
abbrev pub ends_of : EventHandler → ℕ
ends_of h = length (ends_in h.bus)

pub ends_of-emit :
    (h : EventHandler) (r : EmissionRecord) → ends_in (r ∷ []) ≡ [] → ends_of (emit h r) ≡ ends_of h
ends_of-emit h r e = ap length (ends_in-append h.bus (r ∷ []) ∙ rw e (append-nil (ends_in h.bus)))

-- One end has been told for each attempt since, but for the last one where it had no bucket.
abbrev pub Ended : ℕ → ℕ → TurnVerdict → Turning → Type 0
Ended ends attempts v last =
    (ends_of last.handler + attempts ≡ ends + last.st.attempt)
    ⊎ ((v ≡ failed no_bucket) × (suc (ends_of last.handler + attempts) ≡ ends + last.st.attempt))

-- From an attempt with its end on.
pub Ended-suc :
    {ends ends' attempts attempts' : ℕ} (v : TurnVerdict) (last : Turning)
    → ends' ≡ suc ends
    → attempts' ≡ suc attempts
    → Ended ends' attempts' v last
    → Ended ends attempts v last
Ended-suc v last e a (inl h) = inl (omega (arith, e, a, h))
Ended-suc v last e a (inr (denied, h)) = inr (denied, omega (arith, e, a, h))

-- How the turn's loop comes out, from these variables on.
pub record Turned (t : Turning) (out : Outcome) : Type 0 where
  pub verdict : TurnVerdict
  pub last : Turning
  pub result : out ≡ some (verdict, last)
  pub spent : last.st.attempt + last.remaining_allowance ≡ t.st.attempt + suc t.remaining_allowance
  pub began : t.st.attempt < last.st.attempt
  pub same_stream : last.st.stream_id ≡ t.st.stream_id
  pub told : Told t.st.stream_id t.handler last.handler
  pub justified : Justified verdict last
  pub ends : Ended (ends_of t.handler) t.st.attempt verdict last
