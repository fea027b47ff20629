-- ===== src/Turn/Rounds.antt =====
-- The rounds of a turn.
use beta_boot_git_ops.Attempt.{AttemptEnd, complete, wire_end}
use beta_boot_git_ops.Attempt.Records.{events_in, ends_in}
use beta_boot_git_ops.Attempt.Replay.{Commits}
use beta_boot_git_ops.Driver.{ChatOutcome, DriverFault, protocol}
use beta_boot_git_ops.Emission.{
  EmissionRecord, ledger, retry_allowance_spent, StreamEndCause, cancelled,
}
use beta_boot_git_ops.Handler.{
  EventHandler, StreamState, TurnResolution, emit, emit_all, begin_attempt, acquire_send_bucket,
  return_send_bucket, on_wire_fault, retry_same_endpoint, failover, give_up,
}
use beta_boot_git_ops.Handler
use beta_boot_git_ops.Text.{codes}
use beta_boot_git_ops.Turn.{
  TurnVerdict, committed, failed_over, failed, Turning, Outcome, obey, faulted, conclude,
  is_cancelled, wire_fault,
}
use beta_boot_git_ops.Turn.Verdicts.{
  Told, Told-one, Told-trans, Evidence, Justified, Turned, EndsIn, NotCancelled, ends_of,
  ends_of-emit, Ended, Ended-suc,
}
use beta_boot_git_ops.Base.{
  ℕ, zero, suc, ◌+◌, ◌^◌, ◌<◌, ◌≡◌, ◌≢◌, refl, sym, ap, ◌∙◌, subst, inl, inr, Bool, true, false,
  some, [], ◌∷◌, append_assoc, arith, if◌then◌else◌, Bool-cases, snoc,
}

-- What every round of the loop is handed: no count is near its width.
pub record Fits (t : Turning) : Type 0 where
  pub word : t.st.content_bytes < 2 ^ 64
  pub attempts : t.st.attempt + suc t.remaining_allowance < 2 ^ 32
  pub buckets : t.handler.send_buckets < 2 ^ 32

-- A round up to the directive on its end.
pub record Round (t t1 : Turning) : Type 0 where
  pub attempt : t1.st.attempt ≡ suc t.st.attempt
  pub allowance : t1.remaining_allowance ≡ t.remaining_allowance
  pub same_stream : t1.st.stream_id ≡ t.st.stream_id
  pub told : Told t.st.stream_id t.handler t1.handler

abbrev pub OneEnd : Turning → Turning → Type 0
OneEnd t t1 = ends_of t1.handler ≡ suc (ends_of t.handler)

-- The rounds that may follow come out as they should.
abbrev pub GoesOn : Turning → (Turning → Outcome) → Type 0
GoesOn t1 retry =
    (t2 : Turning)
    → t2.st ≡ t1.st
    → suc t2.remaining_allowance ≡ t1.remaining_allowance
    → t2.handler.send_buckets ≡ t1.handler.send_buckets
    → Turned t2 (retry t2)

pub settled :
    {t t1 : Turning} (n : ℕ) (verdict : TurnVerdict)
    → Round t t1
    → t1.remaining_allowance ≡ n
    → (let last : Turning = record t1 { remaining_allowance = n } in Justified verdict last)
    → Ended (ends_of t.handler) t.st.attempt verdict t1
    → Turned t (some (verdict, record t1 { remaining_allowance = n }))
settled {t} {t1} n verdict p e q ends = record {
  verdict = verdict;
  last = record t1 { remaining_allowance = n };
  result = refl;
  spent = omega (arith, p.attempt, p.allowance, e);
  began = omega (arith, p.attempt);
  same_stream = p.same_stream;
  told = p.told;
  justified = q;
  ends = ends;
}

-- A round that goes on, and what follows.
retried :
    (t t1 t2 : Turning) (out : Outcome)
    → Round t t1
    → t2.st ≡ t1.st
    → suc t2.remaining_allowance ≡ t1.remaining_allowance
    → Told t1.st.stream_id t1.handler t2.handler
    → OneEnd t t1
    → ends_of t2.handler ≡ ends_of t1.handler
    → Turned t2 out
    → Turned t out
retried t t1 t2 out p same e q one quiet r =
    let attempt : t2.st.attempt ≡ t1.st.attempt = ap (λ s. s.attempt) same in
    let stream : t2.st.stream_id ≡ t.st.stream_id = ap (λ s. s.stream_id) same ∙ p.same_stream in
    record {
      verdict = r.verdict;
      last = r.last;
      result = r.result;
      spent = omega (arith, r.spent, attempt, p.attempt, p.allowance, e);
      began = omega (arith, r.began, attempt, p.attempt);
      same_stream = r.same_stream ∙ stream;
      told = Told-trans p.told (
          Told-trans (subst (λ s. Told s t1.handler t2.handler) p.same_stream q)
            (subst (λ s. Told s t2.handler r.last.handler) stream r.told));
      justified = r.justified;
      ends =
          Ended-suc r.verdict r.last (omega (arith, quiet, one)) (omega (arith, attempt, p.attempt))
            r.ends;
    }

on_wire_fault-spent :
    (h : EventHandler) (s a : ℕ) (b : Bool)
    → h.knows_failover_exists ≡ b
    → on_wire_fault h s a 0 ≡ (if b then failover else give_up, 0, h)
unfolding on_wire_fault
on_wire_fault-spent h s a b e = ap (λ b. (if b then failover else give_up, 0, h)) e

faulted-Turned :
    (f : DriverFault) (t t1 : Turning) (retry : Turning → Outcome) (n : ℕ)
    → t1.remaining_allowance ≡ n
    → Round t t1
    → OneEnd t t1
    → NotCancelled t1.handler
    → GoesOn t1 retry
    → Turned t (faulted f t1 retry)
unfolding faulted obey on_wire_fault ends_in
faulted-Turned f t t1 retry zero e p one live on =
    let directed = on_wire_fault t1.handler t1.st.stream_id t1.st.attempt t1.remaining_allowance in
    let known : (b : Bool)
        → t1.handler.knows_failover_exists ≡ b
        → directed ≡ (if b then failover else give_up, 0, t1.handler) =
      λ b q.
        ap (on_wire_fault t1.handler t1.st.stream_id t1.st.attempt) e
        ∙ on_wire_fault-spent t1.handler t1.st.stream_id t1.st.attempt b q in
    elim (Bool-cases t1.handler.knows_failover_exists) [
      | inl q ↦
          subst (λ d. Turned t (obey d f t1 retry)) (sym (known true q))
            (settled 0 (failed_over t1.st.attempt) p e (refl, refl, q)
              (inl (omega (arith, one, p.attempt))))
      | inr q ↦
          subst (λ d. Turned t (obey d f t1 retry)) (sym (known false q))
            (settled 0 (failed f) p e (inr (inr (refl, q, live)))
              (inl (omega (arith, one, p.attempt))))
    ]
faulted-Turned f t t1 retry (suc n) e p one live on =
    let told = emit t1.handler (ledger t1.st.stream_id t1.st.attempt (retry_allowance_spent n)) in
    let t2 : Turning = record t1 { remaining_allowance = n; handler = told } in
    subst
      (λ r. Turned t (obey (on_wire_fault t1.handler t1.st.stream_id t1.st.attempt r) f t1 retry))
      (sym e)
      (retried t t1 t2 (retry t2) p refl (sym e)
        (Told-one t1.st.stream_id t1.handler _ (t1.st.attempt, (refl, refl))) one
        (ends_of-emit t1.handler _ refl) (on t2 refl (sym e) refl))

goes_on : (c : StreamEndCause) → is_cancelled c ≡ false → c ≢ cancelled
unfolding is_cancelled
goes_on c e same = ground (arith, e, same)

was_cancelled : (c : StreamEndCause) → is_cancelled c ≡ true → c ≡ cancelled
unfolding is_cancelled
was_cancelled c e = ground (arith, e)

pub conclude-Turned :
    (e : AttemptEnd) (t t1 : Turning) (retry : Turning → Outcome)
    → Round t t1
    → OneEnd t t1
    → ((o : ChatOutcome)
        → e ≡ complete (Handler.committed o)
        → Evidence o t1.st.stream_id t1.st.attempt t1.handler.bus)
    → ((c : StreamEndCause) → e ≡ wire_end c → EndsIn c t1.handler)
    → ((res : TurnResolution) → e ≡ complete res → NotCancelled t1.handler)
    → GoesOn t1 retry
    → Turned t (conclude e t1 retry)
unfolding conclude
conclude-Turned (complete (Handler.committed o)) t t1 retry p one evidence ended completed on =
    settled t1.remaining_allowance (committed o) p refl (evidence o refl)
      (inl (omega (arith, one, p.attempt)))
conclude-Turned (complete (Handler.fault f)) t t1 retry p one evidence ended completed on =
    faulted-Turned f t t1 retry t1.remaining_allowance refl p one (completed _ refl) on
conclude-Turned (wire_end cause) t t1 retry p one evidence ended completed on =
    elim (Bool-cases (is_cancelled cause)) [
      | inl e ↦ rw e (
          settled t1.remaining_allowance (failed (protocol (codes "cancelled"))) p refl
            (inr (
              inl (
                refl,
                subst (λ c. EndsIn c t1.handler) (was_cancelled cause e) (ended cause refl),
              )))
            (inl (omega (arith, one, p.attempt))))
      | inr e ↦ rw e (
          faulted-Turned (wire_fault cause) t t1 retry t1.remaining_allowance refl p one
            (cause, goes_on cause e, ended cause refl) on)
    ]

-- What one more record behind the attempt leaves of the evidence.
pub Commits-Evidence :
    (h : EventHandler) (st : StreamState) (o : ChatOutcome) (h' : EventHandler) (r : EmissionRecord)
    → events_in (r ∷ []) ≡ []
    → Commits h st o h'
    → Evidence o st.stream_id st.attempt (snoc h'.bus r)
Commits-Evidence h st o h' r e c = record {
  before = h.bus;
  records = c.records;
  behind = r ∷ [];
  parts = rw c.emitted (append_assoc h.bus c.records (r ∷ []));
  labelled = c.labelled;
  cause = c.cause;
  one_end = c.one_end;
  not_aborted = c.not_aborted;
  content = c.content;
  finish_reason = c.finish_reason;
  usage = c.usage;
  silence = e;
}
