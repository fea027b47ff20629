-- ===== src/Turn/Outcomes.antt =====
-- A whole turn: what it returns and what it leaves in the records.
use beta_boot_git_ops.Turn.Completed.{Evidence-snoc, execute_turn-Completed, execute_turn-Returned}
use beta_boot_git_ops.Attempt.{Reply}
use beta_boot_git_ops.Attempt.Records.{ends_in, events_in}
use beta_boot_git_ops.Config.{OpenAiConfig}
use beta_boot_git_ops.Driver.{ChatOutcome, DriverFault, protocol}
use beta_boot_git_ops.Emission.{StreamId, cancelled}
use beta_boot_git_ops.Handler.{EventHandler, emit}
use beta_boot_git_ops.Normalize.{SerdeJson}
use beta_boot_git_ops.Text.{codes}
use beta_boot_git_ops.Throughput.{Floats}
use beta_boot_git_ops.Turn.{
  TurnVerdict, committed, failed_over, failed, Turning, trailer, execute_turn, no_bucket,
}
use beta_boot_git_ops.Turn.Verdicts.{
  EndsIn, NotCancelled, EndsIn-emit, ends_of, ends_of-emit, Told, Evidence,
}
use beta_boot_git_ops.Base.{
  ℕ, suc, ◌+◌, ◌^◌, ◌≤◌, ◌<◌, ◌≡◌, refl, sym, ap, ◌∙◌, subst, ◌⊎◌, inl, inr, true, false, some,
  arith,
}

module _ (j : SerdeJson) (fl : Floats) (cfg : OpenAiConfig) where
  -- Where the allowance, one more, and the buckets fit 32 bits, a turn returns, whatever the
  -- requests are answered with, each by finitely many wakeups, and gives back every bucket that it took; the attempts that its
  -- trailer counts are at least one and at most one more than the allowance.
  pub execute_turn-returns :
      (id : StreamId) (replies : ℕ → Reply) (h : EventHandler)
      → suc h.retry_allowance_per_turn < 2 ^ 32
      → h.send_buckets < 2 ^ 32
      → (x : TurnVerdict × Turning) × (execute_turn j fl cfg id replies h
          ≡ some (x.0, emit x.1.handler (trailer id x.0 x.1)))
        × (x.1.handler.send_buckets ≡ h.send_buckets)
        × (1 ≤ x.1.st.attempt)
        × (x.1.st.attempt ≤ suc h.retry_allowance_per_turn)
  execute_turn-returns id replies h small buckets =
      let q = execute_turn-Completed j fl cfg id replies h small buckets in
      (
        (q.verdict, q.last),
        q.result,
        ap (λ h. h.send_buckets) q.told.emitted,
        q.began,
        omega (arith, q.spent),
      )

  -- Every record that a turn adds is one of its stream, except for the last, which is the trailer
  -- with the turn's verdict; and the handler is as it was in all but its records. The allowance,
  -- one more, and the buckets fit 32 bits.
  pub execute_turn-Told :
      (id : StreamId) (replies : ℕ → Reply) (h h' : EventHandler) (v : TurnVerdict)
      → suc h.retry_allowance_per_turn < 2 ^ 32
      → h.send_buckets < 2 ^ 32
      → execute_turn j fl cfg id replies h ≡ some (v, h')
      → (t : Turning) × Told id h t.handler × (h' ≡ emit t.handler (trailer id v t))
  execute_turn-Told id replies h h' v small buckets e =
      let q = execute_turn-Returned j fl cfg id replies h h' v small buckets e in
      (q.last, q.told, q.emitted)

  -- A turn that commits an outcome has emitted, for one of its attempts, records that carry the
  -- turn's stream and the attempt's number, with one end of the stream that is no abort, and that
  -- tell of events of which the outcome has the joined text, the first finish reason and the last
  -- usage. No event is told of behind them. The allowance, one more, and the buckets fit 32 bits.
  pub execute_turn-committed :
      (id : StreamId) (replies : ℕ → Reply) (h h' : EventHandler) (o : ChatOutcome)
      → suc h.retry_allowance_per_turn < 2 ^ 32
      → h.send_buckets < 2 ^ 32
      → execute_turn j fl cfg id replies h ≡ some (committed o, h')
      → (a : ℕ) × (1 ≤ a) × (a ≤ suc h.retry_allowance_per_turn) × Evidence o id a h'.bus
  unfolding events_in trailer
  execute_turn-committed id replies h h' o small buckets e =
      let q = execute_turn-Returned j fl cfg id replies h h' (committed o) small buckets e in
      let found : Evidence o id q.last.st.attempt q.last.handler.bus =
        subst (λ s. Evidence o s q.last.st.attempt q.last.handler.bus) q.same_stream q.justified in
      (
        q.last.st.attempt,
        q.began,
        omega (arith, q.spent),
        subst (Evidence o id q.last.st.attempt) (sym (ap (λ x. x.bus) q.emitted))
            (Evidence-snoc (trailer id (committed o) q.last) refl found),
      )

  -- A turn fails over only where the handler knows that there is a failover, and only when the
  -- whole allowance is spent: after as many attempts as the allowance, and one. The allowance, one
  -- more, and the buckets fit 32 bits.
  pub execute_turn-failed_over :
      (id : StreamId) (replies : ℕ → Reply) (h h' : EventHandler) (n : ℕ)
      → suc h.retry_allowance_per_turn < 2 ^ 32
      → h.send_buckets < 2 ^ 32
      → execute_turn j fl cfg id replies h ≡ some (failed_over n, h')
      → (n ≡ suc h.retry_allowance_per_turn) × (h.knows_failover_exists ≡ true)
  execute_turn-failed_over id replies h h' n small buckets e =
      let q = execute_turn-Returned j fl cfg id replies h h' (failed_over n) small buckets e in
      let (attempts, none_left, known) = q.justified in
      (
        omega (arith, attempts, none_left, q.spent),
        sym (ap (λ x. x.knows_failover_exists) q.told.emitted) ∙ known,
      )

  -- A turn that fails was denied a bucket because there was none; or fails as cancelled, and the last
  -- end of a stream that the records tell of is a cancellation; or has made as many attempts as the
  -- allowance, and one, with no failover to turn to, and the last end told is no cancellation. The allowance, one more, and the buckets fit 32
  -- bits.
  pub execute_turn-failed :
      (id : StreamId) (replies : ℕ → Reply) (h h' : EventHandler) (f : DriverFault)
      → suc h.retry_allowance_per_turn < 2 ^ 32
      → h.send_buckets < 2 ^ 32
      → execute_turn j fl cfg id replies h ≡ some (failed f, h')
      → ((f ≡ no_bucket) × (h.send_buckets ≡ 0))
        ⊎ (((f ≡ protocol (codes "cancelled")) × EndsIn cancelled h')
            ⊎ (((t : Turning) × (h' ≡ emit t.handler (trailer id (failed f) t))
                  × (t.st.attempt ≡ suc h.retry_allowance_per_turn))
                × (h.knows_failover_exists ≡ false)
                × NotCancelled h'))
  unfolding ends_in trailer
  execute_turn-failed id replies h h' f small buckets e =
      let q = execute_turn-Returned j fl cfg id replies h h' (failed f) small buckets e in
      let knows = ap (λ x. x.knows_failover_exists) q.told.emitted in
      let free = ap (λ x. x.send_buckets) q.told.emitted in
      elim q.justified [
        | inl (denied, none_free) ↦ inl (denied, sym free ∙ none_free)
        | inr (inl (named, told)) ↦ inr (
            inl (
              named,
              subst (EndsIn cancelled) (sym q.emitted)
                  (EndsIn-emit cancelled q.last.handler _ refl told),
            ))
        | inr (inr (none_left, alone, (cause, live, told))) ↦ inr (
            inr (
              (q.last, q.emitted, omega (arith, q.spent, none_left)),
              sym knows ∙ alone,
              (
                cause,
                live,
                subst (EndsIn cause) (sym q.emitted) (EndsIn-emit cause q.last.handler _ refl told),
              ),
            ))
      ]

  -- The capture has an end for each attempt: a turn has told as many ends of the stream as its
  -- trailer counts attempts, but for one where the last was denied its bucket. The allowance, one
  -- more, and the buckets fit 32 bits.
  pub execute_turn-ends :
      (id : StreamId) (replies : ℕ → Reply) (h h' : EventHandler) (v : TurnVerdict)
      → suc h.retry_allowance_per_turn < 2 ^ 32
      → h.send_buckets < 2 ^ 32
      → execute_turn j fl cfg id replies h ≡ some (v, h')
      → (t : Turning) × (h' ≡ emit t.handler (trailer id v t))
        × ((ends_of h' ≡ ends_of h + t.st.attempt)
            ⊎ ((v ≡ failed no_bucket) × (suc (ends_of h') ≡ ends_of h + t.st.attempt)))
  unfolding ends_in trailer
  execute_turn-ends id replies h h' v small buckets e =
      let q = execute_turn-Returned j fl cfg id replies h h' v small buckets e in
      let same : ends_of h' ≡ ends_of q.last.handler =
        ap ends_of q.emitted ∙ ends_of-emit q.last.handler (trailer id v q.last) refl in
      (
        q.last,
        q.emitted,
        elim q.ends [
          | inl told ↦ inl (omega (arith, same, told))
          | inr (denied, told) ↦ inr (denied, omega (arith, same, told))
        ],
      )
