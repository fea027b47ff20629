-- ===== src/Turn/Loop.antt =====
-- The loop of a turn comes out, with what its verdict rests on.
use beta_boot_git_ops.Attempt.{Reply, complete, wire_end}
use beta_boot_git_ops.Attempt.Loop.{run_attempt}
use beta_boot_git_ops.Attempt.Records.{events_in, ends_in, ends_in-append}
use beta_boot_git_ops.Attempt.Replay.{
  Keeps, EndOf, run_attempt-Replays, run_attempt-Keeps, run_attempt-Commits,
}
use beta_boot_git_ops.Config.{OpenAiConfig}
use beta_boot_git_ops.Driver.{ChatOutcome}
use beta_boot_git_ops.Emission.{
  StreamEndCause, ledger, send_bucket_spent, send_bucket_denied, send_bucket_returned,
}
use beta_boot_git_ops.Handler.{
  EventHandler, StreamState, TurnResolution, emit, emit_all, begin_attempt, begin_stream,
  acquire_send_bucket, return_send_bucket,
}
use beta_boot_git_ops.Handler
use beta_boot_git_ops.Machine
use beta_boot_git_ops.Normalize.{SerdeJson}
use beta_boot_git_ops.Throughput.{Floats}
use beta_boot_git_ops.Turn.{failed, Turning, Outcome, no_bucket, attempt_round, admitted, turn_loop}
use beta_boot_git_ops.Turn.Buckets.{bucket_round, acquire-none, acquire-one}
use beta_boot_git_ops.Turn.Rounds.{Fits, Round, settled, conclude-Turned, Commits-Evidence}
use beta_boot_git_ops.Turn.Verdicts.{
  Told, Told-one, Evidence, Turned, EndsIn, NotCancelled, EndsIn-emit, ends_of, ends_of-emit,
}
use beta_boot_git_ops.Base.{
  ℕ, zero, suc, ◌+◌, ◌^◌, ◌<◌, ◌≡◌, refl, sym, ap, ◌∙◌, subst, inl, inr, arith, u32, length,
  length-snoc, ◌++◌, ◌∷◌, [],
}

module _ (j : SerdeJson) (fl : Floats) (cfg : OpenAiConfig) where
  -- An attempt with the handler that has spent a bucket, and the bucket given back.
  attempt_round-Told :
      (reply : Reply) (h : EventHandler) (v polls : ℕ) (st : StreamState)
      → h.send_buckets ≡ suc v
      → suc v < 2 ^ 32
      → st.content_bytes < 2 ^ 64
      → let spent = ledger st.stream_id st.attempt (send_bucket_spent v) in
        let h1 : EventHandler = record (emit h spent) { send_buckets = v } in
        let (end, r) = run_attempt j fl cfg reply h1 st polls in
        Told st.stream_id h (return_send_bucket r.handler st.stream_id st.attempt)
  attempt_round-Told reply h v polls st e w b =
      let spent = ledger st.stream_id st.attempt (send_bucket_spent v) in
      let h1 : EventHandler = record (emit h spent) { send_buckets = v } in
      let q = run_attempt-Replays j fl cfg reply h1 st polls b in
      subst (λ x. Told st.stream_id h (return_send_bucket x st.stream_id st.attempt))
        (sym q.emitted) (bucket_round h v st.stream_id st.attempt q.records e w q.labelled)

  -- It has told one end of the stream.
  attempt_round-ends :
      (reply : Reply) (h : EventHandler) (v polls : ℕ) (st : StreamState)
      → st.content_bytes < 2 ^ 64
      → let spent = ledger st.stream_id st.attempt (send_bucket_spent v) in
        let h1 : EventHandler = record (emit h spent) { send_buckets = v } in
        let (end, r) = run_attempt j fl cfg reply h1 st polls in
        ends_of (return_send_bucket r.handler st.stream_id st.attempt) ≡ suc (ends_of h)
  unfolding return_send_bucket ends_in
  attempt_round-ends reply h v polls st b =
      let spent = ledger st.stream_id st.attempt (send_bucket_spent v) in
      let h1 : EventHandler = record (emit h spent) { send_buckets = v } in
      let (end, r) = run_attempt j fl cfg reply h1 st polls in
      let q = run_attempt-Replays j fl cfg reply h1 st polls b in
      let told : ends_of r.handler ≡ suc (ends_of h1) =
        ap ends_of q.emitted
        ∙ ap length (ends_in-append h1.bus q.records ∙ ap (λ cs. ends_in h1.bus ++ cs) q.one_end)
        ∙ length-snoc (ends_in h1.bus) q.cause in
      ends_of-emit r.handler _ refl ∙ told ∙ ap suc (ends_of-emit h spent refl)

  -- The end told where the attempt ends on the wire.
  attempt_round-EndsIn :
      (reply : Reply) (h : EventHandler) (polls : ℕ) (st : StreamState) (c : StreamEndCause)
      → st.content_bytes < 2 ^ 64
      → (run_attempt j fl cfg reply h st polls).0 ≡ wire_end c
      → let (end, r) = run_attempt j fl cfg reply h st polls in
        EndsIn c (return_send_bucket r.handler st.stream_id st.attempt)
  unfolding return_send_bucket ends_in
  attempt_round-EndsIn reply h polls st c b e =
      let (end, r) = run_attempt j fl cfg reply h st polls in
      let q = run_attempt-Replays j fl cfg reply h st polls b in
      let told : EndOf st.machine (events_in q.records) q.cause (wire_end c) =
        subst (EndOf st.machine (events_in q.records) q.cause) e q.replayed in
      EndsIn-emit c r.handler _ refl (
        ends_in h.bus,
        ap (λ x. ends_in x.bus) q.emitted
            ∙ ends_in-append h.bus q.records
            ∙ ap (λ cs. ends_in h.bus ++ cs) (q.one_end ∙ ap (λ x. x ∷ []) (sym told)),
      )

  attempt_round-NotCancelled :
      (reply : Reply) (h : EventHandler) (polls : ℕ) (st : StreamState) (res : TurnResolution)
      → st.content_bytes < 2 ^ 64
      → (run_attempt j fl cfg reply h st polls).0 ≡ complete res
      → let (end, r) = run_attempt j fl cfg reply h st polls in
        NotCancelled (return_send_bucket r.handler st.stream_id st.attempt)
  unfolding return_send_bucket ends_in
  attempt_round-NotCancelled reply h polls st res b e =
      let (end, r) = run_attempt j fl cfg reply h st polls in
      let q = run_attempt-Replays j fl cfg reply h st polls b in
      (
        q.cause,
        q.cancels_on_wire res e,
        EndsIn-emit q.cause r.handler _ refl (
          ends_in h.bus,
          ap (λ x. ends_in x.bus) q.emitted
              ∙ ends_in-append h.bus q.records
              ∙ ap (λ cs. ends_in h.bus ++ cs) q.one_end,
        ),
      )

  attempt_round-Evidence :
      (reply : Reply) (h : EventHandler) (polls : ℕ) (st : StreamState) (o : ChatOutcome)
      → st.content_bytes < 2 ^ 64
      → st.machine ≡ Machine.new
      → (run_attempt j fl cfg reply h st polls).0 ≡ complete (Handler.committed o)
      → let (end, r) = run_attempt j fl cfg reply h st polls in
        Evidence o r.st.stream_id r.st.attempt
          (return_send_bucket r.handler st.stream_id st.attempt).bus
  unfolding return_send_bucket events_in
  attempt_round-Evidence reply h polls st o w m e =
      let k = run_attempt-Keeps j fl cfg reply h st polls w in
      let (end, r) = run_attempt j fl cfg reply h st polls in
      let found =
        Commits-Evidence h st o r.handler
          (ledger st.stream_id st.attempt (send_bucket_returned (u32 (r.handler.send_buckets + 1))))
          refl (run_attempt-Commits j fl cfg reply h st polls o w m e) in
      subst
        (λ s. Evidence o s r.st.attempt (return_send_bucket r.handler st.stream_id st.attempt).bus)
        (sym k.same_stream)
        (subst
          (λ a.
            Evidence o st.stream_id a (return_send_bucket r.handler st.stream_id st.attempt).bus)
          (sym k.same_attempt) found)

  -- The rest of the loop, for every start that fits and that the fuel is enough for.
  abbrev Rest : ℕ → (Turning → Outcome) → Type 0
  Rest fuel retry = (t : Turning) → t.remaining_allowance < fuel → Fits t → Turned t (retry t)

  attempt_round-Turned :
      (fuel v : ℕ) (reply : Reply) (t : Turning) (retry : Turning → Outcome)
      → t.remaining_allowance < suc fuel
      → Fits t
      → t.handler.send_buckets ≡ suc v
      → Rest fuel retry
      → let st = begin_attempt t.st in
        let spent = ledger st.stream_id st.attempt (send_bucket_spent v) in
        Turned t (
          attempt_round j fl cfg reply
            (record t { st = st; handler = record (emit t.handler spent) { send_buckets = v } })
            retry)
  unfolding attempt_round begin_attempt
  attempt_round-Turned fuel v reply t retry enough fits e rest =
      let st = begin_attempt t.st in
      let spent = ledger st.stream_id st.attempt (send_bucket_spent v) in
      let h1 : EventHandler = record (emit t.handler spent) { send_buckets = v } in
      let (end, r) = run_attempt j fl cfg reply h1 st t.select_polls in
      let t1 : Turning = record t {
        st = r.st;
        handler = return_send_bucket r.handler st.stream_id st.attempt;
        select_polls = r.select_polls;
      } in
      let k : Keeps st r.st = run_attempt-Keeps j fl cfg reply h1 st t.select_polls fits.word in
      let told : Told st.stream_id t.handler t1.handler =
        attempt_round-Told reply t.handler v t.select_polls st e (omega (arith, fits.buckets, e))
          fits.word in
      let round : Round t t1 = record {
        attempt = k.same_attempt ∙ omega (arith, fits.attempts);
        allowance = refl;
        same_stream = k.same_stream;
        told = told;
      } in
      conclude-Turned end t t1 retry round
        (attempt_round-ends reply t.handler v t.select_polls st fits.word)
        (λ o q. attempt_round-Evidence reply h1 t.select_polls st o fits.word refl q)
        (λ c q. attempt_round-EndsIn reply h1 t.select_polls st c fits.word q)
        (λ res q. attempt_round-NotCancelled reply h1 t.select_polls st res fits.word q)
        (λ t2 same less kept. rest t2 (omega (arith, less, enough)) (record {
          word = rw same k.word;
          attempts = omega (arith, fits.attempts, ap (λ s. s.attempt) same, round.attempt, less);
          buckets = omega (arith, kept, ap (λ h. h.send_buckets) told.emitted, fits.buckets);
        }))

  admitted-Turned :
      (fuel v : ℕ) (reply : Reply) (t : Turning) (retry : Turning → Outcome)
      → t.remaining_allowance < suc fuel
      → Fits t
      → t.handler.send_buckets ≡ v
      → Rest fuel retry
      → let st = begin_attempt t.st in
        Turned t (
          admitted j fl cfg
            (acquire_send_bucket t.handler st.stream_id st.attempt)
            reply
            (record t { st = st })
            retry)
  unfolding admitted begin_attempt ends_in
  admitted-Turned fuel zero reply t retry enough fits e rest =
      let st = begin_attempt t.st in
      let denied = emit t.handler (ledger st.stream_id st.attempt send_bucket_denied) in
      let t1 : Turning = record t { st = st; handler = denied } in
      let round : Round t t1 = record {
        attempt = omega (arith, fits.attempts);
        allowance = refl;
        same_stream = refl;
        told = Told-one st.stream_id t.handler _ (st.attempt, (refl, refl));
      } in
      subst (λ x. Turned t (admitted j fl cfg x reply (record t { st = st }) retry))
        (sym (acquire-none t.handler st.stream_id st.attempt e))
        (settled t1.remaining_allowance (failed no_bucket) round refl (inl (refl, e)) (
          inr (
            refl,
            omega (
              arith,
              round.attempt,
              ends_of-emit t.handler (ledger st.stream_id st.attempt send_bucket_denied) refl,
            ),
          )))
  admitted-Turned fuel (suc v) reply t retry enough fits e rest =
      let st = begin_attempt t.st in
      subst (λ x. Turned t (admitted j fl cfg x reply (record t { st = st }) retry))
        (sym (acquire-one t.handler st.stream_id st.attempt v e))
        (attempt_round-Turned fuel v reply t retry enough fits e rest)

  -- With fuel for one more round than the allowance, the loop comes out. Each round but the last
  -- spends one of the allowance, the buckets are as many as before, every record is one of the
  -- stream, and the verdict is justified.
  pub turn_loop-Turned :
      (fuel n : ℕ) (replies : ℕ → Reply) (t : Turning)
      → t.remaining_allowance < fuel
      → Fits t
      → Turned t (turn_loop j fl cfg fuel n replies t)
  unfolding turn_loop
  turn_loop-Turned zero n replies t enough fits = ground arith
  turn_loop-Turned (suc fuel) n replies t enough fits =
      admitted-Turned fuel t.handler.send_buckets (replies n) t
        (λ t'. turn_loop j fl cfg fuel (suc n) replies t') enough fits refl
        (λ t' enough' fits'. turn_loop-Turned fuel (suc n) replies t' enough' fits')
