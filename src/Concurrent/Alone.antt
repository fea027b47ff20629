-- ===== src/Concurrent/Alone.antt =====
-- chat2/src/openai.rs: the tree of a turn that runs alone, and `execute_turn`.
use beta_boot_git_ops.Attempt.{Reply, AttemptEnd, complete, wire_end, Run}
use beta_boot_git_ops.Attempt.Locality.{behind}
use beta_boot_git_ops.Attempt.Locality.Loop.{ended_on, run_attempt-behind}
use beta_boot_git_ops.Attempt.Loop.{run_attempt}
use beta_boot_git_ops.Concurrent.{
  Task, returns, emits, takes, gives, emits_all, nobody, end_task, conclude_task, attempt_task,
  round_task, loop_task, turn_task, OnFault,
}
use beta_boot_git_ops.Config.{OpenAiConfig}
use beta_boot_git_ops.Driver.{DriverFault}
use beta_boot_git_ops.Emission.{StreamId, EmissionRecord, ledger, send_bucket_spent}
use beta_boot_git_ops.Handler.{
  EventHandler, StreamState, begin_attempt, begin_stream, emit, emit_all, acquire_send_bucket,
  return_send_bucket, on_wire_fault,
}
use beta_boot_git_ops.Handler
use beta_boot_git_ops.Normalize.{SerdeJson}
use beta_boot_git_ops.Throughput.{Floats}
use beta_boot_git_ops.Turn.{
  TurnVerdict, Turning, Outcome, is_cancelled, conclude, faulted, obey, trailer, attempt_round,
  admitted, turn_loop, with_trailer, execute_turn,
}
use beta_boot_git_ops.Turn.Buckets.{acquire-none, acquire-one}
use beta_boot_git_ops.Base.{
  ℕ, zero, suc, ◌≡◌, refl, sym, ap, ◌∙◌, inl, inr, Bool, true, false, Option, some, List, [], ◌∷◌,
  append-nil, append_assoc, Bool-cases,
}

abbrev Ends : Type 0
Ends = EventHandler → TurnVerdict × EventHandler

abbrev after_asking : Bool × EventHandler → Ends → Ends → TurnVerdict × EventHandler
after_asking (true, h) granted denied = granted h
after_asking (false, h) granted denied = denied h

-- The task with no other beside it, by the handler's own operations.
unfoldable pub alone : Task → Ends
alone (returns v) h = (v, h)
alone (emits r t) h = alone t (emit h r)
alone (takes s a granted denied) h =
    after_asking (acquire_send_bucket h s a) (λ h'. alone granted h') (λ h'. alone denied h')
alone (gives s a t) h = alone t (return_send_bucket h s a)

pub alone-emits_all :
    (rs : List EmissionRecord) (t : Task) (h : EventHandler)
    → alone (emits_all rs t) h ≡ alone t (emit_all h rs)
unfolding alone
alone-emits_all [] t h = ap (λ b. alone t (record h { bus = b })) (sym (append-nil h.bus))
alone-emits_all (r ∷ rs) t h =
    alone-emits_all rs t (emit h r)
    ∙ ap (λ b. alone t (record h { bus = b })) (append_assoc h.bus (r ∷ []) rs)

module _ (j : SerdeJson) (fl : Floats) (cfg : OpenAiConfig) where
  -- An attempt on a handler, from the one on the handler that has emitted nothing.
  pub run_attempt-alone :
      (reply : Reply) (h : EventHandler) (st : StreamState) (polls : ℕ)
      → run_attempt j fl cfg reply h st polls
        ≡ ended_on j fl cfg h (run_attempt j fl cfg reply nobody st polls)
  run_attempt-alone reply h st polls =
      ap (λ b. run_attempt j fl cfg reply (record h { bus = b }) st polls) (sym (append-nil h.bus))
      ∙ run_attempt-behind j fl cfg reply h nobody st polls

  module _ (id : StreamId) where
    -- What a turn comes to.
    abbrev Returned : Type 0
    Returned = Option (TurnVerdict × EventHandler)

    -- The way of a fault in the turn's loop and in the tree come to the same.
    abbrev Faults : Turning → (Turning → Outcome) → OnFault → Type 0
    Faults t retry on_fault =
        (f : DriverFault)
        → Path Returned (with_trailer j fl cfg id (faulted f t retry))
            (some (alone (on_fault f t.st t.select_polls) t.handler))

    conclude-alone :
        (end : AttemptEnd) (t : Turning) (retry : Turning → Outcome) (on_fault : OnFault)
        → Faults t retry on_fault
        → Path Returned
            (with_trailer j fl cfg id (conclude end t retry))
            (some (alone (conclude_task j fl cfg id end t.st t.select_polls on_fault) t.handler))
    unfolding conclude conclude_task with_trailer end_task alone trailer
    conclude-alone (complete (Handler.committed o)) t retry on_fault h = refl
    conclude-alone (complete (Handler.fault f)) t retry on_fault h = h f
    conclude-alone (wire_end cause) t retry on_fault h = elim (Bool-cases (is_cancelled cause)) [
      | inl e ↦ rw e refl
      | inr e ↦ rw e (h _)
    ]

    -- The turns with what is left of the allowance, and with what the handler knows of a failover.
    abbrev Near : Turning → Turning → Type 0
    Near t t' =
        (t'.remaining_allowance ≡ t.remaining_allowance)
        × (t'.handler.knows_failover_exists ≡ t.handler.knows_failover_exists)

    attempt-alone :
        (reply : Reply) (t : Turning) (retry : Turning → Outcome) (on_fault : OnFault)
        → ((t' : Turning) → Near t t' → Faults t' retry on_fault)
        → Path Returned
            (with_trailer j fl cfg id (attempt_round j fl cfg reply t retry))
            (some (alone (attempt_task j fl cfg id reply t.st t.select_polls on_fault) t.handler))
    unfolding attempt_round attempt_task alone return_send_bucket
    attempt-alone reply t retry on_fault h =
        let after = λ (x : AttemptEnd × Run fl.F).
          let t' : Turning = record t {
            st = x.1.st;
            handler = return_send_bucket x.1.handler t.st.stream_id t.st.attempt;
            select_polls = x.1.select_polls;
          } in
          t' in
        let (end, r) = run_attempt j fl cfg reply nobody t.st t.select_polls in
        let t' : Turning = after (end, record r { handler = behind t.handler r.handler }) in
        ap (λ (x : AttemptEnd × Run fl.F). with_trailer j fl cfg id (conclude x.0 (after x) retry))
          (run_attempt-alone reply t.handler t.st t.select_polls)
        ∙ (conclude-alone end t' retry on_fault (h t' (refl, refl))
            ∙ ap (λ x. some x) (sym (alone-emits_all r.handler.bus _ t.handler)))

    round-alone :
        (reply : Reply) (t : Turning) (v : ℕ) (retry : Turning → Outcome) (on_fault : OnFault)
        → t.handler.send_buckets ≡ v
        → ((t' : Turning) → Near t t' → Faults t' retry on_fault)
        → let st = begin_attempt t.st in
          Path Returned
            (with_trailer j fl cfg id (
              admitted j fl cfg
                (acquire_send_bucket t.handler st.stream_id st.attempt)
                reply
                (record t { st = st })
                retry))
            (some (alone (round_task j fl cfg id reply t.st t.select_polls on_fault) t.handler))
    unfolding admitted round_task alone with_trailer end_task trailer
    round-alone reply t zero retry on_fault e h =
        rw (acquire-none t.handler (begin_attempt t.st).stream_id (begin_attempt t.st).attempt e)
          refl
    round-alone reply t (suc v) retry on_fault e h =
        let st = begin_attempt t.st in
        rw (acquire-one t.handler st.stream_id st.attempt v e) (
          attempt-alone reply
            (record t {
              st = st;
              handler =
                  record (emit t.handler (ledger st.stream_id st.attempt (send_bucket_spent v))) {
                    send_buckets = v;
                  };
            })
            retry on_fault h)

    loop-alone :
        (remaining n : ℕ) (replies : ℕ → Reply) (knows : Bool) (t : Turning)
        → t.remaining_allowance ≡ remaining
        → t.handler.knows_failover_exists ≡ knows
        → Path Returned
            (with_trailer j fl cfg id (turn_loop j fl cfg (suc remaining) n replies t))
            (some (
              alone
                (loop_task j fl cfg id knows remaining n replies t.st t.select_polls)
                t.handler))
    unfolding turn_loop loop_task faulted on_wire_fault obey alone with_trailer end_task trailer
    loop-alone zero n replies true t e k =
        round-alone (replies n) t t.handler.send_buckets _ _ refl
          (λ t' near f. rw (near.0 ∙ e, near.1 ∙ k) refl)
    loop-alone zero n replies false t e k =
        round-alone (replies n) t t.handler.send_buckets _ _ refl
          (λ t' near f. rw (near.0 ∙ e, near.1 ∙ k) refl)
    loop-alone (suc remaining) n replies knows t e k =
        round-alone (replies n) t t.handler.send_buckets _ _ refl (λ t' near f.
          rw (near.0 ∙ e) (loop-alone remaining (suc n) replies knows _ refl (near.1 ∙ k)))

    -- A turn that runs alone comes to what `execute_turn` does: the same verdict, the same records
    -- and the same buckets, whatever the requests are answered with and whatever the handler.
    pub execute_turn-alone :
        (replies : ℕ → Reply) (h : EventHandler)
        → execute_turn j fl cfg id replies h
          ≡ some (
              alone
                (turn_task j fl cfg id h.knows_failover_exists h.retry_allowance_per_turn replies)
                h)
    unfolding execute_turn turn_task begin_stream alone
    execute_turn-alone replies h =
        loop-alone h.retry_allowance_per_turn 0 replies h.knows_failover_exists _ refl refl
