-- ===== src/Concurrent/Gauge.antt =====
-- chat2/src/openai.rs, `execute_turn` and the number of active streams, which it shares with the
-- turns beside it: the tree of a turn, and what comes of it alone, but for the gauge's readings.
use beta_boot_git_ops.Attempt.{Reply, AttemptEnd, complete, wire_end}
use beta_boot_git_ops.Attempt.Gauge.{
  ungauged, all_ungauged, reply_without, Alike, run_attempt-without,
}
use beta_boot_git_ops.Attempt.Loop.{run_attempt}
use beta_boot_git_ops.Concurrent.{
  Task, returns, emits, takes, gives, emits_all, nobody, OnFault, end_task, conclude_task,
  attempt_task, round_task, loop_task, turn_task,
}
use beta_boot_git_ops.Concurrent.Alone.{alone}
use beta_boot_git_ops.Config.{OpenAiConfig}
use beta_boot_git_ops.Driver.{DriverFault}
use beta_boot_git_ops.Emission.{
  StreamId, EmissionRecord, ledger, send_bucket_spent, send_bucket_returned, send_bucket_denied,
  retry_allowance_granted, retry_allowance_spent,
}
use beta_boot_git_ops.Handler.{
  EventHandler, StreamState, new_state, emit, begin_attempt, acquire_send_bucket,
  return_send_bucket,
}
use beta_boot_git_ops.Handler
use beta_boot_git_ops.Normalize.{SerdeJson}
use beta_boot_git_ops.Throughput.{Floats}
use beta_boot_git_ops.Turn.{failed, no_bucket, is_cancelled, wire_fault}
use beta_boot_git_ops.Turn.Buckets.{acquire-none, acquire-one}
use beta_boot_git_ops.Base.{
  ℕ, zero, suc, ◌+◌, u32, ◌≡◌, refl, sym, ap, ◌∙◌, inl, inr, Bool, List, [], ◌∷◌, map-append,
  Bool-cases,
}

-- The tree, with the gauge at zero in every record.
unfoldable pub task_without : Task → Task
task_without (returns v) = returns v
task_without (emits r t) = emits (ungauged r) (task_without t)
task_without (takes s a granted denied) = takes s a (task_without granted) (task_without denied)
task_without (gives s a t) = gives s a (task_without t)

task_without-emits_all :
    (rs : List EmissionRecord) (t : Task)
    → task_without (emits_all rs t) ≡ emits_all (all_ungauged rs) (task_without t)
unfolding task_without
task_without-emits_all [] t = refl
task_without-emits_all (r ∷ rs) t = ap (emits (ungauged r)) (task_without-emits_all rs t)

module _ (j : SerdeJson) (fl : Floats) (cfg : OpenAiConfig) (id : StreamId) where
  abbrev SameFaults : OnFault → OnFault → Type 0
  SameFaults k k' =
      (f : DriverFault) (st : StreamState) (polls : ℕ)
      → task_without (k f st polls) ≡ task_without (k' f st polls)

  conclude_task-without :
      (end : AttemptEnd) (st : StreamState) (polls : ℕ) (k k' : OnFault)
      → SameFaults k k'
      → task_without (conclude_task j fl cfg id end st polls k)
        ≡ task_without (conclude_task j fl cfg id end st polls k')
  unfolding conclude_task
  conclude_task-without (complete (Handler.committed o)) st polls k k' h = refl
  conclude_task-without (complete (Handler.fault f)) st polls k k' h = h f st polls
  conclude_task-without (wire_end cause) st polls k k' h = elim (Bool-cases (is_cancelled cause)) [
    | inl e ↦ rw e refl
    | inr e ↦ rw e (h (wire_fault cause) st polls)
  ]

  attempt_task-without :
      (reply : Reply) (st : StreamState) (polls : ℕ) (k k' : OnFault)
      → SameFaults k k'
      → task_without (attempt_task j fl cfg id reply st polls k)
        ≡ task_without (attempt_task j fl cfg id (reply_without reply) st polls k')
  unfolding attempt_task task_without
  attempt_task-without reply st polls k k' h =
      let x = run_attempt j fl cfg reply nobody st polls in
      let y = run_attempt j fl cfg (reply_without reply) nobody st polls in
      let same : Alike j fl cfg x y = run_attempt-without j fl cfg reply nobody st polls in
      let follows : task_without (conclude_task j fl cfg id x.0 x.1.st x.1.select_polls k)
          ≡ task_without (conclude_task j fl cfg id y.0 y.1.st y.1.select_polls k') =
        conclude_task-without x.0 x.1.st x.1.select_polls k k' h
        ∙ (ap (λ e. task_without (conclude_task j fl cfg id e x.1.st x.1.select_polls k'))
              same.same_end
            ∙ (ap (λ s. task_without (conclude_task j fl cfg id y.0 s x.1.select_polls k'))
                  same.same_st
                ∙ ap (λ n. task_without (conclude_task j fl cfg id y.0 y.1.st n k'))
                    same.same_polls)) in
      task_without-emits_all x.1.handler.bus _
      ∙ (ap
            (λ rs. emits_all rs (
              gives st.stream_id st.attempt
                (task_without (conclude_task j fl cfg id x.0 x.1.st x.1.select_polls k))))
            same.same_records
          ∙ (ap (λ c. emits_all (all_ungauged y.1.handler.bus) (gives st.stream_id st.attempt c))
                follows
              ∙ sym (task_without-emits_all y.1.handler.bus _)))

  round_task-without :
      (reply : Reply) (st : StreamState) (polls : ℕ) (k k' : OnFault)
      → SameFaults k k'
      → task_without (round_task j fl cfg id reply st polls k)
        ≡ task_without (round_task j fl cfg id (reply_without reply) st polls k')
  unfolding round_task task_without
  round_task-without reply st polls k k' h =
      let begun = begin_attempt st in
      ap
        (λ t.
          takes begun.stream_id begun.attempt t
            (task_without (end_task j fl cfg id (failed no_bucket) begun polls)))
        (attempt_task-without reply begun polls k k' h)

  loop_task-without :
      (knows : Bool) (remaining n : ℕ) (replies : ℕ → Reply) (st : StreamState) (polls : ℕ)
      → task_without (loop_task j fl cfg id knows remaining n replies st polls)
        ≡ task_without
            (loop_task j fl cfg id knows remaining n (λ k. reply_without (replies k)) st polls)
  unfolding loop_task task_without
  loop_task-without knows zero n replies st polls =
      round_task-without (replies n) st polls _ _ (λ f st' polls'. refl)
  loop_task-without knows (suc remaining) n replies st polls =
      round_task-without (replies n) st polls _ _ (λ f st' polls'.
        ap (emits (ledger st'.stream_id st'.attempt (retry_allowance_spent remaining)))
          (loop_task-without knows remaining (suc n) replies st' polls'))

  pub turn_task-without :
      (knows : Bool) (allowance : ℕ) (replies : ℕ → Reply)
      → task_without (turn_task j fl cfg id knows allowance replies)
        ≡ task_without (turn_task j fl cfg id knows allowance (λ k. reply_without (replies k)))
  unfolding turn_task task_without
  turn_task-without knows allowance replies =
      ap (emits (ledger id 0 (retry_allowance_granted allowance)))
        (loop_task-without knows allowance 0 replies (new_state id) 0)

-- The handler, with the gauge at zero in its records.
abbrev pub handler_without : EventHandler → EventHandler
handler_without h = record h { bus = all_ungauged h.bus }

takes-without :
    (s a v : ℕ) (granted denied : Task) (h : EventHandler)
    → h.send_buckets ≡ v
    → ((h' : EventHandler)
        → alone (task_without granted) (handler_without h')
          ≡ ((alone granted h').0, handler_without (alone granted h').1))
    → ((h' : EventHandler)
        → alone (task_without denied) (handler_without h')
          ≡ ((alone denied h').0, handler_without (alone denied h').1))
    → let t = takes s a granted denied in
      alone (task_without t) (handler_without h) ≡ ((alone t h).0, handler_without (alone t h).1)
unfolding alone task_without
takes-without s a zero granted denied h e g d =
    let told = ledger s a send_bucket_denied in
    rw (acquire-none (handler_without h) s a e, acquire-none h s a e)
      (ap (λ b. alone (task_without denied) (record h { bus = b }))
          (sym (map-append ungauged h.bus (told ∷ [])))
        ∙ d (emit h told))
takes-without s a (suc v) granted denied h e g d =
    let spent = ledger s a (send_bucket_spent v) in
    rw (acquire-one (handler_without h) s a v e, acquire-one h s a v e)
      (ap (λ b. alone (task_without granted) (record h { bus = b; send_buckets = v }))
          (sym (map-append ungauged h.bus (spent ∷ [])))
        ∙ g (record (emit h spent) { send_buckets = v }))

-- A turn alone, on a tree with the gauge at zero, returns the same, and leaves the same but for the
-- gauge.
pub alone-without :
    (t : Task) (h : EventHandler)
    → alone (task_without t) (handler_without h) ≡ ((alone t h).0, handler_without (alone t h).1)
unfolding alone task_without return_send_bucket
alone-without (returns v) h = refl
alone-without (emits r t) h =
    ap (λ b. alone (task_without t) (record h { bus = b }))
      (sym (map-append ungauged h.bus (r ∷ [])))
    ∙ alone-without t (emit h r)
alone-without (takes s a granted denied) h =
    takes-without s a h.send_buckets granted denied h refl (λ h'. alone-without granted h')
      (λ h'. alone-without denied h')
alone-without (gives s a t) h =
    let after = u32 (h.send_buckets + 1) in
    ap (λ b. alone (task_without t) (record h { bus = b; send_buckets = after }))
      (sym (map-append ungauged h.bus (ledger s a (send_bucket_returned after) ∷ [])))
    ∙ alone-without t (return_send_bucket h s a)
