-- ===== src/Concurrent.antt =====
-- chat2/src/openai.rs, `execute_turn` among other turns on one handler, as chat2/examples/stress.rs
-- spawns them. A turn is the tree of what it does to the handler that it shares: it hands a record
-- to the bus, takes a send bucket or gives one back. Each of these is one atomic operation of the
-- program, and between any two of them other turns may run.
pub mod Alone
pub mod Discipline
pub mod Tally
pub mod Steps
pub mod Moves
pub mod Solo
pub mod Isolation
pub mod WaitFree
pub mod Trailers
pub mod Endings
pub mod Gauge
pub mod Together
use beta_boot_git_ops.Attempt.{Reply, AttemptEnd, complete, wire_end}
use beta_boot_git_ops.Attempt.Loop.{run_attempt}
use beta_boot_git_ops.Config.{OpenAiConfig}
use beta_boot_git_ops.Driver.{DriverFault, protocol}
use beta_boot_git_ops.Emission.{
  StreamId, EmissionRecord, ledger, send_bucket_spent, send_bucket_returned, send_bucket_denied,
  retry_allowance_granted, retry_allowance_spent,
}
use beta_boot_git_ops.Handler.{EventHandler, StreamState, new_state, begin_attempt, emit}
use beta_boot_git_ops.Handler
use beta_boot_git_ops.Normalize.{SerdeJson}
use beta_boot_git_ops.Text.{codes}
use beta_boot_git_ops.Throughput.{Floats}
use beta_boot_git_ops.Turn.{
  TurnVerdict, committed, failed_over, failed, is_cancelled, wire_fault, no_bucket, trailer,
}
use beta_boot_git_ops.Base.{ℕ, zero, suc, ◌+◌, Bool, false, List, [], ◌∷◌, map, if◌then◌else◌, u32}

pub data Task : Type 0 where
  returns : TurnVerdict → Task
  emits : EmissionRecord → Task → Task
  -- `fetch_update`, with what follows where there was a bucket and where there was none.
  takes : (stream attempt : ℕ) (granted denied : Task) → Task
  -- `fetch_add`.
  gives : (stream attempt : ℕ) → Task → Task

abbrev pub emits_all : List EmissionRecord → Task → Task
emits_all [] t = t
emits_all (r ∷ rs) t = emits r (emits_all rs t)

-- A handler that has emitted nothing.
abbrev pub nobody : EventHandler
nobody = record {
  bus = [];
  send_buckets = 0;
  retry_allowance_per_turn = 0;
  knows_failover_exists = false;
}

-- What follows a fault.
abbrev pub OnFault : Type 0
OnFault = DriverFault → StreamState → ℕ → Task

module _ (j : SerdeJson) (fl : Floats) (cfg : OpenAiConfig) (id : StreamId) where
  -- The trailer and the end of the turn.
  unfoldable pub end_task : TurnVerdict → StreamState → ℕ → Task
  unfolding trailer
  end_task v st polls =
      emits
        (trailer id v
          (record { st = st; handler = nobody; select_polls = polls; remaining_allowance = 0 }))
        (returns v)

  unfoldable pub conclude_task : AttemptEnd → StreamState → ℕ → OnFault → Task
  unfolding end_task is_cancelled wire_fault
  conclude_task (complete (Handler.committed o)) st polls on_fault = end_task (committed o) st polls
  conclude_task (complete (Handler.fault f)) st polls on_fault = on_fault f st polls
  conclude_task (wire_end cause) st polls on_fault =
      if is_cancelled cause
      then end_task (failed (protocol (codes "cancelled"))) st polls
      else on_fault (wire_fault cause) st polls

  -- An attempt's own state is its own, so its records are those that it emits alone.
  unfoldable pub attempt_task : Reply → StreamState → ℕ → OnFault → Task
  unfolding conclude_task
  attempt_task reply st polls on_fault =
      let (end, r) = run_attempt j fl cfg reply nobody st polls in
      emits_all r.handler.bus
        (gives st.stream_id st.attempt (conclude_task end r.st r.select_polls on_fault))

  unfoldable pub round_task : Reply → StreamState → ℕ → OnFault → Task
  unfolding attempt_task no_bucket end_task
  round_task reply st polls on_fault =
      let begun = begin_attempt st in
      takes begun.stream_id begun.attempt (attempt_task reply begun polls on_fault)
        (end_task (failed no_bucket) begun polls)

  -- The loop, by recursion on the allowance that is left; the handler's fields that never change
  -- are arguments.
  unfoldable pub loop_task : Bool → ℕ → ℕ → (ℕ → Reply) → StreamState → ℕ → Task
  unfolding round_task end_task
  loop_task knows_failover zero n replies st polls =
      round_task (replies n) st polls (λ f st' polls'.
        end_task (if knows_failover then failed_over st'.attempt else failed f) st' polls')
  loop_task knows_failover (suc remaining) n replies st polls =
      round_task (replies n) st polls (λ f st' polls'.
        emits (ledger st'.stream_id st'.attempt (retry_allowance_spent remaining))
          (loop_task knows_failover remaining (suc n) replies st' polls'))

  unfoldable pub turn_task : Bool → ℕ → (ℕ → Reply) → Task
  unfolding loop_task new_state
  turn_task knows_failover allowance replies =
      emits (ledger id 0 (retry_allowance_granted allowance))
        (loop_task knows_failover allowance 0 replies (new_state id) 0)

-- One operation of a task on the handler.
abbrev pub take_bucket : EventHandler → ℕ → ℕ → Task → Task → ℕ → EventHandler × Task
take_bucket h stream attempt granted denied zero =
    (h, emits (ledger stream attempt send_bucket_denied) denied)
take_bucket h stream attempt granted denied (suc v) =
    (record h { send_buckets = v }, emits (ledger stream attempt (send_bucket_spent v)) granted)

unfoldable pub advance : EventHandler → Task → EventHandler × Task
advance h (returns v) = (h, returns v)
advance h (emits r t) = (emit h r, t)
advance h (takes stream attempt granted denied) =
    take_bucket h stream attempt granted denied h.send_buckets
advance h (gives stream attempt t) =
    let after = u32 (h.send_buckets + 1) in
    (
      record h { send_buckets = after },
      emits (ledger stream attempt (send_bucket_returned after)) t,
    )

-- The handler that the tasks share, and the tasks.
pub record System : Type 0 where
  pub handler : EventHandler
  pub tasks : List Task

unfoldable pub move_at : ℕ → EventHandler → List Task → EventHandler × List Task
unfolding advance
move_at i h [] = (h, [])
move_at zero h (t ∷ ts) = let (h', t') = advance h t in (h', t' ∷ ts)
move_at (suc i) h (t ∷ ts) = let (h', ts') = move_at i h ts in (h', t ∷ ts')

unfoldable pub move : ℕ → System → System
unfolding move_at
move i p = let (h, ts) = move_at i p.handler p.tasks in record { handler = h; tasks = ts }

-- A schedule says which task goes on, one after another; one that has returned stays as it is.
unfoldable pub run : List ℕ → System → System
unfolding move
run [] p = p
run (i ∷ schedule) p = run schedule (move i p)

-- A turn that is spawned: its stream, and how its requests are answered.
pub record Spawn : Type 0 where
  pub cfg : OpenAiConfig
  pub id : StreamId
  pub replies : ℕ → Reply

module _ (j : SerdeJson) (fl : Floats) where
  unfoldable pub task_of : EventHandler → Spawn → Task
  unfolding turn_task
  task_of h s =
      turn_task j fl s.cfg s.id h.knows_failover_exists h.retry_allowance_per_turn s.replies

  -- All turns on one handler.
  unfoldable pub spawn_all : EventHandler → List Spawn → System
  unfolding task_of
  spawn_all h spawns = record { handler = h; tasks = map (task_of h) spawns }
