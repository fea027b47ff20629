-- ===== src/Concurrent/Trailers/Turns.antt =====
-- The trailers of turns on one handler, from each turn's tree to all of them.
use beta_boot_git_ops.Attempt.{Reply, AttemptEnd, complete, wire_end}
use beta_boot_git_ops.Attempt.Loop.{run_attempt}
use beta_boot_git_ops.Attempt.Records.{IsLabelled}
use beta_boot_git_ops.Attempt.Replay.{run_attempt-Replays, run_attempt-Keeps}
use beta_boot_git_ops.Concurrent.{
  Spawn, task_of, Task, gives, emits_all, nobody, OnFault, end_task, conclude_task, attempt_task,
  round_task, loop_task, turn_task, advance, System, move_at, move, run,
}
use beta_boot_git_ops.Concurrent.Trailers.{
  verdicts_in, IsPending, behind, asks, gives_back, IsForeign, verdict_in-labelled, Stage,
  advance-Stage, advance-IsForeign,
}
use beta_boot_git_ops.Config.{OpenAiConfig}
use beta_boot_git_ops.Driver.{DriverFault, protocol}
use beta_boot_git_ops.Emission.{StreamId, EmissionRecord}
use beta_boot_git_ops.Handler.{EventHandler, StreamState, begin_attempt, new_state}
use beta_boot_git_ops.Handler
use beta_boot_git_ops.Normalize.{SerdeJson}
use beta_boot_git_ops.Text.{codes}
use beta_boot_git_ops.Throughput.{Floats}
use beta_boot_git_ops.Turn.{
  TurnVerdict, committed, failed_over, failed, is_cancelled, no_bucket, trailer,
}
use beta_boot_git_ops.Base.{
  ℕ, zero, suc, ◌^◌, ◌<◌, ◌≡◌, refl, sym, ap, ◌∙◌, subst, inl, inr, Bool, List, [], ◌∷◌, arith,
  if◌then◌else◌, ==_iff, Bool-cases, All,
}

emits_all-IsPending :
    (s s' a : ℕ) (rs : List EmissionRecord) (t : Task)
    → All (IsLabelled s' a) rs
    → IsPending s t
    → IsPending s (emits_all rs t)
emits_all-IsPending s s' a [] t l p = p
emits_all-IsPending s s' a (r ∷ rs) t (l, ls) p =
    behind (verdict_in-labelled s s' a r l) (emits_all-IsPending s s' a rs t ls p)

module _ (j : SerdeJson) (fl : Floats) (cfg : OpenAiConfig) (id : StreamId) where
  end_task-IsPending :
      (v : TurnVerdict) (st : StreamState) (polls : ℕ)
      → IsPending id (end_task j fl cfg id v st polls)
  unfolding end_task trailer
  end_task-IsPending v st polls = IsPending.last (rw ((==_iff id id).1 refl) refl)

  abbrev Fits : StreamState → Type 0
  Fits st = st.content_bytes < 2 ^ 64

  abbrev OnFault-IsPending : OnFault → Type 0
  OnFault-IsPending on_fault =
      (f : DriverFault) (st : StreamState) (polls : ℕ)
      → Fits st
      → IsPending id (on_fault f st polls)

  conclude_task-IsPending :
      (end : AttemptEnd) (st : StreamState) (polls : ℕ) (on_fault : OnFault)
      → Fits st
      → OnFault-IsPending on_fault
      → IsPending id (conclude_task j fl cfg id end st polls on_fault)
  unfolding conclude_task
  conclude_task-IsPending (complete (Handler.committed o)) st polls on_fault w h =
      end_task-IsPending (committed o) st polls
  conclude_task-IsPending (complete (Handler.fault f)) st polls on_fault w h = h f st polls w
  conclude_task-IsPending (wire_end cause) st polls on_fault w h =
      elim (Bool-cases (is_cancelled cause)) [
        | inl e ↦ rw e (end_task-IsPending (failed (protocol (codes "cancelled"))) st polls)
        | inr e ↦ rw e (h _ st polls w)
      ]

  round_task-IsPending :
      (reply : Reply) (st : StreamState) (polls : ℕ) (on_fault : OnFault)
      → Fits st
      → OnFault-IsPending on_fault
      → IsPending id (round_task j fl cfg id reply st polls on_fault)
  unfolding round_task attempt_task begin_attempt
  round_task-IsPending reply st polls on_fault w h =
      let begun = begin_attempt st in
      let (end, r) = run_attempt j fl cfg reply nobody begun polls in
      let q = run_attempt-Replays j fl cfg reply nobody begun polls w in
      let k = run_attempt-Keeps j fl cfg reply nobody begun polls w in
      let rest =
        gives begun.stream_id begun.attempt
          (conclude_task j fl cfg id end r.st r.select_polls on_fault) in
      let told : r.handler.bus ≡ q.records = ap (λ x. x.bus) q.emitted in
      asks
        (subst (λ rs. IsPending id (emits_all rs rest)) (sym told)
          (emits_all-IsPending id begun.stream_id begun.attempt q.records rest q.labelled
            (gives_back (conclude_task-IsPending end r.st r.select_polls on_fault k.word h))))
        (end_task-IsPending (failed no_bucket) begun polls)

  loop_task-IsPending :
      (knows : Bool) (remaining n : ℕ) (replies : ℕ → Reply) (st : StreamState) (polls : ℕ)
      → Fits st
      → IsPending id (loop_task j fl cfg id knows remaining n replies st polls)
  unfolding loop_task
  loop_task-IsPending knows zero n replies st polls w =
      round_task-IsPending (replies n) st polls _ w (λ f st' polls' w'.
        end_task-IsPending (if knows then failed_over st'.attempt else failed f) st' polls')
  loop_task-IsPending knows (suc remaining) n replies st polls w =
      round_task-IsPending (replies n) st polls _ w (λ f st' polls' w'.
        behind refl (loop_task-IsPending knows remaining (suc n) replies st' polls' w'))

  turn_task-IsPending :
      (knows : Bool) (allowance : ℕ) (replies : ℕ → Reply)
      → IsPending id (turn_task j fl cfg id knows allowance replies)
  unfolding turn_task new_state
  turn_task-IsPending knows allowance replies =
      behind refl (loop_task-IsPending knows allowance 0 replies (new_state id) 0 (omega arith))

-- A turn that is spawned.
pub task_of-IsPending :
    (j : SerdeJson) (fl : Floats) (h : EventHandler) (s : Spawn) → IsPending s.id (task_of j fl h s)
unfolding task_of
task_of-IsPending j fl h s =
    turn_task-IsPending j fl s.cfg s.id h.knows_failover_exists h.retry_allowance_per_turn s.replies

-- One task at its stage, and none of the others with a trailer of its stream.
abbrev pub AreForeign : ℕ → List Task → Type 0
AreForeign s = All (IsForeign s)

abbrev pub Among : ℕ → EventHandler → ℕ → List Task → Type 0
Among s h i [] = ⊥
Among s h zero (t ∷ ts) = Stage s (h, t) × AreForeign s ts
Among s h (suc i) (t ∷ ts) = IsForeign s t × Among s h i ts

move_at-AreForeign :
    (s i : ℕ) (h : EventHandler) (ts : List Task)
    → AreForeign s ts
    → let (h', ts') = move_at i h ts in
      AreForeign s ts' × (verdicts_in s h'.bus ≡ verdicts_in s h.bus)
unfolding move_at
move_at-AreForeign s i h [] f = (tt, refl)
move_at-AreForeign s zero h (t ∷ ts) (f, fs) =
    let (f', e) = advance-IsForeign s h t f in ((f', fs), e)
move_at-AreForeign s (suc i) h (t ∷ ts) (f, fs) =
    let (fs', e) = move_at-AreForeign s i h ts fs in ((f, fs'), e)

-- The stage is one of the stream's verdicts alone.
Stage-same :
    (s : ℕ) (h h' : EventHandler) (t : Task)
    → verdicts_in s h'.bus ≡ verdicts_in s h.bus
    → Stage s (h, t)
    → Stage s (h', t)
Stage-same s h h' t e (inl (p, q)) = inl (p, e ∙ q)
Stage-same s h h' t e (inr (v, p, q)) = inr (v, p, e ∙ q)

Among-same :
    (s i : ℕ) (h h' : EventHandler) (ts : List Task)
    → verdicts_in s h'.bus ≡ verdicts_in s h.bus
    → Among s h i ts
    → Among s h' i ts
Among-same s i h h' [] e a = a
Among-same s zero h h' (t ∷ ts) e (p, fs) = (Stage-same s h h' t e p, fs)
Among-same s (suc i) h h' (t ∷ ts) e (f, a) = (f, Among-same s i h h' ts e a)

move_at-Among :
    (s i k : ℕ) (h : EventHandler) (ts : List Task)
    → Among s h i ts
    → let (h', ts') = move_at k h ts in Among s h' i ts'
unfolding move_at
move_at-Among s i k h [] a = a
move_at-Among s zero zero h (t ∷ ts) (p, fs) = (advance-Stage s h t p, fs)
move_at-Among s zero (suc k) h (t ∷ ts) (p, fs) =
    let (fs', e) = move_at-AreForeign s k h ts fs in (Stage-same s h (move_at k h ts).0 t e p, fs')
move_at-Among s (suc i) zero h (t ∷ ts) (f, a) =
    let (f', e) = advance-IsForeign s h t f in (f', Among-same s i h (advance h t).0 ts e a)
move_at-Among s (suc i) (suc k) h (t ∷ ts) (f, a) = (f, move_at-Among s i k h ts a)

pub run-Among :
    (s i : ℕ) (schedule : List ℕ) (p : System)
    → Among s p.handler i p.tasks
    → let q = run schedule p in Among s q.handler i q.tasks
unfolding run move
run-Among s i [] p a = a
run-Among s i (k ∷ schedule) p a =
    run-Among s i schedule (move k p) (move_at-Among s i k p.handler p.tasks a)
