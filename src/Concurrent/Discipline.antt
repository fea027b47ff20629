-- ===== src/Concurrent/Discipline.antt =====
-- What a turn does to the handler: the buckets that it holds, and the streams of its records.
use beta_boot_git_ops.Attempt.{Reply, AttemptEnd, complete, wire_end}
use beta_boot_git_ops.Attempt.Loop.{run_attempt}
use beta_boot_git_ops.Attempt.Records.{IsLabelled}
use beta_boot_git_ops.Attempt.Replay.{run_attempt-Replays, run_attempt-Keeps}
use beta_boot_git_ops.Concurrent.{
  Task, returns, emits, takes, gives, emits_all, nobody, OnFault, end_task, conclude_task,
  attempt_task, round_task, loop_task, turn_task, Spawn, task_of,
}
use beta_boot_git_ops.Config.{OpenAiConfig}
use beta_boot_git_ops.Driver.{DriverFault, protocol}
use beta_boot_git_ops.Emission.{
  StreamId, EmissionRecord, read, installment, normalized_event, normalization_error,
  undecodable_installment, residue, stream_end, wire, ledger, anomaly, scheduler, turn_trailer,
  capture_drop, send_bucket_spent, send_bucket_returned, send_bucket_denied,
}
use beta_boot_git_ops.Handler.{EventHandler, StreamState, begin_attempt, new_state}
use beta_boot_git_ops.Handler
use beta_boot_git_ops.Normalize.{SerdeJson}
use beta_boot_git_ops.Throughput.{Floats}
use beta_boot_git_ops.Text.{codes}
use beta_boot_git_ops.Turn.{
  TurnVerdict, committed, no_bucket, is_cancelled, trailer, failed_over, failed,
}
use beta_boot_git_ops.Base.{
  ℕ, zero, suc, ◌^◌, ◌≤◌, ◌<◌, ◌≡◌, refl, sym, ap, ◌∙◌, subst, inl, inr, Bool, true, false, not,
  ◌&&◌, Option, none, some, List, [], ◌∷◌, ◌++◌, append_assoc, arith, ◌==◌, if◌then◌else◌,
  Bool-cases, All,
}

-- The stream that a record carries.
abbrev pub stream_of : EmissionRecord → Option ℕ
stream_of (read s _ _ _ _ _ _) = some s
stream_of (installment s _ _ _ _ _ _ _ _) = some s
stream_of (normalized_event s _ _ _) = some s
stream_of (normalization_error s _ _ _) = some s
stream_of (undecodable_installment s _ _ _ _ _) = some s
stream_of (residue s _ _ _) = some s
stream_of (stream_end s _ _ _) = some s
stream_of (wire s _ _) = some s
stream_of (ledger s _ _) = some s
stream_of (anomaly s _ _) = some s
stream_of (scheduler s _ _) = some s
stream_of (turn_trailer s _ _ _ _ _ _ _ _ _) = some s
stream_of (capture_drop _) = none

pub IsLabelled-stream_of : (s a : ℕ) (r : EmissionRecord) → IsLabelled s a r → stream_of r ≡ some s
IsLabelled-stream_of s a (read _ _ _ _ _ _ _) (e, _) = ap (λ x. some x) e
IsLabelled-stream_of s a (installment _ _ _ _ _ _ _ _ _) (e, _) = ap (λ x. some x) e
IsLabelled-stream_of s a (normalized_event _ _ _ _) (e, _) = ap (λ x. some x) e
IsLabelled-stream_of s a (normalization_error _ _ _ _) (e, _) = ap (λ x. some x) e
IsLabelled-stream_of s a (undecodable_installment _ _ _ _ _ _) (e, _) = ap (λ x. some x) e
IsLabelled-stream_of s a (residue _ _ _ _) (e, _) = ap (λ x. some x) e
IsLabelled-stream_of s a (stream_end _ _ _ _) (e, _) = ap (λ x. some x) e
IsLabelled-stream_of s a (wire _ _ _) (e, _) = ap (λ x. some x) e
IsLabelled-stream_of s a (ledger _ _ _) (e, _) = ap (λ x. some x) e
IsLabelled-stream_of s a (anomaly _ _ _) (e, _) = ap (λ x. some x) e
IsLabelled-stream_of s a (scheduler _ _ _) (e, _) = ap (λ x. some x) e
IsLabelled-stream_of s a (turn_trailer _ _ _ _ _ _ _ _ _ _) h = elim h [ ]
IsLabelled-stream_of s a (capture_drop _) h = elim h [ ]

-- An entry of the ledger of send buckets, which says how many were free for all streams.
abbrev pub is_bucket_entry : EmissionRecord → Bool
is_bucket_entry (ledger _ _ (send_bucket_spent _)) = true
is_bucket_entry (ledger _ _ (send_bucket_returned _)) = true
is_bucket_entry (ledger _ _ send_bucket_denied) = true
is_bucket_entry _ = false

abbrev pub is_of : ℕ → Option ℕ → Bool
is_of s none = false
is_of s (some s') = s' == s

-- The records of a stream, but for the entries of buckets.
abbrev pub is_own : ℕ → EmissionRecord → Bool
is_own s r = is_of s (stream_of r) && not (is_bucket_entry r)

abbrev pub when : Bool → EmissionRecord → List EmissionRecord
when true r = r ∷ []
when false r = []

unfoldable pub own : ℕ → List EmissionRecord → List EmissionRecord
own s [] = []
own s (r ∷ rs) = when (is_own s r) r ++ own s rs

pub own-append : (s : ℕ) (rs rs' : List EmissionRecord) → own s (rs ++ rs') ≡ own s rs ++ own s rs'
unfolding own
own-append s [] rs' = refl
own-append s (r ∷ rs) rs' = simp (own-append s rs rs', append_assoc)

-- The buckets that a task holds, by what it does next to the buckets.
abbrev pub held : Task → ℕ
held (returns v) = 0
held (emits r t) = held t
held (takes s a granted denied) = 0
held (gives s a t) = 1

abbrev pub IsOf : ℕ → Task → Type 0
IsOf s (returns v) = Unit
IsOf s (emits r t) = (stream_of r ≡ some s) × IsOf s t
IsOf s (takes s' a granted denied) =
    (s' ≡ s) × (held granted ≡ 1) × (held denied ≡ 0) × IsOf s granted × IsOf s denied
IsOf s (gives s' a t) = (s' ≡ s) × (held t ≡ 0) × IsOf s t

pub held-emits_all : (rs : List EmissionRecord) (t : Task) → held (emits_all rs t) ≡ held t
held-emits_all [] t = refl
held-emits_all (r ∷ rs) t = held-emits_all rs t

emits_all-IsOf :
    (s a : ℕ) (rs : List EmissionRecord) (t : Task)
    → All (IsLabelled s a) rs
    → IsOf s t
    → IsOf s (emits_all rs t)
emits_all-IsOf s a [] t l h = h
emits_all-IsOf s a (r ∷ rs) t (l, ls) h =
    (IsLabelled-stream_of s a r l, emits_all-IsOf s a rs t ls h)

pub held-one : (t : Task) → held t ≤ 1
held-one (returns v) = omega arith
held-one (emits r t) = held-one t
held-one (takes s a granted denied) = omega arith
held-one (gives s a t) = omega arith

-- A task of the stream that holds no bucket.
abbrev pub Free : ℕ → Task → Type 0
Free s t = IsOf s t × (held t ≡ 0)

module _ (j : SerdeJson) (fl : Floats) (cfg : OpenAiConfig) (id : StreamId) where
  end_task-Free :
      (v : TurnVerdict) (st : StreamState) (polls : ℕ) → Free id (end_task j fl cfg id v st polls)
  unfolding end_task trailer
  end_task-Free v st polls = ((refl, tt), refl)

  -- A state of the stream whose count of bytes fits its word.
  abbrev Fits : StreamState → Type 0
  Fits st = (st.stream_id ≡ id) × (st.content_bytes < 2 ^ 64)

  abbrev OnFault-Free : OnFault → Type 0
  OnFault-Free on_fault =
      (f : DriverFault) (st : StreamState) (polls : ℕ) → Fits st → Free id (on_fault f st polls)

  conclude_task-Free :
      (end : AttemptEnd) (st : StreamState) (polls : ℕ) (on_fault : OnFault)
      → Fits st
      → OnFault-Free on_fault
      → Free id (conclude_task j fl cfg id end st polls on_fault)
  unfolding conclude_task
  conclude_task-Free (complete (Handler.committed o)) st polls on_fault w h =
      end_task-Free (committed o) st polls
  conclude_task-Free (complete (Handler.fault f)) st polls on_fault w h = h f st polls w
  conclude_task-Free (wire_end cause) st polls on_fault w h =
      elim (Bool-cases (is_cancelled cause)) [
        | inl e ↦ rw e (end_task-Free (failed (protocol (codes "cancelled"))) st polls)
        | inr e ↦ rw e (h _ st polls w)
      ]

  -- While the attempt runs it holds one bucket.
  attempt_task-holds :
      (reply : Reply) (st : StreamState) (polls : ℕ) (on_fault : OnFault)
      → Fits st
      → OnFault-Free on_fault
      → IsOf id (attempt_task j fl cfg id reply st polls on_fault)
        × (held (attempt_task j fl cfg id reply st polls on_fault) ≡ 1)
  unfolding attempt_task
  attempt_task-holds reply st polls on_fault (same, w) h =
      let (end, r) = run_attempt j fl cfg reply nobody st polls in
      let q = run_attempt-Replays j fl cfg reply nobody st polls w in
      let k = run_attempt-Keeps j fl cfg reply nobody st polls w in
      let (of, free) =
        conclude_task-Free end r.st r.select_polls on_fault (k.same_stream ∙ same, k.word) h in
      let rest =
        gives st.stream_id st.attempt
          (conclude_task j fl cfg id end r.st r.select_polls on_fault) in
      let told : r.handler.bus ≡ q.records = ap (λ x. x.bus) q.emitted in
      (
        subst (λ rs. IsOf id (emits_all rs rest)) (sym told)
            (emits_all-IsOf id st.attempt q.records rest
              (subst (λ s. All (IsLabelled s st.attempt) q.records) same q.labelled)
              (same, free, of)),
        held-emits_all r.handler.bus rest,
      )

  round_task-Free :
      (reply : Reply) (st : StreamState) (polls : ℕ) (on_fault : OnFault)
      → Fits st
      → OnFault-Free on_fault
      → Free id (round_task j fl cfg id reply st polls on_fault)
  unfolding round_task begin_attempt
  round_task-Free reply st polls on_fault w h =
      let (of, holds) = attempt_task-holds reply (begin_attempt st) polls on_fault w h in
      let (denied, free) = end_task-Free (failed no_bucket) (begin_attempt st) polls in
      ((w.0, holds, free, of, denied), refl)

  loop_task-Free :
      (knows : Bool) (remaining n : ℕ) (replies : ℕ → Reply) (st : StreamState) (polls : ℕ)
      → Fits st
      → Free id (loop_task j fl cfg id knows remaining n replies st polls)
  unfolding loop_task
  loop_task-Free knows zero n replies st polls w =
      round_task-Free (replies n) st polls _ w (λ f st' polls' w'.
        end_task-Free (if knows then failed_over st'.attempt else failed f) st' polls')
  loop_task-Free knows (suc remaining) n replies st polls w =
      round_task-Free (replies n) st polls _ w (λ f st' polls' w'.
        let (of, free) = loop_task-Free knows remaining (suc n) replies st' polls' w' in
        ((ap (λ x. some x) w'.0, of), free))

  turn_task-Free :
      (knows : Bool) (allowance : ℕ) (replies : ℕ → Reply)
      → Free id (turn_task j fl cfg id knows allowance replies)
  unfolding turn_task new_state
  turn_task-Free knows allowance replies =
      let (of, free) =
        loop_task-Free knows allowance 0 replies (new_state id) 0 (refl, omega arith) in
      ((refl, of), free)

-- A turn that is spawned.
pub task_of-Free :
    (j : SerdeJson) (fl : Floats) (h : EventHandler) (s : Spawn) → Free s.id (task_of j fl h s)
unfolding task_of
task_of-Free j fl h s =
    turn_task-Free j fl s.cfg s.id h.knows_failover_exists h.retry_allowance_per_turn s.replies
