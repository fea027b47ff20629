-- ===== src/Stress/Counts.antt =====
-- What the sink has counted, and what a turn adds to the counts.
use beta_boot_git_ops.Concurrent.{Task, returns, emits, takes, gives}
use beta_boot_git_ops.Concurrent.Discipline.{stream_of, IsOf}
use beta_boot_git_ops.Concurrent.Steps.{path}
use beta_boot_git_ops.Concurrent.Tally.{tally, IsQuiet}
use beta_boot_git_ops.Concurrent.Trailers.{verdict_in, IsPending, behind, asks, gives_back}
use beta_boot_git_ops.Emission.{
  TurnVerdictRecord, EmissionRecord, read, installment, normalized_event, normalization_error,
  undecodable_installment, residue, stream_end, wire, ledger, anomaly, scheduler, turn_trailer,
  capture_drop, content_throughput, select_wake, emit_latency_us,
}
use beta_boot_git_ops.Stress.{CountingSink, write, write_all}
use beta_boot_git_ops.Base.{ℕ, ◌+◌, ◌≡◌, refl, true, some, List, [], ◌∷◌, arith, ◌==◌, ==_iff, u64}

abbrev pub reads_of : EmissionRecord → ℕ
reads_of (read _ _ _ _ _ _ _) = 1
reads_of _ = 0

abbrev pub events_of : EmissionRecord → ℕ
events_of (normalized_event _ _ _ _) = 1
events_of _ = 0

abbrev pub trailers_of : EmissionRecord → ℕ
trailers_of (turn_trailer _ _ _ _ _ _ _ _ _ _) = 1
trailers_of _ = 0

pub reads_of-IsQuiet : IsQuiet reads_of
reads_of-IsQuiet (read _ _ _ _ _ _ _) e = cc
reads_of-IsQuiet r e = refl

pub events_of-IsQuiet : IsQuiet events_of
events_of-IsQuiet (normalized_event _ _ _ _) e = cc
events_of-IsQuiet r e = refl

pub trailers_of-IsQuiet : IsQuiet trailers_of
trailers_of-IsQuiet (turn_trailer _ _ _ _ _ _ _ _ _ _) e = cc
trailers_of-IsQuiet r e = refl

-- The counters of a sink.
abbrev pub Counts : CountingSink → ℕ → ℕ → ℕ → Type 0
Counts s r e t = (s.reads ≡ u64 r) × (s.events ≡ u64 e) × (s.trailers ≡ u64 t)

write-Counts :
    (s : CountingSink) (x : EmissionRecord) (r e t : ℕ)
    → Counts s r e t
    → Counts (write s x) (r + reads_of x) (e + events_of x) (t + trailers_of x)
unfolding write
write-Counts s (read _ _ _ _ _ _ _) r e t (a, b, c) = (omega arith, omega arith, omega arith)
write-Counts s (installment _ _ _ _ _ _ _ _ _) r e t (a, b, c) =
    (omega arith, omega arith, omega arith)
write-Counts s (normalized_event _ _ _ _) r e t (a, b, c) = (omega arith, omega arith, omega arith)
write-Counts s (normalization_error _ _ _ _) r e t (a, b, c) =
    (omega arith, omega arith, omega arith)
write-Counts s (undecodable_installment _ _ _ _ _ _) r e t (a, b, c) =
    (omega arith, omega arith, omega arith)
write-Counts s (residue _ _ _ _) r e t (a, b, c) = (omega arith, omega arith, omega arith)
write-Counts s (stream_end _ _ _ _) r e t (a, b, c) = (omega arith, omega arith, omega arith)
write-Counts s (wire _ _ _) r e t (a, b, c) = (omega arith, omega arith, omega arith)
write-Counts s (ledger _ _ _) r e t (a, b, c) = (omega arith, omega arith, omega arith)
write-Counts s (anomaly _ _ _) r e t (a, b, c) = (omega arith, omega arith, omega arith)
write-Counts s (scheduler _ _ (content_throughput _ _)) r e t (a, b, c) =
    (omega arith, omega arith, omega arith)
write-Counts s (scheduler _ _ (select_wake _)) r e t (a, b, c) =
    (omega arith, omega arith, omega arith)
write-Counts s (scheduler _ _ (emit_latency_us _)) r e t (a, b, c) =
    (omega arith, omega arith, omega arith)
write-Counts s (turn_trailer _ _ _ _ _ _ _ _ _ _) r e t (a, b, c) =
    (omega arith, omega arith, omega arith)
write-Counts s (capture_drop _) r e t (a, b, c) = (omega arith, omega arith, omega arith)

-- Each counter is the number of its records, as it fits 64 bits.
pub write_all-Counts :
    (rs : List EmissionRecord) (s : CountingSink) (r e t : ℕ)
    → Counts s r e t
    → Counts
        (write_all s rs)
        (r + tally reads_of rs)
        (e + tally events_of rs)
        (t + tally trailers_of rs)
unfolding write_all
write_all-Counts [] s r e t (a, b, c) = (omega arith, omega arith, omega arith)
write_all-Counts (x ∷ rs) s r e t h =
    let (a, b, c) =
      write_all-Counts rs (write s x) (r + reads_of x) (e + events_of x) (t + trailers_of x)
        (write-Counts s x r e t h) in
    (omega (arith, a), omega (arith, b), omega (arith, c))

trailers_of-none :
    (s : ℕ) (x : EmissionRecord) → stream_of x ≡ some s → verdict_in s x ≡ [] → trailers_of x ≡ 0
trailers_of-none s (turn_trailer s' _ _ v _ _ _ _ _ _) e f =
    let same : (s' == s) ≡ true = (==_iff s' s).1 (cc) in cc
trailers_of-none s x e f = refl

trailers_of-one :
    (s : ℕ) (x : EmissionRecord) {v : TurnVerdictRecord}
    → verdict_in s x ≡ v ∷ []
    → trailers_of x ≡ 1
trailers_of-one s (turn_trailer _ _ _ _ _ _ _ _ _ _) e = refl
trailers_of-one s x e = cc

-- A turn that is pending has one trailer to come.
pub path-trailer : (s : ℕ) (t : Task) → IsOf s t → IsPending s t → tally trailers_of (path t) ≡ 1
path-trailer s (returns v) o p = elim p [ ]
path-trailer s (emits r (returns v)) o (IsPending.last e) = omega (arith, trailers_of-one s r e)
path-trailer s (emits r t) (same, o) (behind e p) =
    omega (arith, trailers_of-none s r same e, path-trailer s t o p)
path-trailer s (takes s' a granted denied) (same, holds, free, o, o') (asks p p') =
    path-trailer s granted o p
path-trailer s (gives s' a t) (same, free, o) (gives_back p) = path-trailer s t o p
