-- ===== src/Concurrent/Trailers.antt =====
-- chat2/src/openai.rs, the trailer of `execute_turn` among other turns.
pub mod Turns
use beta_boot_git_ops.Attempt.Records.{IsLabelled}
use beta_boot_git_ops.Concurrent.{Task, returns, emits, takes, gives, take_bucket, advance}
use beta_boot_git_ops.Concurrent.Discipline.{stream_of, IsOf}
use beta_boot_git_ops.Emission.{
  EmissionRecord, read, installment, normalized_event, normalization_error, undecodable_installment,
  residue, stream_end, wire, ledger, anomaly, scheduler, turn_trailer, capture_drop,
  TurnVerdictRecord,
}
use beta_boot_git_ops.Handler.{EventHandler}
use beta_boot_git_ops.Handler
use beta_boot_git_ops.Turn.{TurnVerdict, verdict_record}
use beta_boot_git_ops.Base.{
  ℕ, zero, suc, ◌≡◌, refl, ◌∙◌, ◌≢◌, ◌⊎◌, inl, inr, Bool, true, false, some, List, [], ◌∷◌, ◌++◌,
  append-nil, append_assoc, arith, ◌==◌,
}

abbrev given : Bool → TurnVerdictRecord → List TurnVerdictRecord
given true v = v ∷ []
given false v = []

-- The verdicts that trailers of the stream tell of.
abbrev pub verdict_in : ℕ → EmissionRecord → List TurnVerdictRecord
verdict_in s (turn_trailer s' _ _ v _ _ _ _ _ _) = given (s' == s) v
verdict_in s _ = []

unfoldable pub verdicts_in : ℕ → List EmissionRecord → List TurnVerdictRecord
verdicts_in s [] = []
verdicts_in s (r ∷ rs) = verdict_in s r ++ verdicts_in s rs

pub verdicts_in-snoc :
    (s : ℕ) (rs : List EmissionRecord) (r : EmissionRecord)
    → verdicts_in s (rs ++ (r ∷ [])) ≡ verdicts_in s rs ++ verdict_in s r
unfolding verdicts_in
verdicts_in-snoc s [] r = append-nil (verdict_in s r)
verdicts_in-snoc s (x ∷ rs) r = simp (verdicts_in-snoc s rs r, append_assoc)

-- A turn that is still to emit its trailer, as its last operation, and emits none before it.
pub data IsPending (s : ℕ) : Task → Type 0 where
  last :
      {r : EmissionRecord} {v : TurnVerdict}
      → verdict_in s r ≡ verdict_record v ∷ []
      → IsPending s (emits r (returns v))
  behind :
      {r : EmissionRecord} {t : Task}
      → verdict_in s r ≡ []
      → IsPending s t
      → IsPending s (emits r t)
  asks :
      {s' a : ℕ} {granted denied : Task}
      → IsPending s granted
      → IsPending s denied
      → IsPending s (takes s' a granted denied)
  gives_back : {s' a : ℕ} {t : Task} → IsPending s t → IsPending s (gives s' a t)

-- A task without a trailer of the stream.
abbrev pub IsForeign : ℕ → Task → Type 0
IsForeign s (returns v) = Unit
IsForeign s (emits r t) = (verdict_in s r ≡ []) × IsForeign s t
IsForeign s (takes s' a granted denied) = IsForeign s granted × IsForeign s denied
IsForeign s (gives s' a t) = IsForeign s t

pub verdict_in-labelled :
    (s s' a : ℕ) (r : EmissionRecord) → IsLabelled s' a r → verdict_in s r ≡ []
verdict_in-labelled s s' a (read _ _ _ _ _ _ _) l = refl
verdict_in-labelled s s' a (installment _ _ _ _ _ _ _ _ _) l = refl
verdict_in-labelled s s' a (normalized_event _ _ _ _) l = refl
verdict_in-labelled s s' a (normalization_error _ _ _ _) l = refl
verdict_in-labelled s s' a (undecodable_installment _ _ _ _ _ _) l = refl
verdict_in-labelled s s' a (residue _ _ _ _) l = refl
verdict_in-labelled s s' a (stream_end _ _ _ _) l = refl
verdict_in-labelled s s' a (wire _ _ _) l = refl
verdict_in-labelled s s' a (ledger _ _ _) l = refl
verdict_in-labelled s s' a (anomaly _ _ _) l = refl
verdict_in-labelled s s' a (scheduler _ _ _) l = refl
verdict_in-labelled s s' a (turn_trailer _ _ _ _ _ _ _ _ _ _) l = elim l [ ]
verdict_in-labelled s s' a (capture_drop _) l = refl

verdict_in-other :
    (s s' : ℕ) (r : EmissionRecord) → s ≢ s' → stream_of r ≡ some s' → verdict_in s r ≡ []
verdict_in-other s s' (turn_trailer q _ _ v _ _ _ _ _ _) other e =
    let same : q ≡ s' = cc in let apart : (q == s) ≡ false = ground (arith, same) in rw apart refl
verdict_in-other s s' r other e = refl

pub IsOf-IsForeign : (s s' : ℕ) (t : Task) → s ≢ s' → IsOf s' t → IsForeign s t
IsOf-IsForeign s s' (returns v) other o = tt
IsOf-IsForeign s s' (emits r t) other (e, o) =
    (verdict_in-other s s' r other e, IsOf-IsForeign s s' t other o)
IsOf-IsForeign s s' (takes q a granted denied) other (e, holds, free, o, o') =
    (IsOf-IsForeign s s' granted other o, IsOf-IsForeign s s' denied other o')
IsOf-IsForeign s s' (gives q a t) other (e, free, o) = IsOf-IsForeign s s' t other o

-- A turn before its trailer and behind it.
abbrev pub Stage : ℕ → EventHandler × Task → Type 0
Stage s (h, t) =
    (IsPending s t × (verdicts_in s h.bus ≡ []))
    ⊎ ((v : TurnVerdict) × (t ≡ returns v) × (verdicts_in s h.bus ≡ verdict_record v ∷ []))

emitted-one :
    (s : ℕ) (bus : List EmissionRecord) (r : EmissionRecord) {vs : List TurnVerdictRecord}
    → verdicts_in s bus ≡ []
    → verdict_in s r ≡ vs
    → verdicts_in s (bus ++ (r ∷ [])) ≡ vs
emitted-one s bus r e f = verdicts_in-snoc s bus r ∙ rw (e, f) refl

pending-Stage :
    (s : ℕ) (h : EventHandler) (t : Task)
    → IsPending s t
    → verdicts_in s h.bus ≡ []
    → Stage s (advance h t)
unfolding advance
pending-Stage s h (returns v) p e = elim p [ ]
pending-Stage s h (emits r (returns v)) (IsPending.last q) e =
    inr (v, refl, emitted-one s h.bus r e q)
pending-Stage s h (emits r t) (behind q p) e = inl (p, emitted-one s h.bus r e q)
pending-Stage s h (takes s' a granted denied) (asks p p') e =
    elim h.send_buckets as (λ n. Stage s (take_bucket h s' a granted denied n)) [
      | zero ↦ inl (behind refl p', e)
      | suc n ↦ inl (behind refl p, e)
    ]
pending-Stage s h (gives s' a t) (gives_back p) e = inl (behind refl p, e)

pub advance-Stage : (s : ℕ) (h : EventHandler) (t : Task) → Stage s (h, t) → Stage s (advance h t)
unfolding advance
advance-Stage s h t (inl (p, e)) = pending-Stage s h t p e
advance-Stage s h t (inr (v, e, f)) = rw e (inr (v, refl, f))

-- What a task without a trailer of the stream leaves.
pub advance-IsForeign :
    (s : ℕ) (h : EventHandler) (t : Task)
    → IsForeign s t
    → IsForeign s (advance h t).1 × (verdicts_in s (advance h t).0.bus ≡ verdicts_in s h.bus)
unfolding advance
advance-IsForeign s h (returns v) f = (tt, refl)
advance-IsForeign s h (emits r t) (e, f) =
    (f, verdicts_in-snoc s h.bus r ∙ rw e (append-nil (verdicts_in s h.bus)))
advance-IsForeign s h (takes s' a granted denied) (f, f') =
    elim h.send_buckets
      as (λ n.
        let x = take_bucket h s' a granted denied n in
        IsForeign s x.1 × (verdicts_in s x.0.bus ≡ verdicts_in s h.bus)) [
          | zero ↦ ((refl, f'), refl)
          | suc n ↦ ((refl, f), refl)
        ]
advance-IsForeign s h (gives s' a t) f = ((refl, f), refl)
