-- ===== src/Concurrent/Steps.antt =====
-- One operation of a task that gets its bucket: what it leaves to come, and what it leaves alone.
use beta_boot_git_ops.Concurrent.{Task, returns, emits, takes, gives, take_bucket, advance}
use beta_boot_git_ops.Concurrent.Discipline.{
  stream_of, is_bucket_entry, is_of, is_own, own, own-append, held, IsOf,
}
use beta_boot_git_ops.Concurrent.Tally.{tally, tally-append, IsQuiet}
use beta_boot_git_ops.Emission.{EmissionRecord, ledger, send_bucket_spent, send_bucket_returned}
use beta_boot_git_ops.Handler.{EventHandler}
use beta_boot_git_ops.Turn.{TurnVerdict}
use beta_boot_git_ops.Base.{
  ℕ, zero, suc, ◌+◌, ◌^◌, ◌≤◌, ◌<◌, ◌≡◌, refl, sym, ap, ◌∙◌, ◌≢◌, inl, inr, true, false, some, List,
  [], ◌∷◌, ◌++◌, append-nil, append_assoc, arith, Bool-cases, u32,
}

-- The verdict and the records to come, where every request for a bucket is granted; the entries of
-- buckets that such a request itself leads to are left out.
abbrev pub verdict_of : Task → TurnVerdict
verdict_of (returns v) = v
verdict_of (emits r t) = verdict_of t
verdict_of (takes s a granted denied) = verdict_of granted
verdict_of (gives s a t) = verdict_of t

abbrev pub path : Task → List EmissionRecord
path (returns v) = []
path (emits r t) = r ∷ path t
path (takes s a granted denied) = path granted
path (gives s a t) = path t

-- What has been emitted of a stream, and what is to come.
abbrev pub account : ℕ → EventHandler × Task → List EmissionRecord
account s (h, t) = own s h.bus ++ own s (path t)

-- What a count comes to, with the records to come.
abbrev pub total : (EmissionRecord → ℕ) → EventHandler × Task → ℕ
total f (h, t) = tally f h.bus + tally f (path t)

-- The stream's account and the verdict to come are as they were, and the task is still one of it.
pub record Kept (s : ℕ) (before after : EventHandler × Task) : Type 0 where
  pub verdict : verdict_of after.1 ≡ verdict_of before.1
  pub same_account : account s after ≡ account s before
  pub of_stream : IsOf s after.1
  pub buckets : after.0.send_buckets + held after.1 ≡ before.0.send_buckets + held before.1
  pub tallied : (f : EmissionRecord → ℕ) → IsQuiet f → total f after ≡ total f before

-- The ledger's entries are not the stream's own.
own-entry :
    (s : ℕ) (h : EventHandler) (r : EmissionRecord) (rest : List EmissionRecord)
    → is_bucket_entry r ≡ true
    → own s (r ∷ rest) ≡ own s rest
unfolding own
own-entry s h r rest e = elim (Bool-cases (is_of s (stream_of r))) [
  | inl f ↦ rw (e, f) refl
  | inr f ↦ rw f refl
]

pub take_bucket-Kept :
    (h : EventHandler) (s a s' v : ℕ) (granted denied : Task)
    → h.send_buckets ≡ v
    → IsOf s (takes s' a granted denied)
    → 1 ≤ v
    → Kept s (h, takes s' a granted denied) (take_bucket h s' a granted denied v)
take_bucket-Kept h s a s' zero granted denied e o enough = absurd (omega arith)
take_bucket-Kept h s a s' (suc v) granted denied e (same, holds, free, of, of_denied) enough =
    record {
      verdict = refl;
      same_account =
          ap (λ rs. own s h.bus ++ rs)
            (own-entry s h (ledger s' a (send_bucket_spent v)) (path granted) refl);
      of_stream = (ap (λ x. some x) same, of);
      buckets = omega (arith, e, holds);
      tallied = λ f quiet. omega (arith, quiet (ledger s' a (send_bucket_spent v)) refl);
    }

pub advance-Kept :
    (h : EventHandler) (s : ℕ) (t : Task)
    → IsOf s t
    → 1 ≤ h.send_buckets + held t
    → h.send_buckets + held t < 2 ^ 32
    → Kept s (h, t) (advance h t)
unfolding advance
advance-Kept h s (returns v) o enough word = record {
  verdict = refl;
  same_account = refl;
  of_stream = tt;
  buckets = refl;
  tallied = λ f quiet. refl;
}
advance-Kept h s (emits r t) (same, of) enough word = record {
  verdict = refl;
  same_account =
      rw (own-append s h.bus (r ∷ []))
        (append_assoc (own s h.bus) (own s (r ∷ [])) (own s (path t)))
      ∙ ap (λ rs. own s h.bus ++ rs) (sym (own-append s (r ∷ []) (path t)));
  of_stream = of;
  buckets = refl;
  tallied = λ f quiet. omega (arith, tally-append f h.bus (r ∷ []));
}
advance-Kept h s (takes s' a granted denied) o enough word =
    take_bucket-Kept h s a s' h.send_buckets granted denied refl o (omega (arith, enough))
advance-Kept h s (gives s' a t) (same, free, of) enough word = record {
  verdict = refl;
  same_account =
      ap (λ rs. own s h.bus ++ rs)
        (own-entry s h (ledger s' a (send_bucket_returned (u32 (h.send_buckets + 1)))) (path t)
          refl);
  of_stream = (ap (λ x. some x) same, of);
  buckets = omega (arith, free);
  tallied = λ f quiet.
      omega (arith, quiet (ledger s' a (send_bucket_returned (u32 (h.send_buckets + 1)))) refl);
}

is_own-other : (s s' : ℕ) (r : EmissionRecord) → s ≢ s' → stream_of r ≡ some s' → is_own s r ≡ false
is_own-other s s' r other e = rw e (ground arith)

-- The records of other streams are as they were.
pub advance-other :
    (h : EventHandler) (s s' : ℕ) (t : Task)
    → s ≢ s'
    → IsOf s' t
    → own s (advance h t).0.bus ≡ own s h.bus
unfolding advance own
advance-other h s s' (returns v) other o = refl
advance-other h s s' (emits r t) other (same, of) =
    own-append s h.bus (r ∷ []) ∙ rw (is_own-other s s' r other same) (append-nil (own s h.bus))
advance-other h s s' (takes q a granted denied) other o =
    elim h.send_buckets as (λ v. own s (take_bucket h q a granted denied v).0.bus ≡ own s h.bus) [
      | zero ↦ refl
      | suc v ↦ refl
    ]
advance-other h s s' (gives q a t) other o = refl
