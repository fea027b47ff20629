-- ===== src/Concurrent/Solo.antt =====
-- A task that runs alone, with a bucket for it.
use beta_boot_git_ops.Concurrent.{Task, returns, emits, takes, gives, advance}
use beta_boot_git_ops.Concurrent.Alone.{alone}
use beta_boot_git_ops.Concurrent.Discipline.{own, held, IsOf}
use beta_boot_git_ops.Concurrent.Steps.{
  verdict_of, total, account, Kept, take_bucket-Kept, advance-Kept,
}
use beta_boot_git_ops.Concurrent.Tally.{tally, IsQuiet}
use beta_boot_git_ops.Emission.{EmissionRecord, ledger, send_bucket_spent, send_bucket_returned}
use beta_boot_git_ops.Handler.{EventHandler, emit, return_send_bucket}
use beta_boot_git_ops.Turn.{TurnVerdict}
use beta_boot_git_ops.Turn.Buckets.{acquire-one}
use beta_boot_git_ops.Base.{
  ℕ, zero, suc, ◌+◌, ◌^◌, ◌≤◌, ◌<◌, ◌≡◌, refl, sym, ◌∙◌, append-nil, arith, u32,
}

-- Alone, with a bucket for it, a task comes to the verdict and the records that its tree tells.
pub record Alone (s : ℕ) (h : EventHandler) (t : Task) (end : TurnVerdict × EventHandler)
    : Type 0 where
  pub verdict : end.0 ≡ verdict_of t
  pub records : own s end.1.bus ≡ account s (h, t)
  pub buckets : end.1.send_buckets ≡ h.send_buckets + held t
  pub tallied : (f : EmissionRecord → ℕ) → IsQuiet f → tally f end.1.bus ≡ total f (h, t)

-- From one operation of the task on.
Alone-from :
    {s : ℕ} {h h' : EventHandler} {t t' : Task} (end : TurnVerdict × EventHandler)
    → Kept s (h, t) (h', t')
    → Alone s h' t' end
    → Alone s h t end
Alone-from end k a = record {
  verdict = a.verdict ∙ k.verdict;
  records = a.records ∙ k.same_account;
  buckets = a.buckets ∙ k.buckets;
  tallied = λ f quiet. a.tallied f quiet ∙ k.tallied f quiet;
}

-- The same for every handler that has a bucket for the task.
abbrev Everywhere : ℕ → Task → Type 0
Everywhere s t =
    (h : EventHandler)
    → IsOf s t
    → 1 ≤ h.send_buckets + held t
    → h.send_buckets + held t < 2 ^ 32
    → Alone s h t (alone t h)

takes-Alone :
    (s s' a v : ℕ) (granted denied : Task) (h : EventHandler)
    → h.send_buckets ≡ v
    → Everywhere s granted
    → IsOf s (takes s' a granted denied)
    → 1 ≤ v
    → v < 2 ^ 32
    → Alone s h (takes s' a granted denied) (alone (takes s' a granted denied) h)
unfolding alone
takes-Alone s s' a zero granted denied h e ih o enough word = absurd (omega arith)
takes-Alone s s' a (suc v) granted denied h e ih o enough word =
    let spent = ledger s' a (send_bucket_spent v) in
    let h1 : EventHandler = record h { send_buckets = v } in
    let k1 : Kept s (h, takes s' a granted denied) (h1, emits spent granted) =
      take_bucket-Kept h s a s' (suc v) granted denied e o enough in
    let k2 : Kept s (h1, emits spent granted) (emit h1 spent, granted) =
      unfold advance in
      advance-Kept h1 s (emits spent granted) k1.of_stream (omega (arith, k1.buckets, e))
        (omega (arith, k1.buckets, e, word)) in
    rw (acquire-one h s' a v e) (
      Alone-from _ k1 (
        Alone-from _ k2 (
          ih (emit h1 spent) k2.of_stream (omega (arith, k1.buckets, k2.buckets, e))
            (omega (arith, k1.buckets, k2.buckets, e, word)))))

pub alone-Alone : (s : ℕ) (t : Task) → Everywhere s t
unfolding alone return_send_bucket
alone-Alone s (returns v) h o enough word = record {
  verdict = refl;
  records = sym (unfold own in append-nil (own s h.bus));
  buckets = omega arith;
  tallied = λ f quiet. omega arith;
}
alone-Alone s (emits r t) h o enough word =
    let k : Kept s (h, emits r t) (emit h r, t) =
      unfold advance in advance-Kept h s (emits r t) o enough word in
    Alone-from _ k (alone-Alone s t (emit h r) k.of_stream enough word)
alone-Alone s (takes s' a granted denied) h o enough word =
    takes-Alone s s' a h.send_buckets granted denied h refl (alone-Alone s granted) o
      (omega (arith, enough)) (omega (arith, word))
alone-Alone s (gives s' a t) h o enough word =
    let after = u32 (h.send_buckets + 1) in
    let returned = ledger s' a (send_bucket_returned after) in
    let h1 : EventHandler = record h { send_buckets = after } in
    let k1 : Kept s (h, gives s' a t) (h1, emits returned t) =
      unfold advance in advance-Kept h s (gives s' a t) o enough word in
    let k2 : Kept s (h1, emits returned t) (emit h1 returned, t) =
      unfold advance in
      advance-Kept h1 s (emits returned t) k1.of_stream (omega (arith, k1.buckets, enough))
        (omega (arith, k1.buckets, word)) in
    Alone-from _ k1 (
      Alone-from _ k2 (
        alone-Alone s t (emit h1 returned) k2.of_stream
          (omega (arith, k1.buckets, k2.buckets, enough))
          (omega (arith, k1.buckets, k2.buckets, word))))
