-- ===== src/Turn/Buckets.antt =====
-- A send bucket taken and given back.
use beta_boot_git_ops.Attempt.Records.{IsLabelled}
use beta_boot_git_ops.Emission.{
  EmissionRecord, ledger, send_bucket_spent, send_bucket_returned, send_bucket_denied,
}
use beta_boot_git_ops.Handler.{
  EventHandler, emit, emit_all, acquire_send_bucket, return_send_bucket,
}
use beta_boot_git_ops.Turn.Verdicts.{IsOfStream, IsOfStream-All, Told}
use beta_boot_git_ops.Base.{
  ℕ, suc, ◌+◌, ◌^◌, ◌<◌, ◌≡◌, refl, ap, ◌∙◌, true, false, List, [], ◌∷◌, ◌++◌, append_assoc, arith,
  snoc, All, All-append, u32,
}

set_handler :
    (h : EventHandler) (bus bus' : List EmissionRecord) (n n' : ℕ)
    → bus ≡ bus'
    → n ≡ n'
    → (let x : EventHandler = record h { bus = bus; send_buckets = n } in x)
      ≡ record h { bus = bus'; send_buckets = n' }
set_handler h bus bus' n n' p q =
    ap (λ b. record h { bus = b; send_buckets = n }) p
    ∙ ap (λ m. record h { bus = bus'; send_buckets = m }) q

-- A bucket taken, an attempt's records, and the bucket given back.
pub bucket_round :
    (h : EventHandler) (v s a : ℕ) (rs : List EmissionRecord)
    → h.send_buckets ≡ suc v
    → suc v < 2 ^ 32
    → All (IsLabelled s a) rs
    → Told s h (
        return_send_bucket
          (emit_all (record (emit h (ledger s a (send_bucket_spent v))) { send_buckets = v }) rs)
          s
          a)
unfolding return_send_bucket
bucket_round h v s a rs e w l =
    let spent = ledger s a (send_bucket_spent v) in
    let returned = ledger s a (send_bucket_returned (u32 (v + 1))) in
    record {
      records = spent ∷ snoc rs returned;
      emitted =
          set_handler h (snoc (snoc h.bus spent ++ rs) returned)
            (h.bus ++ (spent ∷ snoc rs returned)) (u32 (v + 1)) h.send_buckets
            (append_assoc (snoc h.bus spent) rs (returned ∷ [])
              ∙ append_assoc h.bus (spent ∷ []) (snoc rs returned))
            (omega (arith, e, w));
      of_stream = (
        (a, (refl, refl)),
        All-append (IsOfStream s) rs (returned ∷ []) (IsOfStream-All s a rs l)
            ((a, (refl, refl)), tt),
      );
    }

pub acquire-none :
    (h : EventHandler) (s a : ℕ)
    → h.send_buckets ≡ 0
    → acquire_send_bucket h s a ≡ (false, emit h (ledger s a send_bucket_denied))
unfolding acquire_send_bucket
acquire-none h s a e = rw e refl

pub acquire-one :
    (h : EventHandler) (s a v : ℕ)
    → h.send_buckets ≡ suc v
    → acquire_send_bucket h s a
      ≡ (true, record (emit h (ledger s a (send_bucket_spent v))) { send_buckets = v })
unfolding acquire_send_bucket
acquire-one h s a v e = rw e refl
