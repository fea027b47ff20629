-- ===== src/Handler/Admission.antt =====
-- The send buckets under concurrency: streams take and give back buckets in any order.
use beta_boot_git_ops.Emission.{StreamId}
use beta_boot_git_ops.Handler.{EventHandler, acquire_send_bucket, return_send_bucket}
use beta_boot_git_ops.Base.{
  ℕ, zero, suc, ◌+◌, ◌^◌, ◌≤◌, ◌<◌, ◌≡◌, refl, ap, ◌∙◌, Bool, true, false, List, [], ◌∷◌, ◌++◌,
  arith, length, length-append,
}

-- The handler, and the attempts that hold a bucket: a stream and its attempt's number.
pub record Pool : Type 0 where
  pub handler : EventHandler
  pub in_flight : List (StreamId × ℕ)

abbrev granted : Pool → StreamId → ℕ → Bool × EventHandler → Pool
granted p stream attempt (true, h) = record {
  handler = h;
  in_flight = (stream, attempt) ∷ p.in_flight;
}
granted p stream attempt (false, h) = record p { handler = h }

-- Any stream may ask for a bucket; one that holds a bucket may give it back.
pub data Step : Pool → Pool → Type 0 where
  ask :
      (p : Pool) (stream attempt : ℕ)
      → Step p (granted p stream attempt (acquire_send_bucket p.handler stream attempt))
  give_back :
      (p : Pool) (stream attempt : ℕ) (before after : List (StreamId × ℕ))
      → p.in_flight ≡ before ++ ((stream, attempt) ∷ after)
      → Step p (record {
        handler = return_send_bucket p.handler stream attempt;
        in_flight = before ++ after;
      })

pub data Reach (p : Pool) : Pool → Type 0 where
  here : Reach p p
  next : {q r : Pool} → Reach p q → Step q r → Reach p r

-- The buckets that are free and those in flight.
abbrev pub total : Pool → ℕ
total p = p.handler.send_buckets + length p.in_flight

granted-total :
    (p : Pool) (stream attempt n : ℕ)
    → p.handler.send_buckets ≡ n
    → total (granted p stream attempt (acquire_send_bucket p.handler stream attempt)) ≡ total p
unfolding acquire_send_bucket
granted-total p stream attempt zero e = ground arith
granted-total p stream attempt (suc n) e = ground arith

Step-total : {p q : Pool} → Step p q → total p < 2 ^ 32 → total q ≡ total p
unfolding return_send_bucket
Step-total (ask p stream attempt) h = granted-total p stream attempt p.handler.send_buckets refl
Step-total (give_back p stream attempt before after e) h = omega (
  arith,
  ap length e,
  length-append before ((stream, attempt) ∷ after),
  length-append before after,
)

Reach-total_kept : {p q : Pool} → Reach p q → total p < 2 ^ 32 → total q ≡ total p
Reach-total_kept here h = refl
Reach-total_kept (next {q = q} r s) h =
    let kept = Reach-total_kept r h in Step-total s (rw kept h) ∙ kept

-- From none in flight, and buckets that fit 32 bits, no interleaving of streams makes or loses a
-- bucket, so no more attempts are ever in flight than
-- there were buckets.
pub Reach-total :
    {p q : Pool}
    → p.in_flight ≡ []
    → p.handler.send_buckets < 2 ^ 32
    → Reach p q
    → (total q ≡ p.handler.send_buckets) × (length q.in_flight ≤ p.handler.send_buckets)
Reach-total {p} {q} e h r =
    let started : total p ≡ p.handler.send_buckets = omega (arith, ap length e) in
    let kept : total q ≡ total p = Reach-total_kept r (omega arith) in
    (kept ∙ started, omega (arith, kept, started))
