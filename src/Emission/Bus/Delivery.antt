-- ===== src/Emission/Bus/Delivery.antt =====
-- What the bus promises: bounded, in order, and every lost record counted.
use beta_boot_git_ops.Emission.Bus.Held.{
  foreign, foreign_one, held, held-report, held-try_send, held-try_send_own, is_own, receive_none,
  receive_one, try_send_bounded,
}
use beta_boot_git_ops.Emission.{EmissionRecord, scheduler, emit_latency_us}
use beta_boot_git_ops.Emission.Bus.{
  Bus, spawn, is_full, try_send, count_drop, sample_latency, count_emit, emit, receive, report,
  Action, emits, receives, reports, act, run,
}
use beta_boot_git_ops.Base.{
  ℕ, suc, ◌+◌, ◌%◌, ◌≤◌, ◌≡◌, refl, sym, ap, ◌∙◌, subst, inl, inr, false, List, [], ◌∷◌, ◌++◌,
  append-nil, append_assoc, arith, ◌==◌, Bool-cases, length, snoc, All, length-snoc, u64,
}

-- The records that the tasks hand over for emission.
abbrev pub emitted : List Action → List EmissionRecord
emitted [] = []
emitted (emits us r ∷ as') = r ∷ emitted as'
emitted (receives ∷ as') = emitted as'
emitted (reports ∷ as') = emitted as'

pub data IsSubsequence {ℓ} {A : Type ℓ} : List A → List A → Type ℓ where
  nil : IsSubsequence [] []
  keep : {x : A} {xs ys : List A} → IsSubsequence xs ys → IsSubsequence (x ∷ xs) (x ∷ ys)
  skip : {y : A} {xs ys : List A} → IsSubsequence xs ys → IsSubsequence xs (y ∷ ys)

IsSubsequence-append {ℓ} :
    {A : Type ℓ} {xs ys us vs : List A}
    → IsSubsequence xs ys
    → IsSubsequence us vs
    → IsSubsequence (xs ++ us) (ys ++ vs)
IsSubsequence-append nil s = s
IsSubsequence-append (keep r) s = keep (IsSubsequence-append r s)
IsSubsequence-append (skip r) s = skip (IsSubsequence-append r s)

-- The state of the bus after these records have been handed to it.
pub record Keeps (capacity : ℕ) (es : List EmissionRecord) (b : Bus) : Type 0 where
  pub same_capacity : b.capacity ≡ capacity
  pub bounded : length b.queue ≤ capacity
  pub in_order : IsSubsequence (held b) es
  pub lost : ℕ
  pub all_counted : length es ≡ length (held b) + lost
  pub dropped_is_lost : b.dropped ≡ u64 lost

-- A change that keeps the records held, the capacity and the counter.
Keeps-same :
    {capacity : ℕ} {es : List EmissionRecord} (b c : Bus)
    → Keeps capacity es b
    → held c ≡ held b
    → c.capacity ≡ b.capacity
    → length c.queue ≤ capacity
    → c.dropped ≡ b.dropped
    → Keeps capacity es c
Keeps-same {es = es} b c k h cap q d = record {
  same_capacity = cap ∙ k.same_capacity;
  bounded = q;
  in_order = subst (λ x. IsSubsequence x es) (sym h) k.in_order;
  lost = k.lost;
  all_counted = k.all_counted ∙ rw h;
  dropped_is_lost = d ∙ k.dropped_is_lost;
}

Keeps-dropped :
    {capacity : ℕ} {es : List EmissionRecord} (b c : Bus) (r : EmissionRecord)
    → Keeps capacity es b
    → held c ≡ held b
    → c.capacity ≡ b.capacity
    → length c.queue ≤ capacity
    → c.dropped ≡ u64 (b.dropped + 1)
    → Keeps capacity (snoc es r) c
Keeps-dropped {es = es} b c r k h cap q d = record {
  same_capacity = cap ∙ k.same_capacity;
  bounded = q;
  in_order =
      subst (λ x. IsSubsequence x (snoc es r)) (append-nil (held b) ∙ sym h)
        (IsSubsequence-append k.in_order (skip nil));
  lost = suc k.lost;
  all_counted = omega (arith, length-snoc es r, k.all_counted, ap length h);
  dropped_is_lost = omega (arith, d, k.dropped_is_lost);
}

Keeps-queued :
    {capacity : ℕ} {es : List EmissionRecord} (b c : Bus) (r : EmissionRecord)
    → Keeps capacity es b
    → held c ≡ snoc (held b) r
    → c.capacity ≡ b.capacity
    → length c.queue ≤ capacity
    → c.dropped ≡ b.dropped
    → Keeps capacity (snoc es r) c
Keeps-queued {es = es} b c r k h cap q d = record {
  same_capacity = cap ∙ k.same_capacity;
  bounded = q;
  in_order =
      subst (λ x. IsSubsequence x (snoc es r)) (sym h) (IsSubsequence-append k.in_order (keep nil));
  lost = k.lost;
  all_counted = omega (arith, length-snoc es r, k.all_counted, ap length h, length-snoc (held b) r);
  dropped_is_lost = d ∙ k.dropped_is_lost;
}

-- One record is sent or dropped.
sent-Keeps :
    {capacity : ℕ} {es : List EmissionRecord} (b : Bus) (r : EmissionRecord)
    → is_own r ≡ false
    → Keeps capacity es b
    → Keeps capacity (snoc es r) (count_drop (try_send b r) (is_full b))
unfolding count_drop try_send
sent-Keeps {capacity} {es} b r h k =
    let q : length (try_send b r).queue ≤ capacity =
      omega (arith, try_send_bounded b r, k.bounded, k.same_capacity) in
    elim (Bool-cases (is_full b)) [
      | inl full ↦ Keeps-dropped b _ r k (held-try_send b r ∙ rw full) refl q (rw full)
      | inr room ↦
          Keeps-queued b _ r k (held-try_send b r ∙ rw (room, foreign_one r h)) refl q (rw room)
    ]

sample_latency-Keeps :
    {capacity : ℕ} {es : List EmissionRecord} (b : Bus)
    → Keeps capacity es b
    → Keeps capacity es (sample_latency b)
unfolding sample_latency
sample_latency-Keeps {capacity} {es} b k = elim (Bool-cases (b.emit_count % 256 == 0)) [
  | inl now ↦
      let quiet = record b { emit_max_us = 0 } in
      let r = scheduler 0 0 (emit_latency_us b.emit_max_us) in
      rw (now, sample_latency)
        (Keeps-same b (try_send quiet r) k (held-try_send_own quiet r (unfold is_own in refl))
          (unfold try_send in refl)
          (omega (arith, try_send_bounded quiet r, k.bounded, k.same_capacity))
          (unfold try_send in refl))
  | inr later ↦ rw (later, sample_latency) k
]

emit-Keeps :
    {capacity : ℕ} {es : List EmissionRecord} (b : Bus) (us : ℕ) (r : EmissionRecord)
    → is_own r ≡ false
    → Keeps capacity es b
    → Keeps capacity (snoc es r) (emit b us r)
unfolding emit count_emit
emit-Keeps b us r h k =
    let s = sent-Keeps b r h k in sample_latency-Keeps _ (Keeps-same _ _ s refl refl s.bounded refl)

pub receive-Keeps :
    {capacity : ℕ} {es : List EmissionRecord} (b : Bus) (q : List EmissionRecord)
    → b.queue ≡ q
    → Keeps capacity es b
    → Keeps capacity es (receive b)
receive-Keeps b [] e k = rw (receive_none b (inl e)) k
receive-Keeps b (r ∷ rest) e k = elim (Bool-cases b.reporting) [
  | inl busy ↦ rw (receive_none b (inr busy)) k
  | inr idle ↦ rw (receive_one b r rest e idle) (
      Keeps-same b _ k (ap foreign (append_assoc b.written (r ∷ []) rest) ∙ rw e) refl
        (omega (arith, ap length e, k.bounded)) refl)
]

pub report-Keeps :
    {capacity : ℕ} {es : List EmissionRecord} (b : Bus)
    → Keeps capacity es b
    → Keeps capacity es (report b)
report-Keeps b k =
    Keeps-same b (report b) k (held-report b) (unfold report in ground arith)
      (unfold report in ground arith) (unfold report in ground arith)

run-Keeps_from :
    {capacity : ℕ} {es : List EmissionRecord} (b : Bus) (actions : List Action)
    → All (λ r. is_own r ≡ false) (emitted actions)
    → Keeps capacity es b
    → Keeps capacity (es ++ emitted actions) (run b actions)
unfolding run act
run-Keeps_from {es = es} b [] h k = rw append-nil k
run-Keeps_from {capacity} {es} b (emits us r ∷ rest) h k =
    rw (sym (append_assoc es (r ∷ []) (emitted rest)))
      (run-Keeps_from (emit b us r) rest h.1 (emit-Keeps b us r h.0 k))
run-Keeps_from b (receives ∷ rest) h k =
    run-Keeps_from (receive b) rest h (receive-Keeps b b.queue refl k)
run-Keeps_from b (reports ∷ rest) h k = run-Keeps_from (report b) rest h (report-Keeps b k)

-- Where the producers emit no record of the kinds that the bus makes, in every interleaving of producers and writer, the channel holds no more records than its
-- capacity; what was written and is queued is, but for the bus's own records, a subsequence of
-- what was emitted, in the same order; and the drop counter is the number of records missing from
-- it, modulo 2^64.
pub run-Keeps :
    (capacity : ℕ) (actions : List Action)
    → All (λ r. is_own r ≡ false) (emitted actions)
    → Keeps capacity (emitted actions) (run (spawn capacity) actions)
unfolding spawn foreign
run-Keeps capacity actions h = run-Keeps_from (spawn capacity) actions h (record {
  same_capacity = refl;
  bounded = omega arith;
  in_order = nil;
  lost = 0;
  all_counted = refl;
  dropped_is_lost = refl;
})
