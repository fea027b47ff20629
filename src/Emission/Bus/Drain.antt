-- ===== src/Emission/Bus/Drain.antt =====
-- What is written when the program ends.
use beta_boot_git_ops.Emission.{EmissionRecord, scheduler, emit_latency_us}
use beta_boot_git_ops.Emission.Bus.{
  Bus, spawn, is_full, try_send, count_drop, sample_latency, count_emit, emit, receive, report,
  Action, emits, receives, reports, act, run, drain_up_to, drain,
}
use beta_boot_git_ops.Emission.Bus.Delivery.{
  emitted, IsSubsequence, Keeps, receive-Keeps, report-Keeps, run-Keeps,
}
use beta_boot_git_ops.Emission.Bus.Held.{is_own, foreign, held, receive_one, receive_none}
use beta_boot_git_ops.Base.{
  ℕ, zero, suc, ◌+◌, ◌≤◌, ◌≡◌, refl, sym, ap, ◌∙◌, subst, ◌⊎◌, inl, inr, true, false, List, [], ◌∷◌,
  ◌++◌, append-nil, arith, Bool-cases, List-cases, length, drop, All, length-snoc, length-drop, u64,
}

report_idle : (b : Bus) → (report b).reporting ≡ false
unfolding report
report_idle b = ground arith

report_queue : (b : Bus) → (report b).queue ≡ b.queue
unfolding report
report_queue b = ground arith

receive_queue : (b : Bus) → b.reporting ≡ false → (receive b).queue ≡ drop 1 b.queue
receive_queue b idle = elim (List-cases b.queue) [
  | inl e ↦ rw (receive_none b (inl e), e) refl
  | inr (r, rest, e) ↦ rw (receive_one b r rest e idle, e) refl
]

-- A drop that has not been reported is reported behind a record that is still to be written.
abbrev IsDue : Bus → Type 0
IsDue b = (b.dropped ≡ b.last_drop_report) ⊎ ((1 ≤ length b.queue) ⊎ (b.reporting ≡ true))

receive-IsDue : (b : Bus) → IsDue b → IsDue (receive b)
receive-IsDue b h = elim (List-cases b.queue) [
  | inl e ↦ rw (receive_none b (inl e)) h
  | inr (r, rest, e) ↦ elim (Bool-cases b.reporting) [
    | inl busy ↦ rw (receive_none b (inr busy)) h
    | inr idle ↦ rw (receive_one b r rest e idle) (inr (inr refl))
  ]
]

report-IsDue : (b : Bus) → IsDue b → IsDue (report b)
unfolding report
report-IsDue b h = ground arith

try_send_grows : (b : Bus) (r : EmissionRecord) → length b.queue ≤ length (try_send b r).queue
unfolding try_send
try_send_grows b r = ground (arith, length-snoc b.queue r)

sample_latency-IsDue : (b : Bus) → IsDue b → IsDue (sample_latency b)
unfolding sample_latency try_send
sample_latency-IsDue b h =
    ground (arith, length-snoc b.queue (scheduler 0 0 (emit_latency_us b.emit_max_us)))

-- A record is dropped only behind one that is queued.
sent-IsDue :
    (b : Bus) (r : EmissionRecord)
    → 1 ≤ b.capacity
    → IsDue b
    → IsDue (count_drop (try_send b r) (is_full b))
unfolding count_drop try_send
sent-IsDue b r c h = ground (arith, length-snoc b.queue r)

emit-IsDue :
    (b : Bus) (us : ℕ) (r : EmissionRecord) → 1 ≤ b.capacity → IsDue b → IsDue (emit b us r)
unfolding emit count_emit
emit-IsDue b us r c h = sample_latency-IsDue _ (sent-IsDue b r c h)

capacity_kept : (b : Bus) (a : Action) → (act b a).capacity ≡ b.capacity
unfolding act emit sample_latency count_emit count_drop try_send report
capacity_kept b (emits us r) = ground arith
capacity_kept b receives = elim (List-cases b.queue) [
  | inl e ↦ rw (receive_none b (inl e)) refl
  | inr (r, rest, e) ↦ elim (Bool-cases b.reporting) [
    | inl busy ↦ rw (receive_none b (inr busy)) refl
    | inr idle ↦ rw (receive_one b r rest e idle) refl
  ]
]
capacity_kept b reports = ground arith

act-IsDue : (b : Bus) (a : Action) → 1 ≤ b.capacity → IsDue b → IsDue (act b a)
unfolding act
act-IsDue b (emits us r) c h = emit-IsDue b us r c h
act-IsDue b receives c h = receive-IsDue b h
act-IsDue b reports c h = report-IsDue b h

run-IsDue : (b : Bus) (actions : List Action) → 1 ≤ b.capacity → IsDue b → IsDue (run b actions)
unfolding run
run-IsDue b [] c h = h
run-IsDue b (a ∷ rest) c h =
    run-IsDue (act b a) rest (omega (arith, c, capacity_kept b a)) (act-IsDue b a c h)

length-zero {ℓ} : {A : Type ℓ} (xs : List A) → length xs ≡ 0 → xs ≡ []
length-zero [] h = refl
length-zero (x ∷ xs) h = ground arith

taken :
    (n : ℕ) (b : Bus)
    → length b.queue ≡ suc n
    → b.reporting ≡ false
    → length (report (receive b)).queue ≡ n
taken n b l idle =
    ap length (report_queue (receive b) ∙ receive_queue b idle)
    ∙ length-drop 1 b.queue
    ∙ rw l (omega arith)

-- What draining leads to.
record Drained (capacity : ℕ) (es : List EmissionRecord) (b : Bus) : Type 0 where
  queue : b.queue ≡ []
  due : IsDue b
  idle : b.reporting ≡ false
  keeps : Keeps capacity es b

drain_up_to-Drained :
    (capacity n : ℕ) (es : List EmissionRecord) (b : Bus)
    → length b.queue ≡ n
    → b.reporting ≡ false
    → IsDue b
    → Keeps capacity es b
    → Drained capacity es (drain_up_to n b)
unfolding drain_up_to
drain_up_to-Drained capacity zero es b l idle due k = record {
  queue = length-zero b.queue l;
  due = due;
  idle = idle;
  keeps = k;
}
drain_up_to-Drained capacity (suc n) es b l idle due k =
    drain_up_to-Drained capacity n es (report (receive b)) (taken n b l idle)
      (report_idle (receive b)) (report-IsDue (receive b) (receive-IsDue b due))
      (report-Keeps (receive b) (receive-Keeps b b.queue refl k))

-- The records that were written, of those that were emitted.
pub record Delivered (es : List EmissionRecord) (b : Bus) : Type 0 where
  pub queue : b.queue ≡ []
  pub in_order : IsSubsequence (foreign b.written) es
  pub lost : ℕ
  pub all_counted : length es ≡ length (foreign b.written) + lost
  pub dropped_is_lost : b.dropped ≡ u64 lost
  pub reported : b.last_drop_report ≡ b.dropped

settled : (b : Bus) → b.queue ≡ [] → b.reporting ≡ false → IsDue b → b.last_drop_report ≡ b.dropped
settled b e idle (inl same) = sym same
settled b e idle (inr (inl more)) = omega (arith, ap length e, more)
settled b e idle (inr (inr busy)) = cc

Delivered-of :
    (capacity : ℕ) (es : List EmissionRecord) (b : Bus) → Drained capacity es b → Delivered es b
Delivered-of capacity es b d =
    let written : held b ≡ foreign b.written =
      ap (λ q. foreign (b.written ++ q)) d.queue ∙ ap foreign (append-nil b.written) in
    record {
      queue = d.queue;
      in_order = subst (λ x. IsSubsequence x es) written d.keeps.in_order;
      lost = d.keeps.lost;
      all_counted = omega (arith, d.keeps.all_counted, ap length written);
      dropped_is_lost = d.keeps.dropped_is_lost;
      reported = settled b d.queue d.idle d.due;
    }

-- Nothing is left behind. Whatever the tasks did before, once the writer has drained the channel it
-- has written every record that was emitted, in order, but for those that the drop counter counts
-- modulo 2^64, and the count has been written too. The channel has room for one record, and the
-- tasks emit no record of the kinds that the bus makes.
pub drain-Delivered :
    (capacity : ℕ) (actions : List Action)
    → 1 ≤ capacity
    → All (λ r. is_own r ≡ false) (emitted actions)
    → Delivered (emitted actions) (drain (run (spawn capacity) actions))
unfolding drain
drain-Delivered capacity actions c h =
    let b = run (spawn capacity) actions in
    let k = run-Keeps capacity actions h in
    let due = run-IsDue (spawn capacity) actions (unfold spawn in c) (inl (unfold spawn in refl)) in
    Delivered-of capacity (emitted actions) _ (
      drain_up_to-Drained capacity (length b.queue) (emitted actions) (report b)
        (ap length (report_queue b)) (report_idle b) (report-IsDue b due) (report-Keeps b k))
