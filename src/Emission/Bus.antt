-- ===== src/Emission/Bus.antt =====
-- chat2/src/emission.rs, `EmissionBus`: a bounded channel whose producers never wait, and the
-- writer task that hands the records to the sinks. Time enters as the measured latency of each
-- `emit`. The receiver stays open as long as there is a producer.
pub mod Held
pub mod Delivery
pub mod Drain
use beta_boot_git_ops.Emission.{EmissionRecord, scheduler, capture_drop, emit_latency_us}
use Prim.Native.Nat.{max}
use beta_boot_git_ops.Base.{
  ℕ, zero, suc, ◌+◌, ◌%◌, Bool, true, false, List, [], ◌∷◌, leb, ◌==◌, if◌then◌else◌, length, snoc,
  u64,
}

-- The shared counters, the channel, and the writer task's own state: what it has written to each
-- sink, and whether it has still to look at the drop counter.
pub record Bus : Type 0 where
  pub queue : List EmissionRecord
  pub capacity : ℕ
  pub dropped : ℕ
  pub emit_max_us : ℕ
  pub emit_count : ℕ
  pub last_drop_report : ℕ
  pub written : List EmissionRecord
  pub reporting : Bool

unfoldable pub spawn : ℕ → Bus
spawn capacity = record {
  queue = [];
  capacity = capacity;
  dropped = 0;
  emit_max_us = 0;
  emit_count = 0;
  last_drop_report = 0;
  written = [];
  reporting = false;
}

-- `try_send(rec).is_err()` is this test; the queue is then as it was.
abbrev pub is_full : Bus → Bool
is_full b = leb b.capacity (length b.queue)

unfoldable pub try_send : Bus → EmissionRecord → Bus
try_send b r = record b { queue = if is_full b then b.queue else snoc b.queue r }

count_drop : Bus → Bool → Bus
count_drop b full = record b { dropped = if full then u64 (b.dropped + 1) else b.dropped }

-- Every 256 emits the peak latency is sent, and reset.
sample_latency : Bus → Bus
unfolding try_send
sample_latency b =
    if b.emit_count % 256 == 0
    then try_send (record b { emit_max_us = 0 }) (scheduler 0 0 (emit_latency_us b.emit_max_us))
    else b

-- `fetch_max`, and the count of this emit.
count_emit : Bus → ℕ → Bus
count_emit b us = record b {
  emit_max_us = max b.emit_max_us us;
  emit_count = u64 (b.emit_count + 1);
}

unfoldable pub emit : Bus → ℕ → EmissionRecord → Bus
unfolding try_send count_drop sample_latency count_emit
emit b us r = sample_latency (count_emit (count_drop (try_send b r) (is_full b)) us)

-- The writer takes one record and writes it to the sinks.
unfoldable pub receive : Bus → Bus
receive b = elim b.queue [
  | [] ↦ b
  | r ∷ rest ↦
      if b.reporting
      then b
      else record b { queue = rest; written = snoc b.written r; reporting = true }
]

-- Then it looks at the drop counter, and reports a change.
unfoldable pub report : Bus → Bus
report b =
    if b.reporting
    then (if b.dropped == b.last_drop_report then record b { reporting = false } else record b {
      reporting = false;
      last_drop_report = b.dropped;
      written = snoc b.written (capture_drop b.dropped);
    })
    else b

-- What the tasks do, in any interleaving.
pub data Action : Type 0 where
  emits : ℕ → EmissionRecord → Action
  receives reports : Action

unfoldable pub act : Bus → Action → Bus
act b (emits us r) = emit b us r
act b receives = receive b
act b reports = report b

unfoldable pub run : Bus → List Action → Bus
run b [] = b
run b (a ∷ as') = run (act b a) as'

-- The end of the program: with no producer left the writer takes what is queued, record by record,
-- looking at the drop counter behind each.
drain_up_to : ℕ → Bus → Bus
unfolding receive report
drain_up_to zero b = b
drain_up_to (suc fuel) b = drain_up_to fuel (report (receive b))

-- The queue only shrinks, so its length is fuel enough.
unfoldable pub drain : Bus → Bus
unfolding drain_up_to report
drain b = drain_up_to (length b.queue) (report b)
