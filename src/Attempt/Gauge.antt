-- ===== src/Attempt/Gauge.antt =====
-- chat2/src/openai.rs:308, an attempt and the number of active streams, which all turns share: its
-- throughput records tell what the gauge read, and nothing else of the attempt is by it.
use beta_boot_git_ops.Attempt.{Wakes, ticks, receives, Reply, responds, Response, Run}
use beta_boot_git_ops.Attempt.Frames.{Handled}
use beta_boot_git_ops.Attempt.Locality.Loop.{ended_on, read_loop-on}
use beta_boot_git_ops.Attempt.Loop.{
  Ended, tick, receive, poll, or_continue, unless_starved, read_loop, start, answer, run_attempt,
  is_success,
}
use beta_boot_git_ops.Config.{OpenAiConfig}
use beta_boot_git_ops.Emission.{EmissionRecord, scheduler, content_throughput}
use beta_boot_git_ops.Handler.{EventHandler, StreamState}
use beta_boot_git_ops.Normalize.{SerdeJson}
use beta_boot_git_ops.Text.{codes, contains}
use beta_boot_git_ops.Throughput.{Floats}
use beta_boot_git_ops.Base.{
  ℕ, ◌≡◌, refl, sym, ap, ◌∙◌, inl, inr, Bool, true, false, Option, none, some, List, [], ◌∷◌, ◌++◌,
  map, map-append, append-nil, Bool-cases, unwrap_or,
}

-- The record with no number of active streams.
abbrev pub ungauged : EmissionRecord → EmissionRecord
ungauged (scheduler s a (content_throughput bps active)) = scheduler s a (content_throughput bps 0)
ungauged r = r

abbrev pub all_ungauged : List EmissionRecord → List EmissionRecord
all_ungauged rs = map ungauged rs

pub ungauged-behind :
    (b b' rs : List EmissionRecord)
    → all_ungauged b ≡ all_ungauged b'
    → all_ungauged (b ++ rs) ≡ all_ungauged (b' ++ rs)
ungauged-behind b b' rs e =
    map-append ungauged b rs ∙ (ap (λ b. b ++ all_ungauged rs) e ∙ sym (map-append ungauged b' rs))

-- The wakeups, with the gauge at zero whenever it is read, and such an answer.
unfoldable pub without_gauge : Wakes → Wakes
without_gauge (ticks at active rest) = ticks at 0 (without_gauge rest)
without_gauge (receives at wall chunk rest) = receives at wall chunk (without_gauge rest)
without_gauge ws = ws

unfoldable pub reply_without : Reply → Reply
unfolding without_gauge
reply_without (responds resp) = responds (record resp { wakes = without_gauge resp.wakes })
reply_without reply = reply

module _ (j : SerdeJson) (fl : Floats) (cfg : OpenAiConfig) where
  -- The same end and state of the stream, and the same records but for the gauge's readings.
  pub record Alike (x y : Ended j fl cfg) : Type 0 where
    pub same_end : x.0 ≡ y.0
    pub same_st : x.1.st ≡ y.1.st
    pub same_polls : x.1.select_polls ≡ y.1.select_polls
    pub same_records : all_ungauged x.1.handler.bus ≡ all_ungauged y.1.handler.bus

  Alike-refl : (x : Ended j fl cfg) → Alike x x
  Alike-refl x = record { same_end = refl; same_st = refl; same_polls = refl; same_records = refl }

  Alike-trans : (x y z : Ended j fl cfg) → Alike x y → Alike y z → Alike x z
  Alike-trans x y z p q = record {
    same_end = p.same_end ∙ q.same_end;
    same_st = p.same_st ∙ q.same_st;
    same_polls = p.same_polls ∙ q.same_polls;
    same_records = p.same_records ∙ q.same_records;
  }

  -- What was emitted before makes no other difference.
  on-Alike :
      (g g' : EventHandler) (x : Ended j fl cfg)
      → all_ungauged g.bus ≡ all_ungauged g'.bus
      → Alike (ended_on j fl cfg g x) (ended_on j fl cfg g' x)
  on-Alike g g' x e = record {
    same_end = refl;
    same_st = refl;
    same_polls = refl;
    same_records = ungauged-behind g.bus g'.bus x.1.handler.bus e;
  }

  -- The run with a handler that has emitted these.
  abbrev with_bus : Run fl.F → List EmissionRecord → Run fl.F
  with_bus r b = record r { handler = record r.handler { bus = b } }

  read_loop-on_bus :
      (ws : Wakes) (r : Run fl.F) (b : List EmissionRecord)
      → read_loop j fl cfg ws (with_bus r b)
        ≡ ended_on j fl cfg (record r.handler { bus = b }) (read_loop j fl cfg ws (with_bus r []))
  read_loop-on_bus ws r b =
      ap (λ b. read_loop j fl cfg ws (with_bus r b)) (sym (append-nil b))
      ∙ read_loop-on j fl cfg (record r.handler { bus = b }) ws (with_bus r [])

  read_loop-Alike :
      (ws : Wakes) (r : Run fl.F) (b b' : List EmissionRecord)
      → all_ungauged b ≡ all_ungauged b'
      → Alike (read_loop j fl cfg ws (with_bus r b)) (read_loop j fl cfg ws (with_bus r b'))
  read_loop-Alike ws r b b' e =
      rw (read_loop-on_bus ws r b, read_loop-on_bus ws r b')
        (on-Alike _ _ (read_loop j fl cfg ws (with_bus r [])) e)

  or_continue-Alike :
      (x : Handled fl.F) (k k' : Run fl.F → Ended j fl cfg)
      → ((r : Run fl.F) → Alike (k r) (k' r))
      → Alike (or_continue j fl cfg x k) (or_continue j fl cfg x k')
  or_continue-Alike (some e, r) k k' h = Alike-refl (e, r)
  or_continue-Alike (none, r) k k' h = h r

  -- Two runs that differ in what they have emitted, and two ways to go on.
  starved-Alike :
      (starved : Bool) (r : Run fl.F) (b b' : List EmissionRecord)
      (k k' : Run fl.F → Ended j fl cfg)
      → all_ungauged b ≡ all_ungauged b'
      → Alike (k (with_bus r b)) (k' (with_bus r b'))
      → Alike
          (unless_starved j fl cfg (starved, with_bus r b) k)
          (unless_starved j fl cfg (starved, with_bus r b') k')
  starved-Alike true r b b' k k' e h = record {
    same_end = refl;
    same_st = refl;
    same_polls = refl;
    same_records = ungauged-behind b b' _ e;
  }
  starved-Alike false r b b' k k' e h = h

  told-same :
      (b : List EmissionRecord) (s a bps n m : ℕ)
      → all_ungauged (b ++ (scheduler s a (content_throughput bps n) ∷ []))
        ≡ all_ungauged (b ++ (scheduler s a (content_throughput bps m) ∷ []))
  told-same b s a bps n m = map-append ungauged b _ ∙ sym (map-append ungauged b _)

  tick-Alike :
      (r : Run fl.F) (first : Option ℕ) (at active : ℕ) (rest : Wakes)
      → ((s : Run fl.F)
          → Alike (read_loop j fl cfg rest s) (read_loop j fl cfg (without_gauge rest) s))
      → Alike
          (unless_starved j fl cfg
            (tick j fl cfg r first at active)
            (λ s. read_loop j fl cfg rest s))
          (unless_starved j fl cfg
            (tick j fl cfg r first at 0)
            (λ s. read_loop j fl cfg (without_gauge rest) s))
  unfolding tick
  tick-Alike r none at active rest h = h r
  tick-Alike r (some first) at active rest h =
      let x = tick j fl cfg r (some first) at active in
      let y = tick j fl cfg r (some first) at 0 in
      let same : all_ungauged x.1.handler.bus ≡ all_ungauged y.1.handler.bus =
        told-same r.handler.bus r.st.stream_id r.st.attempt _ active 0 in
      starved-Alike x.0 x.1 x.1.handler.bus y.1.handler.bus (λ s. read_loop j fl cfg rest s)
        (λ s. read_loop j fl cfg (without_gauge rest) s) same
        (Alike-trans _ _ _ (h x.1)
          (read_loop-Alike (without_gauge rest) x.1 x.1.handler.bus y.1.handler.bus same))

  read_loop-without :
      (ws : Wakes) (r : Run fl.F)
      → Alike (read_loop j fl cfg ws r) (read_loop j fl cfg (without_gauge ws) r)
  unfolding read_loop without_gauge
  read_loop-without (ticks at active rest) r =
      tick-Alike (poll j fl cfg r) r.first_byte_at at active rest (λ s. read_loop-without rest s)
  read_loop-without (receives at wall chunk rest) r =
      or_continue-Alike (receive j fl cfg (poll j fl cfg r) at wall chunk)
        (λ s. read_loop j fl cfg rest s) (λ s. read_loop j fl cfg (without_gauge rest) s)
        (λ s. read_loop-without rest s)
  read_loop-without ws r = Alike-refl (read_loop j fl cfg ws r)

  answer-without :
      (resp : Response) (r : Run fl.F)
      → Alike
          (answer j fl cfg resp r)
          (answer j fl cfg (record resp { wakes = without_gauge resp.wakes }) r)
  unfolding answer
  answer-without resp r = elim (Bool-cases (is_success j fl cfg resp.status)) [
    | inl e ↦
        elim (Bool-cases (contains (codes "text/event-stream") (unwrap_or resp.content_type []))) [
          | inl f ↦ rw (e, f) (read_loop-without resp.wakes r)
          | inr f ↦ rw (e, f) (Alike-refl _)
        ]
    | inr e ↦ rw e (Alike-refl _)
  ]

  -- Whatever the gauge reads, the attempt ends as with zeros, with the same state of the stream,
  -- and with the same records but for what they tell of the gauge.
  pub run_attempt-without :
      (reply : Reply) (h : EventHandler) (st : StreamState) (polls : ℕ)
      → Alike
          (run_attempt j fl cfg reply h st polls)
          (run_attempt j fl cfg (reply_without reply) h st polls)
  unfolding run_attempt reply_without
  run_attempt-without (responds resp) h st polls = answer-without resp (start j fl cfg h st polls)
  run_attempt-without reply h st polls = Alike-refl (run_attempt j fl cfg reply h st polls)
