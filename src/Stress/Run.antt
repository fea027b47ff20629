-- ===== src/Stress/Run.antt =====
-- chat2/examples/stress.rs: the counts of a whole run.
use beta_boot_git_ops.Chat.{Network}
use beta_boot_git_ops.Concurrent.{System, run, Spawn, spawn_all}
use beta_boot_git_ops.Concurrent.Isolation.{
  goal_of, AreApart, AreApart-AreDistinct, spawned-AreAt, spawned-held, spawned-length,
}
use beta_boot_git_ops.Concurrent.Moves.{run-AreAt}
use beta_boot_git_ops.Handler.{EventHandler}
use beta_boot_git_ops.Handler
use beta_boot_git_ops.Normalize.{SerdeJson}
use beta_boot_git_ops.Stress.Totals.{
  IsReturned, returned-held, returned-coming, alone_committed, alone_counted, coming-alone,
  AreAt-committed, coming-trailers,
}
use beta_boot_git_ops.Request.{OpenAiCompatDriver}
use beta_boot_git_ops.Stress.{new_sink, write_all, spawns, system, count_committed}
use beta_boot_git_ops.Stress.Counts.{
  reads_of, events_of, trailers_of, reads_of-IsQuiet, events_of-IsQuiet, trailers_of-IsQuiet,
  write_all-Counts,
}
use beta_boot_git_ops.Throughput.{Floats}
use beta_boot_git_ops.Base.{
  ℕ, zero, suc, ◌^◌, ◌≤◌, ◌<◌, ◌≡◌, refl, ap, ◌∙◌, subst, ◌≢◌, false, List, map, arith, length, All,
  u32, u64,
}

spawned-apart :
    {C : Type 0} (j : SerdeJson) (fl : Floats) (h : EventHandler) (network : Network)
    (d : OpenAiCompatDriver C) (id first n : ℕ)
    → id < first
    → All (λ (s : Spawn). id ≢ s.id) (spawns network d first n)
unfolding spawns
spawned-apart j fl h network d id first zero less = tt
spawned-apart j fl h network d id first (suc n) less =
    (omega (arith, less), spawned-apart j fl h network d id (suc first) n (omega arith))

spawns-AreApart :
    {C : Type 0} (j : SerdeJson) (fl : Floats) (h : EventHandler) (network : Network)
    (d : OpenAiCompatDriver C) (first n : ℕ)
    → AreApart j fl h (spawns network d first n)
unfolding spawns
spawns-AreApart j fl h network d first zero = tt
spawns-AreApart j fl h network d first (suc n) = (
  spawned-apart j fl h network d first (suc first) n (omega arith),
  spawns-AreApart j fl h network d (suc first) n,
)

length-spawns :
    {C : Type 0} (network : Network) (d : OpenAiCompatDriver C) (first n : ℕ)
    → length (spawns network d first n) ≡ n
unfolding spawns
length-spawns network d first zero = refl
length-spawns network d first (suc n) = ap suc (length-spawns network d (suc first) n)

-- What the run counts, from what each turn comes to alone on a handler of its own.
pub record Totals (j : SerdeJson) (fl : Floats) (ss : List Spawn) (n : ℕ) (q : System)
    : Type 0 where
  pub committed : count_committed q.tasks ≡ alone_committed j fl (Handler.new n 0 false) ss
  pub reads :
      (write_all new_sink q.handler.bus).reads
      ≡ u64 (alone_counted j fl (Handler.new n 0 false) reads_of ss)
  pub events :
      (write_all new_sink q.handler.bus).events
      ≡ u64 (alone_counted j fl (Handler.new n 0 false) events_of ss)
  pub trailers : (write_all new_sink q.handler.bus).trailers ≡ n
  pub buckets : q.handler.send_buckets ≡ n

module _ {C : Type 0} (j : SerdeJson) (fl : Floats) (network : Network) (d : OpenAiCompatDriver C)
    (n : ℕ) where
  -- With `m` buckets at the start.
  abbrev ran : List ℕ → ℕ → System
  ran schedule m = run schedule (spawn_all j fl (Handler.new m 0 false) (spawns network d 1 n))

  ran-Totals :
      (schedule : List ℕ)
      → 1 ≤ n
      → n < 2 ^ 32
      → All IsReturned (ran schedule n).tasks
      → Totals j fl (spawns network d 1 n) n (ran schedule n)
  unfolding spawn_all Handler.new
  ran-Totals schedule some_turn small done =
      let h : EventHandler = Handler.new n 0 false in
      let ss = spawns network d 1 n in
      let p : System = spawn_all j fl h ss in
      let q = ran schedule n in
      let free = spawned-held j fl h ss in
      let (at, kept, tallied) =
        run-AreAt schedule (map (goal_of j fl h) ss) p
          (AreApart-AreDistinct j fl h ss (spawns-AreApart j fl h network d 1 n))
          (spawned-AreAt j fl h ss)
          (omega (arith, spawned-length j fl h ss, length-spawns network d 1 n))
          (omega (arith, free, small)) in
      let (reads, events, trailers) =
        write_all-Counts q.handler.bus new_sink 0 0 0 (omega arith, omega arith, omega arith) in
      record {
        committed = AreAt-committed j fl h refl some_turn small q.handler ss q.tasks at done;
        reads =
            reads
            ∙ ap u64 (
                omega (
                  arith,
                  tallied reads_of reads_of-IsQuiet,
                  returned-coming reads_of q.tasks done,
                  coming-alone j fl h refl some_turn small reads_of reads_of-IsQuiet ss,
                ));
        events =
            events
            ∙ ap u64 (
                omega (
                  arith,
                  tallied events_of events_of-IsQuiet,
                  returned-coming events_of q.tasks done,
                  coming-alone j fl h refl some_turn small events_of events_of-IsQuiet ss,
                ));
        trailers = omega (
          arith,
          trailers,
          tallied trailers_of trailers_of-IsQuiet,
          returned-coming trailers_of q.tasks done,
          coming-trailers j fl h refl some_turn small ss,
          length-spawns network d 1 n,
          small,
        );
        buckets = omega (arith, kept, free, returned-held q.tasks done);
      }

  -- Where there are turns, fewer than 2^32, and all have returned, then whatever the order in which
  -- they went on: as many have committed as do alone; a sink handed all their records has counted
  -- the reads and the events that they have alone, modulo 2^64, and as many trailers as there are
  -- turns; and all buckets are free again.
  pub system-Totals :
      (schedule : List ℕ)
      → 1 ≤ n
      → n < 2 ^ 32
      → All IsReturned (run schedule (system j fl network d n)).tasks
      → Totals j fl (spawns network d 1 n) n (run schedule (system j fl network d n))
  unfolding system
  system-Totals schedule some_turn small done =
      let fits : n ≡ u32 n = omega (arith, small) in
      subst
        (λ m.
          All IsReturned (ran schedule m).tasks
          → Totals j fl (spawns network d 1 n) n (ran schedule m))
        fits (ran-Totals schedule some_turn small) done
