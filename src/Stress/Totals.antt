-- ===== src/Stress/Totals.antt =====
-- The counts of turns beside each other, from what each comes to alone.
use beta_boot_git_ops.Concurrent.{Task, returns, Spawn, task_of}
use beta_boot_git_ops.Concurrent.Alone.{alone, execute_turn-alone}
use beta_boot_git_ops.Concurrent.Discipline.{held, task_of-Free}
use beta_boot_git_ops.Concurrent.Isolation.{goal_of}
use beta_boot_git_ops.Concurrent.Moves.{held_all, AreAt, coming}
use beta_boot_git_ops.Concurrent.Solo.{Alone, alone-Alone}
use beta_boot_git_ops.Concurrent.Steps.{verdict_of, path}
use beta_boot_git_ops.Concurrent.Tally.{tally, IsQuiet}
use beta_boot_git_ops.Concurrent.Trailers.Turns.{task_of-IsPending}
use beta_boot_git_ops.Emission.{EmissionRecord}
use beta_boot_git_ops.Handler.{EventHandler}
use beta_boot_git_ops.Normalize.{SerdeJson}
use beta_boot_git_ops.Stress.{committed_one, count_committed}
use beta_boot_git_ops.Stress.Counts.{trailers_of, path-trailer}
use beta_boot_git_ops.Throughput.{Floats}
use beta_boot_git_ops.Turn.{TurnVerdict, execute_turn}
use beta_boot_git_ops.Base.{
  ℕ, ◌+◌, ◌^◌, ◌≤◌, ◌<◌, ◌≡◌, refl, sym, ap, ◌∙◌, Option, none, some, List, [], ◌∷◌, map, arith,
  length, All,
}

abbrev pub IsReturned : Task → Type 0
IsReturned t = (v : TurnVerdict) × (t ≡ returns v)

pub returned-held : (ts : List Task) → All IsReturned ts → held_all ts ≡ 0
returned-held [] a = refl
returned-held (t ∷ ts) ((v, e), a) = omega (arith, ap held e, returned-held ts a)

pub returned-coming :
    (f : EmissionRecord → ℕ) (ts : List Task) → All IsReturned ts → coming f ts ≡ 0
returned-coming f [] a = refl
returned-coming f (t ∷ ts) ((v, e), a) =
    omega (arith, ap (λ x. tally f (path x)) e, returned-coming f ts a)

module _ (j : SerdeJson) (fl : Floats) (h : EventHandler) where
  -- What `execute_turn` comes to alone: whether it commits, and what it hands the bus.
  abbrev commits : Option (TurnVerdict × EventHandler) → ℕ
  commits none = 0
  commits (some (v, h')) = committed_one (returns v)

  abbrev counted : (EmissionRecord → ℕ) → Option (TurnVerdict × EventHandler) → ℕ
  counted f none = 0
  counted f (some (v, h')) = tally f h'.bus

  -- Summed over the turns, each of them alone.
  abbrev pub sum_of : (Option (TurnVerdict × EventHandler) → ℕ) → List Spawn → ℕ
  sum_of f [] = 0
  sum_of f (s ∷ ss) = f (execute_turn j fl s.cfg s.id s.replies h) + sum_of f ss

  abbrev pub alone_committed : List Spawn → ℕ
  alone_committed = sum_of commits

  abbrev pub alone_counted : (EmissionRecord → ℕ) → List Spawn → ℕ
  alone_counted f = sum_of (counted f)

  module _ (fresh : h.bus ≡ []) (some_bucket : 1 ≤ h.send_buckets)
      (word : h.send_buckets < 2 ^ 32) where
    spawned-Alone : (s : Spawn) → Alone s.id h (task_of j fl h s) (alone (task_of j fl h s) h)
    unfolding task_of
    spawned-Alone s =
        let (of, free) = task_of-Free j fl h s in
        alone-Alone s.id (task_of j fl h s) h of (omega (arith, some_bucket))
          (omega (arith, free, word))

    pub coming-alone :
        (f : EmissionRecord → ℕ)
        → IsQuiet f
        → (ss : List Spawn) → coming f (map (task_of j fl h) ss) ≡ alone_counted f ss
    unfolding task_of
    coming-alone f quiet [] = refl
    coming-alone f quiet (s ∷ ss) = omega (
      arith,
      coming-alone f quiet ss,
      ap (counted f) (execute_turn-alone j fl s.cfg s.id s.replies h),
      (spawned-Alone s).tallied f quiet,
      ap (tally f) fresh,
    )

    pub AreAt-committed :
        (q : EventHandler) (ss : List Spawn) (ts : List Task)
        → AreAt q (map (goal_of j fl h) ss) ts
        → All IsReturned ts
        → count_committed ts ≡ alone_committed ss
    unfolding count_committed task_of
    AreAt-committed q [] [] p a = refl
    AreAt-committed q [] (t ∷ ts) p a = elim p [ ]
    AreAt-committed q (s ∷ ss) [] p a = elim p [ ]
    AreAt-committed q (s ∷ ss) (t ∷ ts) (p, ps) ((v, e), a) =
        let same : v ≡ (alone (task_of j fl h s) h).0 =
          ap verdict_of (sym e) ∙ (p.verdict ∙ sym (spawned-Alone s).verdict) in
        omega (
          arith,
          AreAt-committed q ss ts ps a,
          ap commits (execute_turn-alone j fl s.cfg s.id s.replies h),
          ap (λ x. committed_one (returns x)) same,
          ap committed_one e,
        )

    pub coming-trailers :
        (ss : List Spawn) → coming trailers_of (map (task_of j fl h) ss) ≡ length ss
    unfolding task_of
    coming-trailers [] = refl
    coming-trailers (s ∷ ss) = omega (
      arith,
      path-trailer s.id (task_of j fl h s) (task_of-Free j fl h s).0 (task_of-IsPending j fl h s),
      coming-trailers ss,
    )
