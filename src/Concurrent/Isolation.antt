-- ===== src/Concurrent/Isolation.antt =====
-- chat2/src/openai.rs, `execute_turn` among other turns, and each of them alone.
use beta_boot_git_ops.Concurrent.{Task, returns, run, Spawn, task_of, spawn_all}
use beta_boot_git_ops.Concurrent.Alone.{alone, execute_turn-alone}
use beta_boot_git_ops.Concurrent.Discipline.{own, task_of-Free}
use beta_boot_git_ops.Concurrent.Solo.{Alone, alone-Alone}
use beta_boot_git_ops.Concurrent.Steps.{verdict_of, account}
use beta_boot_git_ops.Concurrent.Moves.{
  held_all, Goal, IsAt, AreAt, IsApart, AreDistinct, run-AreAt,
}
use beta_boot_git_ops.Handler.{EventHandler}
use beta_boot_git_ops.Normalize.{SerdeJson}
use beta_boot_git_ops.Throughput.{Floats}
use beta_boot_git_ops.Turn.{TurnVerdict, execute_turn}
use beta_boot_git_ops.Base.{
  ℕ, zero, suc, ◌^◌, ◌≤◌, ◌<◌, ◌≡◌, refl, sym, ap, ◌∙◌, subst, ◌≢◌, some, List, [], ◌∷◌, map,
  append-nil, arith, length, get_elem?, All,
}

module _ (j : SerdeJson) (fl : Floats) (h : EventHandler) where
  abbrev pub goal_of : Spawn → Goal
  goal_of s = record {
    id = s.id;
    verdict = verdict_of (task_of j fl h s);
    records = account s.id (h, task_of j fl h s);
  }

  -- No two of the turns have the same stream.
  abbrev pub AreApart : List Spawn → Type 0
  AreApart [] = Unit
  AreApart (s ∷ ss) = All (λ s'. s.id ≢ s'.id) ss × AreApart ss

  goal-IsApart : (s : ℕ) (ss : List Spawn) → All (λ s'. s ≢ s'.id) ss → IsApart s (map goal_of ss)
  goal-IsApart s [] a = tt
  goal-IsApart s (s' ∷ ss) (a, as_) = (a, goal-IsApart s ss as_)

  pub AreApart-AreDistinct : (ss : List Spawn) → AreApart ss → AreDistinct (map goal_of ss)
  AreApart-AreDistinct [] a = tt
  AreApart-AreDistinct (s ∷ ss) (a, as_) = (goal-IsApart s.id ss a, AreApart-AreDistinct ss as_)

  pub spawned-AreAt : (ss : List Spawn) → AreAt h (map goal_of ss) (map (task_of j fl h) ss)
  unfolding task_of
  spawned-AreAt [] = tt
  spawned-AreAt (s ∷ ss) = (
    record { verdict = refl; records = refl; of_stream = (task_of-Free j fl h s).0 },
    spawned-AreAt ss,
  )

  pub spawned-held : (ss : List Spawn) → held_all (map (task_of j fl h) ss) ≡ 0
  unfolding task_of
  spawned-held [] = refl
  spawned-held (s ∷ ss) = omega (arith, spawned-held ss, (task_of-Free j fl h s).1)

  pub spawned-length : (ss : List Spawn) → length (map (task_of j fl h) ss) ≡ length ss
  spawned-length [] = refl
  spawned-length (s ∷ ss) = ap suc (spawned-length ss)

  -- The turn at its end, where it stands alone.
  abbrev pub Agrees : EventHandler → Spawn → TurnVerdict → Type 0
  Agrees q s v =
      (h' : EventHandler) × (execute_turn j fl s.cfg s.id s.replies h ≡ some (v, h'))
      × (own s.id q.bus ≡ own s.id h'.bus)

  returned-Agrees :
      (q : EventHandler) (s : Spawn) (v : TurnVerdict)
      → 1 ≤ h.send_buckets
      → h.send_buckets < 2 ^ 32
      → IsAt q (goal_of s) (returns v)
      → Agrees q s v
  unfolding task_of own
  returned-Agrees q s v enough word p =
      let t = task_of j fl h s in
      let (of, free) = task_of-Free j fl h s in
      let a : Alone s.id h t (alone t h) =
        alone-Alone s.id t h of (omega (arith, enough)) (omega (arith, word, free)) in
      (
        (alone t h).1,
        execute_turn-alone j fl s.cfg s.id s.replies h
            ∙ ap (λ x. some (x, (alone t h).1)) (a.verdict ∙ sym p.verdict),
        sym (append-nil (own s.id q.bus)) ∙ (p.records ∙ sym a.records),
      )

  some-get_elem?-length :
      (ss : List Spawn) (i : ℕ) {s : Spawn} → get_elem? ss i ≡ some s → 1 ≤ length ss
  some-get_elem?-length [] i e = cc
  some-get_elem?-length (s ∷ ss) i e = omega arith

  AreAt-Agrees :
      (q : EventHandler) (i : ℕ) (ss : List Spawn) (ts : List Task) (s : Spawn) (v : TurnVerdict)
      → 1 ≤ h.send_buckets
      → h.send_buckets < 2 ^ 32
      → AreAt q (map goal_of ss) ts
      → get_elem? ss i ≡ some s
      → get_elem? ts i ≡ some (returns v)
      → Agrees q s v
  AreAt-Agrees q i [] [] s v enough word p e f = cc
  AreAt-Agrees q i [] (t ∷ ts) s v enough word p e f = elim p [ ]
  AreAt-Agrees q i (s' ∷ ss) [] s v enough word p e f = elim p [ ]
  AreAt-Agrees q zero (s' ∷ ss) (t ∷ ts) s v enough word (p, ps) e f =
      let same : s' ≡ s = cc in
      let done : t ≡ returns v = cc in
      subst (λ x. Agrees q x v) same
        (returned-Agrees q s' v enough word (subst (IsAt q (goal_of s')) done p))
  AreAt-Agrees q (suc i) (s' ∷ ss) (t ∷ ts) s v enough word (p, ps) e f =
      AreAt-Agrees q i ss ts s v enough word ps e f

  -- With the answers that the turn has beside the others.
  pub run-same :
      (ss : List Spawn) (schedule : List ℕ) (i : ℕ) (s : Spawn) (v : TurnVerdict)
      → AreApart ss
      → length ss ≤ h.send_buckets
      → h.send_buckets < 2 ^ 32
      → get_elem? ss i ≡ some s
      → let q = run schedule (spawn_all j fl h ss) in
        get_elem? q.tasks i ≡ some (returns v) → Agrees q.handler s v
  unfolding spawn_all
  run-same ss schedule i s v apart enough word e f =
      let p = spawn_all j fl h ss in
      let free = spawned-held ss in
      let (at, kept, tallied) =
        run-AreAt schedule (map goal_of ss) p (AreApart-AreDistinct ss apart) (spawned-AreAt ss)
          (omega (arith, spawned-length ss, enough)) (omega (arith, free, word)) in
      AreAt-Agrees (run schedule p).handler i ss (run schedule p).tasks s v
        (omega (arith, some-get_elem?-length ss i e, enough)) word at e f
