-- ===== src/Concurrent/Endings.antt =====
-- What a system of turns has of each at any time.
use beta_boot_git_ops.Concurrent.{Task, returns, run, Spawn, task_of, spawn_all}
use beta_boot_git_ops.Concurrent.Discipline.{task_of-Free}
use beta_boot_git_ops.Concurrent.Isolation.{AreApart}
use beta_boot_git_ops.Concurrent.Trailers.{verdicts_in, IsPending, IsForeign, IsOf-IsForeign, Stage}
use beta_boot_git_ops.Concurrent.Trailers.Turns.{task_of-IsPending, AreForeign, Among, run-Among}
use beta_boot_git_ops.Handler.{EventHandler}
use beta_boot_git_ops.Normalize.{SerdeJson}
use beta_boot_git_ops.Throughput.{Floats}
use beta_boot_git_ops.Turn.{TurnVerdict, verdict_record}
use beta_boot_git_ops.Base.{
  ℕ, zero, suc, ◌≡◌, sym, subst, ◌≢◌, ◌⊎◌, inl, some, List, [], ◌∷◌, map, get_elem?, All,
}

Among-Stage :
    (s i : ℕ) (h : EventHandler) (ts : List Task) (t : Task)
    → Among s h i ts
    → get_elem? ts i ≡ some t
    → Stage s (h, t)
Among-Stage s i h [] t a e = elim a [ ]
Among-Stage s zero h (x ∷ ts) t (p, fs) e = subst (λ y. Stage s (h, y)) (cc) p
Among-Stage s (suc i) h (x ∷ ts) t (f, a) e = Among-Stage s i h ts t a e

module _ (j : SerdeJson) (fl : Floats) (h : EventHandler) where
  task_of-IsForeign : (id : ℕ) (s : Spawn) → id ≢ s.id → IsForeign id (task_of j fl h s)
  unfolding task_of
  task_of-IsForeign id s other =
      IsOf-IsForeign id s.id (task_of j fl h s) other (task_of-Free j fl h s).0

  spawned-AreForeign :
      (id : ℕ) (ss : List Spawn)
      → All (λ s'. id ≢ s'.id) ss
      → AreForeign id (map (task_of j fl h) ss)
  spawned-AreForeign id [] a = tt
  spawned-AreForeign id (s ∷ ss) (a, as_) = (task_of-IsForeign id s a, spawned-AreForeign id ss as_)

  apart_at :
      (id i : ℕ) (ss : List Spawn) (s : Spawn)
      → All (λ s'. id ≢ s'.id) ss
      → get_elem? ss i ≡ some s
      → id ≢ s.id
  apart_at id i [] s a e = cc
  apart_at id zero (x ∷ ss) s (a, as_) e =
      let same : x ≡ s = cc in subst (λ (y : Spawn). id ≢ y.id) same a
  apart_at id (suc i) (x ∷ ss) s (a, as_) e = apart_at id i ss s as_ e

  spawned-Among :
      (i : ℕ) (ss : List Spawn) (s : Spawn)
      → AreApart j fl h ss
      → verdicts_in s.id h.bus ≡ []
      → get_elem? ss i ≡ some s
      → Among s.id h i (map (task_of j fl h) ss)
  unfolding task_of
  spawned-Among i [] s a fresh e = cc
  spawned-Among zero (x ∷ ss) s (a, as_) fresh e =
      let same : x ≡ s = cc in
      (
        inl (
          subst (λ y. IsPending s.id (task_of j fl h y)) (sym same) (task_of-IsPending j fl h s),
          fresh,
        ),
        spawned-AreForeign s.id ss (subst (λ (y : Spawn). All (λ s'. y.id ≢ s'.id) ss) same a),
      )
  spawned-Among (suc i) (x ∷ ss) s (a, as_) fresh e = (
    task_of-IsForeign s.id x (λ q. apart_at x.id i ss s a e (sym q)),
    spawned-Among i ss s as_ fresh e,
  )

  -- Turns of different streams share a handler that has no trailer of them, with any number of
  -- buckets. Whatever the schedule, each has returned a verdict and has exactly one trailer, which
  -- tells of that verdict, or it has not returned and has no trailer.
  pub run-Stage :
      (ss : List Spawn) (schedule : List ℕ) (i : ℕ) (s : Spawn) (t : Task)
      → AreApart j fl h ss
      → verdicts_in s.id h.bus ≡ []
      → get_elem? ss i ≡ some s
      → let q = run schedule (spawn_all j fl h ss) in
        get_elem? q.tasks i ≡ some t
        → (IsPending s.id t × (verdicts_in s.id q.handler.bus ≡ []))
          ⊎ ((v : TurnVerdict) × (t ≡ returns v)
              × (verdicts_in s.id q.handler.bus ≡ verdict_record v ∷ []))
  unfolding spawn_all
  run-Stage ss schedule i s t apart fresh e f =
      let q = run schedule (spawn_all j fl h ss) in
      Among-Stage s.id i q.handler q.tasks t
        (run-Among s.id i schedule (spawn_all j fl h ss) (spawned-Among i ss s apart fresh e)) f
