-- ===== src/Concurrent/WaitFree.antt =====
-- chat2/src/openai.rs, `execute_turn` among other turns: how many operations it has before it.
use beta_boot_git_ops.Concurrent.{
  Task, returns, emits, takes, gives, take_bucket, advance, System, move_at, move, run, Spawn,
  task_of, spawn_all,
}
use beta_boot_git_ops.Handler.{EventHandler}
use beta_boot_git_ops.Normalize.{SerdeJson}
use beta_boot_git_ops.Throughput.{Floats}
use beta_boot_git_ops.Turn.{TurnVerdict}
use beta_boot_git_ops.Base.{
  ℕ, zero, suc, ◌+◌, ◌-◌, ◌≤◌, ◌≡◌, refl, sym, ap, ◌∙◌, subst, ◌≢◌, inl, inr, some, List, [], ◌∷◌,
  map, arith, ◌==◌, if◌then◌else◌, ==_iff, Bool-cases, get_elem?,
}

-- As many operations as a task has before it at most.
unfoldable pub work : Task → ℕ
work (returns v) = 0
work (emits r t) = 1 + work t
work (takes s a granted denied) = 2 + (work granted + work denied)
work (gives s a t) = 2 + work t

-- How often the schedule names the task.
abbrev pub count : ℕ → List ℕ → ℕ
count i [] = 0
count i (k ∷ ks) = (if k == i then 1 else 0) + count i ks

advance-work : (h : EventHandler) (t : Task) → work (advance h t).1 ≤ work t - 1
unfolding advance work
advance-work h (returns v) = omega arith
advance-work h (emits r t) = omega arith
advance-work h (takes s a granted denied) =
    elim h.send_buckets
      as (λ v. work (take_bucket h s a granted denied v).1 ≤ 2 + (work granted + work denied) - 1) [
        | zero ↦ omega arith
        | suc v ↦ omega arith
      ]
advance-work h (gives s a t) = omega arith

work-zero : (t : Task) → work t ≡ 0 → (v : TurnVerdict) × (t ≡ returns v)
unfolding work
work-zero (returns v) e = (v, refl)
work-zero (emits r t) e = absurd (omega arith)
work-zero (takes s a granted denied) e = absurd (omega arith)
work-zero (gives s a t) e = absurd (omega arith)

-- Some work less, or none left.
move_at-same :
    (i : ℕ) (h : EventHandler) (ts : List Task) (t : Task)
    → get_elem? ts i ≡ some t
    → (t' : Task) × (get_elem? (move_at i h ts).1 i ≡ some t') × (work t' ≤ work t - 1)
unfolding move_at
move_at-same i h [] t e = cc
move_at-same zero h (x ∷ ts) t e =
    ((advance h x).1, refl, subst (λ y. work (advance h x).1 ≤ work y - 1) (cc) (advance-work h x))
move_at-same (suc i) h (x ∷ ts) t e = move_at-same i h ts t e

move_at-other :
    (k i : ℕ) (h : EventHandler) (ts : List Task)
    → k ≢ i
    → get_elem? (move_at k h ts).1 i ≡ get_elem? ts i
unfolding move_at
move_at-other k i h [] other = refl
move_at-other zero zero h (x ∷ ts) other = absurd (other refl)
move_at-other zero (suc i) h (x ∷ ts) other = refl
move_at-other (suc k) zero h (x ∷ ts) other = refl
move_at-other (suc k) (suc i) h (x ∷ ts) other = move_at-other k i h ts (λ e. other (ap suc e))

pub get_elem?-map :
    (f : Spawn → Task) (ss : List Spawn) (i : ℕ) {s : Spawn}
    → get_elem? ss i ≡ some s
    → get_elem? (map f ss) i ≡ some (f s)
get_elem?-map f [] i e = cc
get_elem?-map f (s ∷ ss) zero e = cc
get_elem?-map f (s ∷ ss) (suc i) e = get_elem?-map f ss i e

run-returned :
    (schedule : List ℕ) (i : ℕ) (p : System) (t : Task)
    → get_elem? p.tasks i ≡ some t
    → work t ≤ count i schedule
    → (v : TurnVerdict) × (get_elem? (run schedule p).tasks i ≡ some (returns v))
unfolding run move
run-returned [] i p t e h =
    let (v, same) = work-zero t (omega arith) in (v, e ∙ ap (λ x. some x) same)
run-returned (k ∷ schedule) i p t e h = elim (Bool-cases (k == i)) [
  | inl same ↦
      let here : k ≡ i = (==_iff k i).0 same in
      let (t', e', less) = move_at-same i p.handler p.tasks t e in
      run-returned schedule i (move k p) t'
        (subst (λ n. get_elem? (move_at n p.handler p.tasks).1 i ≡ some t') (sym here) e')
        (omega (arith, less, rw same at h))
  | inr other ↦
      run-returned schedule i (move k p) t
        (move_at-other k i p.handler p.tasks (λ same. cc ((==_iff k i).1 same)) ∙ e)
        (omega (arith, rw other at h))
]

-- A turn returns once the schedule has named it as often as its tree has operations, whatever the
-- schedule has the other turns do in between, how far they get and how many buckets there are.
pub run-Returns :
    (j : SerdeJson) (fl : Floats) (h : EventHandler) (ss : List Spawn) (schedule : List ℕ) (i : ℕ)
    (s : Spawn)
    → get_elem? ss i ≡ some s
    → work (task_of j fl h s) ≤ count i schedule
    → (v : TurnVerdict) × (get_elem? (run schedule (spawn_all j fl h ss)).tasks i
        ≡ some (returns v))
unfolding spawn_all
run-Returns j fl h ss schedule i s e enough =
    run-returned schedule i (spawn_all j fl h ss) (task_of j fl h s)
      (get_elem?-map (task_of j fl h) ss i e) enough
