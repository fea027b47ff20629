-- ===== src/Concurrent/Moves.antt =====
-- One operation of one of many tasks, with a bucket for each of them: the accounts of all streams.
use beta_boot_git_ops.Concurrent.{Task, advance, System, move_at, move, run}
use beta_boot_git_ops.Concurrent.Discipline.{own, held, held-one, IsOf}
use beta_boot_git_ops.Concurrent.Steps.{
  verdict_of, path, account, Kept, advance-Kept, advance-other,
}
use beta_boot_git_ops.Concurrent.Tally.{tally, IsQuiet}
use beta_boot_git_ops.Emission.{EmissionRecord}
use beta_boot_git_ops.Handler.{EventHandler}
use beta_boot_git_ops.Turn.{TurnVerdict}
use beta_boot_git_ops.Base.{
  ℕ, zero, suc, ◌+◌, ◌^◌, ◌≤◌, ◌<◌, ◌≡◌, refl, sym, ap, ◌∙◌, ◌≢◌, List, [], ◌∷◌, arith, length, All,
}

abbrev pub held_all : List Task → ℕ
held_all [] = 0
held_all (t ∷ ts) = held t + held_all ts

-- What a stream is to come to.
pub record Goal : Type 0 where
  pub id : ℕ
  pub verdict : TurnVerdict
  pub records : List EmissionRecord

pub record IsAt (h : EventHandler) (g : Goal) (t : Task) : Type 0 where
  pub verdict : verdict_of t ≡ g.verdict
  pub records : account g.id (h, t) ≡ g.records
  pub of_stream : IsOf g.id t

-- Every task is on its way to its goal.
abbrev pub AreAt : EventHandler → List Goal → List Task → Type 0
AreAt h [] [] = Unit
AreAt h [] (t ∷ ts) = ⊥
AreAt h (g ∷ gs) [] = ⊥
AreAt h (g ∷ gs) (t ∷ ts) = IsAt h g t × AreAt h gs ts

-- The stream has none of these goals.
abbrev pub IsApart : ℕ → List Goal → Type 0
IsApart s = All (λ g. s ≢ g.id)

abbrev pub AreDistinct : List Goal → Type 0
AreDistinct [] = Unit
AreDistinct (g ∷ gs) = IsApart g.id gs × AreDistinct gs

-- The handlers have the same records of each stream but for this one.
abbrev Spares : ℕ → EventHandler → EventHandler → Type 0
Spares id h h' = (s : ℕ) → s ≢ id → own s h'.bus ≡ own s h.bus

IsAt-same :
    {h h' : EventHandler} {g : Goal} (t : Task)
    → own g.id h'.bus ≡ own g.id h.bus
    → IsAt h g t
    → IsAt h' g t
IsAt-same {g = g} t e p = record {
  verdict = p.verdict;
  records = rw e p.records;
  of_stream = p.of_stream;
}

AreAt-spared :
    (h h' : EventHandler) (id : ℕ) (gs : List Goal) (ts : List Task)
    → Spares id h h'
    → IsApart id gs
    → AreAt h gs ts
    → AreAt h' gs ts
AreAt-spared h h' id [] [] f a p = tt
AreAt-spared h h' id [] (t ∷ ts) f a p = elim p [ ]
AreAt-spared h h' id (g ∷ gs) [] f a p = elim p [ ]
AreAt-spared h h' id (g ∷ gs) (t ∷ ts) f (a, as_) (p, ps) =
    (IsAt-same t (f g.id (λ e. a (sym e))) p, AreAt-spared h h' id gs ts f as_ ps)

-- The free buckets and those that are held.
abbrev pub buckets : EventHandler → List Task → ℕ
buckets h ts = h.send_buckets + held_all ts

-- What a count comes to, with the records to come.
abbrev pub coming : (EmissionRecord → ℕ) → List Task → ℕ
coming f [] = 0
coming f (t ∷ ts) = tally f (path t) + coming f ts

abbrev pub total_all : (EmissionRecord → ℕ) → EventHandler → List Task → ℕ
total_all f h ts = tally f h.bus + coming f ts

-- What a move of one of the tasks leaves as it was.
pub record Moved (gs : List Goal) (h : EventHandler) (ts : List Task) (h' : EventHandler)
    (ts' : List Task) : Type 0 where
  pub are_at : AreAt h' gs ts'
  pub same_buckets : buckets h' ts' ≡ buckets h ts
  pub same_length : length ts' ≡ length ts
  pub tallied : (f : EmissionRecord → ℕ) → IsQuiet f → total_all f h' ts' ≡ total_all f h ts
  pub spared : (s : ℕ) → IsApart s gs → own s h'.bus ≡ own s h.bus

held_all-le : (ts : List Task) → held_all ts ≤ length ts
held_all-le [] = omega arith
held_all-le (t ∷ ts) = omega (arith, held-one t, held_all-le ts)

pub move_at-Moved :
    (i : ℕ) (h : EventHandler) (gs : List Goal) (ts : List Task)
    → AreDistinct gs
    → AreAt h gs ts
    → length ts ≤ buckets h ts
    → buckets h ts < 2 ^ 32
    → let (h', ts') = move_at i h ts in Moved gs h ts h' ts'
unfolding move_at
move_at-Moved i h [] [] d p enough word = record {
  are_at = tt;
  same_buckets = refl;
  same_length = refl;
  tallied = λ f quiet. refl;
  spared = λ s a. refl;
}
move_at-Moved i h [] (t ∷ ts) d p enough word = elim p [ ]
move_at-Moved i h (g ∷ gs) [] d p enough word = elim p [ ]
move_at-Moved zero h (g ∷ gs) (t ∷ ts) (apart, d) (p, ps) enough word =
    let k : Kept g.id (h, t) (advance h t) =
      advance-Kept h g.id t p.of_stream (omega (arith, enough, held_all-le ts))
        (omega (arith, word)) in
    record {
      are_at = (
        record {
          verdict = k.verdict ∙ p.verdict;
          records = k.same_account ∙ p.records;
          of_stream = k.of_stream;
        },
        AreAt-spared h (advance h t).0 g.id gs ts
            (λ s other. advance-other h s g.id t other p.of_stream) apart ps,
      );
      same_buckets = omega (arith, k.buckets);
      same_length = refl;
      tallied = λ f quiet. omega (arith, k.tallied f quiet);
      spared = λ s a. advance-other h s g.id t a.0 p.of_stream;
    }
move_at-Moved (suc i) h (g ∷ gs) (t ∷ ts) (apart, d) (p, ps) enough word =
    let m =
      move_at-Moved i h gs ts d ps (omega (arith, enough, held-one t)) (omega (arith, word)) in
    record {
      are_at = (IsAt-same t (m.spared g.id apart) p, m.are_at);
      same_buckets = omega (arith, m.same_buckets);
      same_length = ap suc m.same_length;
      tallied = λ f quiet. omega (arith, m.tallied f quiet);
      spared = λ s a. m.spared s a.1;
    }

-- Every task stays on its way, whatever the schedule.
pub run-AreAt :
    (schedule : List ℕ) (gs : List Goal) (p : System)
    → AreDistinct gs
    → AreAt p.handler gs p.tasks
    → length p.tasks ≤ buckets p.handler p.tasks
    → buckets p.handler p.tasks < 2 ^ 32
    → let q = run schedule p in
      AreAt q.handler gs q.tasks
      × (buckets q.handler q.tasks ≡ buckets p.handler p.tasks)
      × ((f : EmissionRecord → ℕ)
          → IsQuiet f
          → total_all f q.handler q.tasks ≡ total_all f p.handler p.tasks)
unfolding run move
run-AreAt [] gs p d at enough word = (at, refl, λ f quiet. refl)
run-AreAt (i ∷ schedule) gs p d at enough word =
    let m = move_at-Moved i p.handler gs p.tasks d at enough word in
    let (h, ts) = move_at i p.handler p.tasks in
    let (at', same, tallied) =
      run-AreAt schedule gs (record { handler = h; tasks = ts }) d m.are_at
        (omega (arith, enough, m.same_buckets, m.same_length))
        (omega (arith, word, m.same_buckets)) in
    (at', same ∙ m.same_buckets, λ f quiet. tallied f quiet ∙ m.tallied f quiet)
