-- ===== src/Concurrent/Together.antt =====
-- chat2/src/openai.rs, `execute_turn` among other turns, and each of them alone. The gauge of active
-- streams reads one number beside other turns and another alone, at any of a turn's ticks.
use beta_boot_git_ops.Attempt.{Reply}
use beta_boot_git_ops.Attempt.Gauge.{ungauged, all_ungauged, reply_without}
use beta_boot_git_ops.Concurrent.{returns, run, Spawn, task_of, spawn_all, turn_task}
use beta_boot_git_ops.Concurrent.Alone.{alone, execute_turn-alone}
use beta_boot_git_ops.Concurrent.Discipline.{when, is_own, own}
use beta_boot_git_ops.Concurrent.Gauge.{
  task_without, turn_task-without, handler_without, alone-without,
}
use beta_boot_git_ops.Concurrent.Isolation.{AreApart, Agrees, run-same}
use beta_boot_git_ops.Concurrent.WaitFree.{work, count, run-Returns}
use beta_boot_git_ops.Emission.{EmissionRecord, scheduler, content_throughput}
use beta_boot_git_ops.Handler.{EventHandler}
use beta_boot_git_ops.Normalize.{SerdeJson}
use beta_boot_git_ops.Throughput.{Floats}
use beta_boot_git_ops.Turn.{TurnVerdict, execute_turn}
use mathlib.Core.Path.{fun_ext}
use beta_boot_git_ops.Base.{
  ℕ, ◌^◌, ◌≤◌, ◌<◌, ◌≡◌, refl, sym, ap, ◌∙◌, Bool, true, false, some, List, [], ◌∷◌, ◌++◌,
  map-append, length, get_elem?,
}

is_own-ungauged : (s : ℕ) (r : EmissionRecord) → is_own s (ungauged r) ≡ is_own s r
is_own-ungauged s (scheduler s' a (content_throughput bps n)) = refl
is_own-ungauged s r = refl

when-ungauged : (b : Bool) (r : EmissionRecord) → when b (ungauged r) ≡ all_ungauged (when b r)
when-ungauged true r = refl
when-ungauged false r = refl

own-ungauged :
    (s : ℕ) (rs : List EmissionRecord) → own s (all_ungauged rs) ≡ all_ungauged (own s rs)
unfolding own
own-ungauged s [] = refl
own-ungauged s (r ∷ rs) =
    ap (λ b. when b (ungauged r) ++ own s (all_ungauged rs)) (is_own-ungauged s r)
    ∙ (ap (λ x. x ++ own s (all_ungauged rs)) (when-ungauged (is_own s r) r)
        ∙ (ap (λ x. all_ungauged (when (is_own s r) r) ++ x) (own-ungauged s rs)
            ∙ sym (map-append ungauged (when (is_own s r) r) (own s rs))))

-- The same answers, but for what the gauge reads at their ticks.
abbrev pub AreAlike : (ℕ → Reply) → (ℕ → Reply) → Type 0
AreAlike replies replies' = (n : ℕ) → reply_without (replies n) ≡ reply_without (replies' n)

module _ (j : SerdeJson) (fl : Floats) (h : EventHandler) where
  -- The turn beside others, and alone with these answers: the verdict, and the records but for the
  -- entries of buckets and the gauge.
  abbrev pub AgreesWith : EventHandler → Spawn → (ℕ → Reply) → TurnVerdict → Type 0
  AgreesWith q s replies v =
      (h' : EventHandler) × (execute_turn j fl s.cfg s.id replies h ≡ some (v, h'))
      × (all_ungauged (own s.id q.bus) ≡ all_ungauged (own s.id h'.bus))

  alone-alike :
      (s : Spawn) (replies : ℕ → Reply)
      → AreAlike s.replies replies
      → let t = task_of j fl h s in
        let t' =
          turn_task j fl s.cfg s.id h.knows_failover_exists h.retry_allowance_per_turn replies in
        ((alone t h).0 ≡ (alone t' h).0)
        × (all_ungauged (alone t h).1.bus ≡ all_ungauged (alone t' h).1.bus)
  unfolding task_of
  alone-alike s replies alike =
      let t = task_of j fl h s in
      let t' =
        turn_task j fl s.cfg s.id h.knows_failover_exists h.retry_allowance_per_turn replies in
      let trees : task_without t ≡ task_without t' =
        turn_task-without j fl s.cfg s.id h.knows_failover_exists h.retry_allowance_per_turn
          s.replies
        ∙ (ap
              (λ r.
                task_without
                  (turn_task j fl s.cfg s.id h.knows_failover_exists h.retry_allowance_per_turn r))
              (fun_ext alike)
            ∙ sym (
                turn_task-without j fl s.cfg s.id h.knows_failover_exists h.retry_allowance_per_turn
                  replies)) in
      let same =
        sym (alone-without t h)
        ∙ (ap (λ x. alone x (handler_without h)) trees ∙ alone-without t' h) in
      (ap (λ x. x.0) same, ap (λ (x : TurnVerdict × EventHandler). x.1.bus) same)

  alike-AgreesWith :
      (q : EventHandler) (s : Spawn) (replies : ℕ → Reply) (v : TurnVerdict)
      → AreAlike s.replies replies
      → Agrees j fl h q s v
      → AgreesWith q s replies v
  unfolding task_of
  alike-AgreesWith q s replies v alike (h0, e, same) =
      let t' =
        turn_task j fl s.cfg s.id h.knows_failover_exists h.retry_allowance_per_turn replies in
      let (verdict, records) = alone-alike s replies alike in
      let found : some (v, h0) ≡ some (alone (task_of j fl h s) h) =
        sym e ∙ execute_turn-alone j fl s.cfg s.id s.replies h in
      let end : (v, h0) ≡ alone (task_of j fl h s) h = cc in
      (
        (alone t' h).1,
        execute_turn-alone j fl s.cfg s.id replies h
            ∙ ap (λ x. some (x, (alone t' h).1)) (sym (ap (λ x. x.0) end ∙ verdict)),
        ap all_ungauged same
            ∙ (sym (own-ungauged s.id h0.bus)
                ∙ (ap (own s.id)
                      (ap (λ (x : TurnVerdict × EventHandler). all_ungauged x.1.bus) end ∙ records)
                    ∙ own-ungauged s.id (alone t' h).1.bus)),
      )

  -- Turns of different streams share a handler with a send bucket for each of them, as many as fit
  -- 32 bits. Whatever the schedule, one that has returned has returned the verdict that
  -- `execute_turn` returns alone, with the same answers but for what the gauge of active streams
  -- reads at their ticks, and has handed the bus the records that it emits alone, in their order, but
  -- for the entries of buckets, which say how many are free to all, and the gauge's readings in the
  -- throughput records.
  pub run-Agrees :
      (ss : List Spawn) (schedule : List ℕ) (i : ℕ) (s : Spawn) (replies : ℕ → Reply)
      (v : TurnVerdict)
      → AreApart j fl h ss
      → length ss ≤ h.send_buckets
      → h.send_buckets < 2 ^ 32
      → get_elem? ss i ≡ some s
      → AreAlike s.replies replies
      → let q = run schedule (spawn_all j fl h ss) in
        get_elem? q.tasks i ≡ some (returns v) → AgreesWith q.handler s replies v
  run-Agrees ss schedule i s replies v apart enough word e alike f =
      alike-AgreesWith (run schedule (spawn_all j fl h ss)).handler s replies v alike
        (run-same j fl h ss schedule i s v apart enough word e f)

  -- A turn among others does return, once the schedule has named it as often as its tree has
  -- operations, whatever the schedule has the other turns do in between and how far they get: the
  -- verdict that `execute_turn` returns alone, with the same answers but for the gauge's readings, and
  -- with the same records but for the entries of buckets and those readings. The turns are of
  -- different streams, and there is a send bucket for each of them, as many as fit 32 bits.
  pub run-Completes :
      (ss : List Spawn) (schedule : List ℕ) (i : ℕ) (s : Spawn) (replies : ℕ → Reply)
      → AreApart j fl h ss
      → length ss ≤ h.send_buckets
      → h.send_buckets < 2 ^ 32
      → get_elem? ss i ≡ some s
      → AreAlike s.replies replies
      → work (task_of j fl h s) ≤ count i schedule
      → let q = run schedule (spawn_all j fl h ss) in
        (v : TurnVerdict) × (get_elem? q.tasks i ≡ some (returns v))
        × AgreesWith q.handler s replies v
  run-Completes ss schedule i s replies apart enough word e alike moves =
      let (v, f) = run-Returns j fl h ss schedule i s e moves in
      (v, f, run-Agrees ss schedule i s replies v apart enough word e alike f)
