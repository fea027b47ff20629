-- ===== src/Throughput/Clock.antt =====
-- The starvation clock over a run of ticks.
use beta_boot_git_ops.Throughput.{Floats, next_ema, eval_throughput}
use beta_boot_git_ops.Base.{
  ℕ, ◌-◌, ◌≤◌, ◌≡◌, refl, ap, subst, ◌⊎◌, inl, inr, Bool, true, false, ◌&&◌, Option, none, some,
  List, [], ◌∷◌, ◌++◌, arith, leb, leb→le, Bool-cases, snoc, unwrap_or,
}

-- One tick: when it is, the bytes of its window, and whether the stream is past its first second.
pub record Tick : Type 0 where
  pub at : ℕ
  pub bytes : ℕ
  pub warmed : Bool

module _ (fl : Floats) (floor_bps sustained : ℕ) where
  -- A run of ticks stops at the first one that finds the stream starved.
  abbrev stop_at : Bool → Tick → Option (List Tick × Tick) → Option (List Tick × Tick)
  stop_at true t later = some ([], t)
  stop_at false t none = none
  stop_at false t (some (before, last)) = some (t ∷ before, last)

  -- The tick that finds the stream starved, and the ticks before it.
  unfoldable pub trip : fl.F → Option ℕ → List Tick → Option (List Tick × Tick)
  trip ema since [] = none
  trip ema since (t ∷ ts) =
      let (ema', starved, since') =
        eval_throughput fl ema t.bytes floor_bps t.warmed since t.at sustained in
      stop_at starved t (trip ema' since' ts)

  -- The average after these windows.
  abbrev pub ema_after : fl.F → List Tick → fl.F
  ema_after ema [] = ema
  ema_after ema (t ∷ ts) = ema_after (next_ema fl ema t.bytes) ts

  -- A tick that is past the first second with the average, its own window included, below the
  -- floor.
  abbrev pub is_low : fl.F → Tick → Bool
  is_low ema t = t.warmed && fl.lt (next_ema fl ema t.bytes) (fl.of_u64 floor_bps)

  -- Every one of these ticks is low, after the average that the ones before it leave.
  abbrev pub AllLow : fl.F → List Tick → Type 0
  AllLow ema [] = Unit
  AllLow ema (t ∷ ts) = (is_low ema t ≡ true) × AllLow (next_ema fl ema t.bytes) ts

  -- The clock that these ticks leave: when the low run that they end in began.
  clock-low :
      (ema : fl.F) (since : Option ℕ) (t : Tick)
      → is_low ema t ≡ true
      → eval_throughput fl ema t.bytes floor_bps t.warmed since t.at sustained ≡ (
        next_ema fl ema t.bytes,
        leb sustained (t.at - unwrap_or since t.at),
        some (unwrap_or since t.at),
      )
  unfolding eval_throughput
  clock-low ema since t e = rw e refl

  clock-high :
      (ema : fl.F) (since : Option ℕ) (t : Tick)
      → is_low ema t ≡ false
      → eval_throughput fl ema t.bytes floor_bps t.warmed since t.at sustained
        ≡ (next_ema fl ema t.bytes, false, none)
  unfolding eval_throughput
  clock-high ema since t e = rw e refl

  -- Ticks that end in a low run, from its first tick to the last at least as long as it must be.
  pub record LowRun (ema : fl.F) (ts : List Tick) (last : Tick) : Type 0 where
    pub before : List Tick
    pub first : Tick
    pub run : List Tick
    pub parts : ts ≡ before ++ (first ∷ run)
    pub low : AllLow (ema_after ema before) (first ∷ run)
    pub long : sustained ≤ last.at - first.at

  -- What a trip tells: a run that went on from where the clock was, or one within these ticks.
  abbrev Tripped : fl.F → Option ℕ → List Tick → Tick → Type 0
  Tripped ema since before last =
      ((s : ℕ) × (since ≡ some s) × AllLow ema (snoc before last) × (sustained ≤ last.at - s))
      ⊎ LowRun ema (snoc before last) last

  LowRun-cons :
      (ema : fl.F) (t : Tick) (ts : List Tick) (last : Tick)
      → LowRun (next_ema fl ema t.bytes) ts last
      → LowRun ema (t ∷ ts) last
  LowRun-cons ema t ts last r = record {
    before = t ∷ r.before;
    first = r.first;
    run = r.run;
    parts = ap (◌∷◌ t) r.parts;
    low = r.low;
    long = r.long;
  }

  Tripped-low :
      (ema : fl.F) (since : Option ℕ) (t : Tick) (before : List Tick) (last : Tick)
      → is_low ema t ≡ true
      → Tripped (next_ema fl ema t.bytes) (some (unwrap_or since t.at)) before last
      → Tripped ema since (t ∷ before) last
  Tripped-low ema (some s) t before last e (inl (s', q, l, g)) =
      inl (s, refl, (e, l), omega (arith, ap (λ x. unwrap_or x 0) q, g))
  Tripped-low ema none t before last e (inl (s', q, l, g)) = inr (record {
    before = [];
    first = t;
    run = snoc before last;
    parts = refl;
    low = (e, l);
    long = omega (arith, ap (λ x. unwrap_or x 0) q, g);
  })
  Tripped-low ema since t before last e (inr r) = inr (LowRun-cons ema t (snoc before last) last r)

  Tripped-first :
      (ema : fl.F) (since : Option ℕ) (t : Tick)
      → is_low ema t ≡ true
      → sustained ≤ t.at - unwrap_or since t.at
      → Tripped ema since [] t
  Tripped-first ema (some s) t e g = inl (s, refl, (e, tt), g)
  Tripped-first ema none t e g =
      inr (record { before = []; first = t; run = []; parts = refl; low = (e, tt); long = g })

  Tripped-high :
      (ema : fl.F) (since : Option ℕ) (t : Tick) (before : List Tick) (last : Tick)
      → Tripped (next_ema fl ema t.bytes) none before last
      → Tripped ema since (t ∷ before) last
  Tripped-high ema since t before last (inl (s, q, l, g)) = cc
  Tripped-high ema since t before last (inr r) = inr (LowRun-cons ema t (snoc before last) last r)

  as-Tripped :
      (ema : fl.F) (since : Option ℕ) (bs before : List Tick) (l last : Tick)
      → Path (Option (List Tick × Tick)) (some (bs, l)) (some (before, last))
      → Tripped ema since bs l
      → Tripped ema since before last
  as-Tripped ema since bs before l last e r =
      let same : Path (List Tick × Tick) (bs, l) (before, last) =
        ap (λ x. unwrap_or {A = List Tick × Tick} x (bs, l)) e in
      subst (λ (x : List Tick × Tick). Tripped ema since x.0 x.1) same r

  stop_at-Tripped :
      (ema : fl.F) (since : Option ℕ) (t : Tick) (b : Bool) (later : Option (List Tick × Tick))
      (before : List Tick) (last : Tick)
      → (b ≡ true → Tripped ema since [] t)
      → ((bs : List Tick) (l : Tick) → later ≡ some (bs, l) → Tripped ema since (t ∷ bs) l)
      → stop_at b t later ≡ some (before, last)
      → Tripped ema since before last
  stop_at-Tripped ema since t true later before last now on h =
      as-Tripped ema since [] before t last h (now refl)
  stop_at-Tripped ema since t false none before last now on h = cc
  stop_at-Tripped ema since t false (some (bs, l)) before last now on h =
      as-Tripped ema since (t ∷ bs) before l last h (on bs l refl)

  trip-Tripped :
      (ema : fl.F) (since : Option ℕ) (ts : List Tick) (before : List Tick) (last : Tick)
      → trip ema since ts ≡ some (before, last)
      → Tripped ema since before last
  unfolding trip
  trip-Tripped ema since [] before last h = cc
  trip-Tripped ema since (t ∷ ts) before last h =
      let stops : fl.F × Bool × Option ℕ → Type 0 =
        λ x. stop_at x.1 t (trip x.0 x.2 ts) ≡ some (before, last) in
      elim (Bool-cases (is_low ema t)) [
        | inl e ↦
            stop_at-Tripped ema since t (leb sustained (t.at - unwrap_or since t.at))
              (trip (next_ema fl ema t.bytes) (some (unwrap_or since t.at)) ts) before last
              (λ q. Tripped-first ema since t e (leb→le sustained (t.at - unwrap_or since t.at) q))
              (λ bs l q.
                Tripped-low ema since t bs l e
                  (trip-Tripped (next_ema fl ema t.bytes) (some (unwrap_or since t.at)) ts bs l q))
              (subst stops (clock-low ema since t e) h)
        | inr e ↦
            stop_at-Tripped ema since t false (trip (next_ema fl ema t.bytes) none ts) before last
              (λ q. cc)
              (λ bs l q.
                Tripped-high ema since t bs l
                  (trip-Tripped (next_ema fl ema t.bytes) none ts bs l q))
              (subst stops (clock-high ema since t e) h)
      ]

  -- The guard stops no stream that keeps up: where a run of ticks finds the stream starved, it
  -- ends in ticks that are all past the first second with the average below the floor, and these
  -- span at least the sustained time.
  pub trip-LowRun :
      (ema : fl.F) (ts : List Tick) (before : List Tick) (last : Tick)
      → trip ema none ts ≡ some (before, last)
      → LowRun ema (snoc before last) last
  trip-LowRun ema ts before last h = elim (trip-Tripped ema none ts before last h) [
    | inl (s, q, l, g) ↦ cc
    | inr r ↦ r
  ]
