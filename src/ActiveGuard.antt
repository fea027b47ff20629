-- ===== src/ActiveGuard.antt =====
-- chat2/src/openai.rs, `ACTIVE_STREAMS`: the gauge of the streams that are active at a time.
use beta_boot_git_ops.Base.{
  ℕ, ◌+◌, ◌-◌, ◌^◌, ◌<◌, ◌≡◌, refl, ap, List, [], ◌∷◌, ◌++◌, arith, length, length-append, u64,
}

-- `fetch_add(1)` and `fetch_sub(1)`.
unfoldable pub enter : ℕ → ℕ
enter gauge = u64 (gauge + 1)

unfoldable pub leave : ℕ → ℕ
leave gauge = u64 (gauge + (2 ^ 64 - 1))

-- The gauge and the guards that are alive, by name.
pub record Guards : Type 0 where
  pub gauge : ℕ
  pub alive : List ℕ

-- Any task may enter; a guard that is alive may be dropped, once.
pub data Step : Guards → Guards → Type 0 where
  enters :
      (g : Guards) (name : ℕ) → Step g (record { gauge = enter g.gauge; alive = name ∷ g.alive })
  drops :
      (g : Guards) (name : ℕ) (before after : List ℕ)
      → g.alive ≡ before ++ (name ∷ after)
      → Step g (record { gauge = leave g.gauge; alive = before ++ after })

pub data Reach (g : Guards) : Guards → Type 0 where
  here : Reach g g
  next : {h k : Guards} → Reach g h → Step h k → Reach g k

unfoldable pub none_active : Guards
none_active = record { gauge = 0; alive = [] }

-- The gauge counts the guards modulo its width.
Counts : Guards → Type 0
Counts g = g.gauge ≡ u64 (length g.alive)

Step-Counts : {g h : Guards} → Step g h → Counts g → Counts h
unfolding Counts enter leave
Step-Counts (enters g name) c = omega (arith, c)
Step-Counts (drops g name before after e) c =
    omega (arith, c, ap length e, length-append before (name ∷ after), length-append before after)

Reach-Counts : {g h : Guards} → Reach g h → Counts g → Counts h
Reach-Counts here c = c
Reach-Counts (next r s) c = Step-Counts s (Reach-Counts r c)

-- Under every interleaving of streams that begin and end, the gauge is the number of guards that
-- are alive, as long as these are fewer than 2^64.
pub Reach-gauge :
    {g : Guards} → Reach none_active g → length g.alive < 2 ^ 64 → g.gauge ≡ length g.alive
unfolding none_active Counts
Reach-gauge r h = omega (arith, Reach-Counts r refl, h)
