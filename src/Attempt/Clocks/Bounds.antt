-- ===== src/Attempt/Clocks/Bounds.antt =====
-- How many wakeups of the read loop there are, and when they come.
use beta_boot_git_ops.Attempt.{
  Wakes, cancels, overall_deadline_passes, stalls, closes, fails, ticks, receives,
}
use beta_boot_git_ops.Attempt.Clocks.{
  Item, chunk, closed, failed, World, Arm, cancel, overall, tick, stall, next, polled_from, Clocks,
  after, start_clocks, window, due, wakes_at, is_due, ready, ticked, received, woken, select,
}
use beta_boot_git_ops.Attempt.Clocks.Times.{InTime, wakes_at-InTime, ready-due}
use beta_boot_git_ops.Config.{OpenAiConfig}
use beta_boot_git_ops.Base.{
  ℕ, zero, suc, ◌+◌, ◌-◌, ◌*◌, ◌≤◌, ◌<◌, ◌≡◌, refl, ◌⊎◌, inl, inr, true, Option, none, some, arith,
  leb→le, unwrap_or, u64,
}

module _ (cfg : OpenAiConfig) (w : World) where
  -- Every read and every tick comes by the overall deadline, and no later than the stall window
  -- behind the read before it; until the first read, than the backstop. The reads are numbered on
  -- from the one before, in 64 bits.
  abbrev pub IsTimely : ℕ → ℕ → Wakes → Type 0
  IsTimely last seq cancels = Unit
  IsTimely last seq overall_deadline_passes = Unit
  IsTimely last seq stalls = Unit
  IsTimely last seq closes = Unit
  IsTimely last seq (fails detail) = Unit
  IsTimely last seq (ticks at active rest) =
      (at ≤ cfg.overall_deadline) × (at ≤ last + window cfg w seq) × IsTimely last seq rest
  IsTimely last seq (receives at wall bytes rest) =
      (last ≤ at)
      × (at ≤ cfg.overall_deadline)
      × (at ≤ last + window cfg w seq)
      × IsTimely at (u64 (seq + 1)) rest

  -- How much is left before the overall deadline of the time of the next item and of the next tick.
  left : Option ℕ → ℕ
  left none = 0
  left (some t) = suc cfg.overall_deadline - t

  work : Clocks → ℕ
  work c = left c.item_at + (suc cfg.overall_deadline - c.next_tick)

  left-le : (o : Option ℕ) → left o ≤ suc cfg.overall_deadline
  unfolding left
  left-le none = omega arith
  left-le (some t) = omega arith

  after-left :
      (o g : Option ℕ) (t : ℕ)
      → is_due cfg w t o ≡ true
      → t ≤ cfg.overall_deadline
      → ((x : ℕ) → g ≡ some x → 1 ≤ x)
      → left (after (unwrap_or o t) g) < left o
  unfolding left
  after-left none g t e h pos = cc
  after-left (some u) none t e h pos = omega (arith, leb→le u t e)
  after-left (some u) (some x) t e h pos = omega (arith, leb→le u t e, pos x refl)

  -- The rest of the loop ends, and in time.
  abbrev Ends : Clocks → Option Wakes → Type 0
  Ends c out = (r : Wakes) × (out ≡ some r) × IsTimely c.last_read_at c.read_seq r

  abbrev Rest : Clocks → (Clocks → Option Wakes) → Type 0
  Rest c go_on = (c' : Clocks) → InTime cfg w c' → work c' < work c → Ends c' (go_on c')

  -- Every item comes some time behind the one before it.
  abbrev pub IsSpaced : Type 0
  IsSpaced = (k x : ℕ) → w.gap k ≡ some x → 1 ≤ x

  tick-Ends :
      (c : Clocks) (n t : ℕ) (go_on : Clocks → Option Wakes) (it : Item)
      → InTime cfg w c
      → c.now ≤ t
      → t ≤ cfg.overall_deadline
      → t ≤ c.last_read_at + window cfg w c.read_seq
      → c.next_tick ≤ t
      → Rest c go_on
      → Ends c (woken cfg w c n t go_on it tick)
  unfolding woken work ticked
  tick-Ends c n t go_on it h later by soon is_due rest =
      let (r, e, timely) =
        rest (ticked cfg w c t)
          (record {
            read_before = omega (arith, h.read_before, later);
            by_deadline = by;
            by_stall = soon;
          })
          (omega arith) in
      (ticks t (w.active n) r, rw e refl, (by, soon, timely))

  next-Ends :
      (c : Clocks) (n t : ℕ) (go_on : Clocks → Option Wakes) (it : Item)
      → IsSpaced
      → InTime cfg w c
      → c.now ≤ t
      → t ≤ cfg.overall_deadline
      → t ≤ c.last_read_at + window cfg w c.read_seq
      → is_due cfg w t c.item_at ≡ true
      → Rest c go_on
      → Ends c (woken cfg w c n t go_on it next)
  unfolding woken work received
  next-Ends c n t go_on closed spaced h later by soon due rest = (closes, refl, tt)
  next-Ends c n t go_on (failed detail) spaced h later by soon due rest = (fails detail, refl, tt)
  next-Ends c n t go_on (chunk wall bytes) spaced h later by soon due rest =
      let less =
        after-left c.item_at (w.gap (suc c.next_item)) t due by (spaced (suc c.next_item)) in
      let (r, e, timely) =
        rest (received cfg w c t)
          (record { read_before = omega arith; by_deadline = by; by_stall = omega arith })
          (omega (arith, less)) in
      (receives t wall bytes r, rw e refl, (omega (arith, h.read_before, later), by, soon, timely))

  woken-Ends :
      (c : Clocks) (n t : ℕ) (go_on : Clocks → Option Wakes) (it : Item) (a : Arm)
      → IsSpaced
      → InTime cfg w c
      → c.now ≤ t
      → t ≤ cfg.overall_deadline
      → t ≤ c.last_read_at + window cfg w c.read_seq
      → (a ≡ overall) ⊎ (is_due cfg w t (due cfg w c a) ≡ true)
      → Rest c go_on
      → Ends c (woken cfg w c n t go_on it a)
  unfolding woken due
  woken-Ends c n t go_on it cancel spaced h later by soon d rest = (cancels, refl, tt)
  woken-Ends c n t go_on it overall spaced h later by soon d rest =
      (overall_deadline_passes, refl, tt)
  woken-Ends c n t go_on it stall spaced h later by soon d rest = (stalls, refl, tt)
  woken-Ends c n t go_on it tick spaced h later by soon (inl e) rest = cc
  woken-Ends c n t go_on it tick spaced h later by soon (inr d) rest =
      tick-Ends c n t go_on it h later by soon (leb→le c.next_tick t d) rest
  woken-Ends c n t go_on it next spaced h later by soon (inl e) rest = cc
  woken-Ends c n t go_on it next spaced h later by soon (inr d) rest =
      next-Ends c n t go_on it spaced h later by soon d rest

  select-Ends :
      (fuel n : ℕ) (c : Clocks)
      → IsSpaced
      → InTime cfg w c
      → work c < fuel
      → Ends c (select cfg w fuel n c)
  unfolding select
  select-Ends zero n c spaced h enough = absurd (omega arith)
  select-Ends (suc fuel) n c spaced h enough =
      let t = wakes_at cfg w c in
      let (later, by, soon) = wakes_at-InTime cfg w c h in
      let order = polled_from (w.polls_first n) in
      woken-Ends c n t (λ c'. select cfg w fuel (suc n) c') (w.item c.next_item)
        (ready cfg w c t order) spaced h later by soon
        (ready-due cfg w c t order (ready cfg w c t order) refl)
        (λ c' h' less. select-Ends fuel (suc n) c' spaced h' (omega (arith, less, enough)))

  -- Whatever the peer sends, also if it never closes the stream, and in whatever order the arms are
  -- polled, the loop's wakeups come to an end, where each item comes some time behind the one before
  -- it and there is more fuel than twice the nanoseconds of the overall deadline and two. Every read
  -- and every tick among them comes by the overall deadline, and no later than the stall window
  -- behind the read before it, or than the backstop where there was no read.
  pub select-IsTimely :
      (fuel : ℕ)
      → IsSpaced
      → 2 * suc cfg.overall_deadline < fuel
      → (r : Wakes) × (select cfg w fuel 0 (start_clocks w) ≡ some r) × IsTimely 0 0 r
  unfolding start_clocks work left
  select-IsTimely fuel spaced enough =
      select-Ends fuel 0 (start_clocks w) spaced
        (record { read_before = omega arith; by_deadline = omega arith; by_stall = omega arith })
        (omega (arith, left-le (after 0 (w.gap 0)), enough))
