-- ===== src/Attempt/Clocks.antt =====
-- chat2/src/openai.rs, the `select!` of the read loop, on clocks that keep time: what it wakes up to,
-- for a peer that may send for ever or fall silent, as long as the loop goes on. Times are in
-- nanoseconds from the start of the stream. What the loop does between two waits takes no time here,
-- so no tick is missed.
pub mod Times
pub mod Bounds
pub mod Frames
pub mod Punctual
use beta_boot_git_ops.Attempt.{
  Wakes, cancels, overall_deadline_passes, stalls, closes, fails, ticks, receives,
}
use beta_boot_git_ops.Config.{OpenAiConfig, from_secs}
use beta_boot_git_ops.Base.{
  ℕ, zero, suc, ◌+◌, ◌%◌, Bool, true, false, Option, none, some, List, [], ◌∷◌, ◌++◌, ltb, leb,
  if◌then◌else◌, take, drop, unwrap_or, u64, ◌==◌, Text, Bytes,
}

-- What `stream.next()` brings.
pub data Item : Type 0 where
  chunk : (wall_unix_ms : ℕ) (bytes : Bytes) → Item
  closed : Item
  failed : (detail : Text) → Item

-- The peer's items by their number, with the time between each and the one before it, if it comes at
-- all; when the turn is cancelled, if it is; the number of active streams at each wakeup; and which
-- arm `select!` polls first, which is random.
pub record World : Type 0 where
  pub item : ℕ → Item
  pub gap : ℕ → Option ℕ
  pub cancelled_at : Option ℕ
  pub active : ℕ → ℕ
  pub polls_first : ℕ → ℕ

pub data Arm : Type 0 where
  cancel overall tick stall next : Arm

-- The arms as they stand, from one of them on and around.
abbrev pub arms : List Arm
arms = cancel ∷ overall ∷ tick ∷ stall ∷ next ∷ []

unfoldable pub polled_from : ℕ → List Arm
polled_from n = drop (n % 5) arms ++ take (n % 5) arms

-- The clocks of the loop: the last read and its number, the next tick, and the next item
-- with the time from which it is there.
pub record Clocks : Type 0 where
  pub now : ℕ
  pub last_read_at : ℕ
  pub read_seq : ℕ
  pub next_tick : ℕ
  pub next_item : ℕ
  pub item_at : Option ℕ

abbrev pub after : ℕ → Option ℕ → Option ℕ
after t none = none
after t (some g) = some (t + g)

unfoldable pub start_clocks : World → Clocks
start_clocks w = record {
  now = 0;
  last_read_at = 0;
  read_seq = 0;
  next_tick = 0;
  next_item = 0;
  item_at = after 0 (w.gap 0);
}

module _ (cfg : OpenAiConfig) (w : World) where
  unfoldable pub window : ℕ → ℕ
  window seq = if seq == 0 then cfg.first_byte_backstop else cfg.stall_timeout

  -- From when on the arm is ready.
  unfoldable pub due : Clocks → Arm → Option ℕ
  unfolding window
  due c cancel = w.cancelled_at
  due c overall = some cfg.overall_deadline
  due c tick = some c.next_tick
  due c stall = some (c.last_read_at + window c.read_seq)
  due c next = c.item_at

  abbrev pub earlier : ℕ → Option ℕ → ℕ
  earlier t none = t
  earlier t (some u) = if ltb u t then u else t

  -- The first time that some arm is ready, and when the loop that waits for it now wakes up.
  unfoldable pub first_due : Clocks → ℕ
  unfolding due
  first_due c =
      earlier
        (earlier (earlier (earlier cfg.overall_deadline (due c cancel)) (due c tick)) (due c stall))
        (due c next)

  abbrev pub no_sooner : ℕ → ℕ → ℕ
  no_sooner now t = if ltb t now then now else t

  unfoldable pub wakes_at : Clocks → ℕ
  unfolding first_due
  wakes_at c = no_sooner c.now (first_due c)

  abbrev pub is_due : ℕ → Option ℕ → Bool
  is_due t none = false
  is_due t (some u) = leb u t

  -- The first arm that is ready, in the order in which they are polled.
  unfoldable pub ready : Clocks → ℕ → List Arm → Arm
  unfolding due
  ready c t [] = overall
  ready c t (a ∷ as_) = let rest = ready c t as_ in if is_due t (due c a) then a else rest

  unfoldable pub ticked : Clocks → ℕ → Clocks
  ticked c t = record c { now = t; next_tick = c.next_tick + from_secs 1 }

  unfoldable pub received : Clocks → ℕ → Clocks
  received c t = record c {
    now = t;
    last_read_at = t;
    read_seq = u64 (c.read_seq + 1);
    next_item = suc c.next_item;
    item_at = after (unwrap_or c.item_at t) (w.gap (suc c.next_item));
  }

  abbrev pub then_ticks : ℕ → ℕ → Option Wakes → Option Wakes
  then_ticks t active none = none
  then_ticks t active (some rest) = some (ticks t active rest)

  abbrev pub then_receives : ℕ → ℕ → Bytes → Option Wakes → Option Wakes
  then_receives t wall bytes none = none
  then_receives t wall bytes (some rest) = some (receives t wall bytes rest)

  -- The wakeup by this arm; `go_on` has those of the loop's next rounds.
  unfoldable pub woken : Clocks → ℕ → ℕ → (Clocks → Option Wakes) → Item → Arm → Option Wakes
  unfolding ticked received
  woken c n t go_on it cancel = some cancels
  woken c n t go_on it overall = some overall_deadline_passes
  woken c n t go_on it stall = some stalls
  woken c n t go_on it tick = then_ticks t (w.active n) (go_on (ticked c t))
  woken c n t go_on closed next = some closes
  woken c n t go_on (failed detail) next = some (fails detail)
  woken c n t go_on (chunk wall bytes) next = then_receives t wall bytes (go_on (received c t))

  -- The loop's wakeups from the `n`th on. None where the fuel has run out.
  unfoldable pub select : ℕ → ℕ → Clocks → Option Wakes
  unfolding woken wakes_at ready polled_from
  select zero n c = none
  select (suc fuel) n c =
      let t = wakes_at c in
      woken c n t (λ c'. select fuel (suc n) c') (w.item c.next_item)
        (ready c t (polled_from (w.polls_first n)))
