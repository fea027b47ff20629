-- ===== src/Chat/OneTurn.antt =====
-- What a turn of the session leaves: the history as it was, and the answer on the terminal.
use beta_boot_git_ops.Chat.{Network, Session, after_turn, turn_on}
use beta_boot_git_ops.Config.{OpenAiConfig}
use beta_boot_git_ops.Attempt.{Reply}
use beta_boot_git_ops.Ports.{terminal_write_all}
use beta_boot_git_ops.Ports.Answer.{blank, Evidence-printed}
use beta_boot_git_ops.Request.{request}
use beta_boot_git_ops.Handler.{EventHandler, emit}
use beta_boot_git_ops.Normalize.{SerdeJson}
use beta_boot_git_ops.Throughput.{Floats}
use beta_boot_git_ops.Turn.{
  TurnVerdict, committed, failed_over, failed, Turning, trailer, execute_turn,
}
use beta_boot_git_ops.Turn.Completed.{execute_turn-Completed}
use beta_boot_git_ops.Turn.Outcomes.{execute_turn-committed}
use beta_boot_git_ops.Turn.Verdicts.{Justified}
use beta_boot_git_ops.Base.{
  ℕ, suc, ◌+◌, ◌^◌, ◌<◌, ◌≡◌, refl, sym, ap, ◌∙◌, true, Option, some, ◌++◌, arith, u64, Text,
}

-- The counts of a handler fit their width.
abbrev pub FitsHandler : EventHandler → Type 0
FitsHandler h = (suc h.retry_allowance_per_turn < 2 ^ 32) × (h.send_buckets < 2 ^ 32)

-- The next stream's number.
abbrev pub next_id : Session → ℕ
next_id s = u64 (s.stream_id + 1)

-- What a turn leaves of the session: the history, and the handler but for its records.
pub record Same (s s' : Session) : Type 0 where
  pub history : s'.history ≡ s.history
  pub buckets : s'.handler.send_buckets ≡ s.handler.send_buckets
  pub allowance : s'.handler.retry_allowance_per_turn ≡ s.handler.retry_allowance_per_turn
  pub knows : s'.handler.knows_failover_exists ≡ s.handler.knows_failover_exists

pub FitsHandler-Same : (s s' : Session) → Same s s' → FitsHandler s.handler → FitsHandler s'.handler
FitsHandler-Same s s' q fits =
    (omega (arith, q.allowance, fits.0), omega (arith, q.buckets, fits.1))

-- A failover is directed only where one is known.
abbrev pub Directed : TurnVerdict → Session → Type 0
Directed (committed o) s = Unit
Directed (failed f) s = Unit
Directed (failed_over n) s = s.handler.knows_failover_exists ≡ true

Directed-of :
    (v : TurnVerdict) (last : Turning) (s : Session)
    → Justified v last
    → last.handler.knows_failover_exists ≡ s.handler.knows_failover_exists
    → Directed v s
Directed-of (committed o) last s q e = tt
Directed-of (failed f) last s q e = tt
Directed-of (failed_over n) last s (attempts, none_left, known) e = sym e ∙ known

-- The terminal has printed this text last, of all the records emitted.
abbrev pub PrintedLast : Text → Session → Type 0
PrintedLast t s = (before : Text) × ((terminal_write_all blank s.handler.bus).stdout ≡ before ++ t)

abbrev pub Shown : TurnVerdict → Session → Type 0
Shown (committed o) s = PrintedLast o.content s
Shown (failed f) s = Unit
Shown (failed_over n) s = Unit

module _ (j : SerdeJson) (fl : Floats) (network : Network) where
  pub record TurnedOn (s : Session) (out : Option (TurnVerdict × Session)) : Type 0 where
    pub verdict : TurnVerdict
    pub after : Session
    pub result : out ≡ some (verdict, after)
    pub same : Same s after
    pub id : after.stream_id ≡ next_id s
    pub directed : Directed verdict s
    pub shown : Shown verdict after

  Shown-of :
      (cfg : OpenAiConfig) (replies : ℕ → Reply) (s : Session) (id : ℕ) (v : TurnVerdict)
      (h : EventHandler)
      → FitsHandler s.handler
      → execute_turn j fl cfg id replies s.handler ≡ some (v, h)
      → Shown v (record s { stream_id = id; handler = h })
  Shown-of cfg replies s id (committed o) h (small, buckets) e =
      let (a, least, most, evidence) =
        execute_turn-committed j fl cfg id replies s.handler h o small buckets e in
      Evidence-printed o id a h.bus evidence
  Shown-of cfg replies s id (failed f) h fits e = tt
  Shown-of cfg replies s id (failed_over n) h fits e = tt

  pub turn_on-TurnedOn :
      (cfg : OpenAiConfig) (s : Session)
      → FitsHandler s.handler
      → TurnedOn s (turn_on j fl network cfg s)
  unfolding turn_on
  turn_on-TurnedOn cfg s (small, buckets) =
      let id = next_id s in
      let q =
        execute_turn-Completed j fl cfg id (λ n. network id n (request cfg s.history)) s.handler
          small buckets in
      record {
        verdict = q.verdict;
        after = record s {
          stream_id = id;
          handler = emit q.last.handler (trailer id q.verdict q.last);
        };
        result = ap (after_turn id s) q.result;
        same = record {
          history = refl;
          buckets = ap (λ h. h.send_buckets) q.told.emitted;
          allowance = ap (λ h. h.retry_allowance_per_turn) q.told.emitted;
          knows = ap (λ h. h.knows_failover_exists) q.told.emitted;
        };
        id = refl;
        directed =
            Directed-of q.verdict q.last s q.justified
              (ap (λ h. h.knows_failover_exists) q.told.emitted);
        shown =
            Shown-of cfg (λ n. network id n (request cfg s.history)) s id q.verdict _
              (small, buckets) q.result;
      }
