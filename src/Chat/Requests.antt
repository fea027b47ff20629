-- ===== src/Chat/Requests.antt =====
-- What is sent for a line.
use beta_boot_git_ops.Chat.{
  Session, Network, prints, complains, re_issuing, after_turn, and_then, conclude_turn, turn_on,
  fail_over, say,
}
use beta_boot_git_ops.Config.{OpenAiConfig}
use beta_boot_git_ops.Handler.{EventHandler}
use beta_boot_git_ops.Normalize.{SerdeJson}
use beta_boot_git_ops.Request.{Message, message, request}
use beta_boot_git_ops.Text.{codes}
use beta_boot_git_ops.Throughput.{Floats}
use beta_boot_git_ops.Turn.{TurnVerdict, committed, failed_over, failed, execute_turn}
use mathlib.Core.Path.{fun_ext}
use beta_boot_git_ops.Base.{ℕ, ◌+◌, ◌≡◌, refl, ap, ◌∙◌, Option, none, some, List, snoc, u64, Text}

-- The same answers to every request with these messages on this endpoint.
abbrev pub Agree : Network → Network → OpenAiConfig → List Message → Type 0
Agree net net' cfg ms = (id n : ℕ) → net id n (request cfg ms) ≡ net' id n (request cfg ms)

abbrev pub AgreeOn : Network → Network → Option OpenAiConfig → List Message → Type 0
AgreeOn net net' none ms = Unit
AgreeOn net net' (some cfg) ms = Agree net net' cfg ms

module _ (j : SerdeJson) (fl : Floats) (net net' : Network) where
  turn_on-Agree :
      (cfg : OpenAiConfig) (s : Session)
      → Agree net net' cfg s.history
      → turn_on j fl net cfg s ≡ turn_on j fl net' cfg s
  unfolding turn_on
  turn_on-Agree cfg s h =
      let id = u64 (s.stream_id + 1) in
      ap (λ replies. after_turn id s (execute_turn j fl cfg id replies s.handler))
        (fun_ext (λ n. h id n))

  fail_over-AgreeOn :
      (failover : Option OpenAiConfig) (v : TurnVerdict) (s : Session)
      → AgreeOn net net' failover s.history
      → fail_over j fl net failover v s ≡ fail_over j fl net' failover v s
  unfolding fail_over
  fail_over-AgreeOn failover (committed o) s h = refl
  fail_over-AgreeOn failover (failed f) s h = refl
  fail_over-AgreeOn none (failed_over n) s h = refl
  fail_over-AgreeOn (some cfg) (failed_over n) s h =
      turn_on-Agree cfg (prints (codes "ai> ") (complains (re_issuing n cfg) s)) h

  -- Behind a turn that leaves the history.
  resumed :
      (failover : Option OpenAiConfig) (id : ℕ) (s : Session)
      (out : Option (TurnVerdict × EventHandler))
      → AgreeOn net net' failover s.history
      → and_then
          (after_turn id s out)
          (λ v s1. and_then (fail_over j fl net failover v s1) (λ w s2. some (conclude_turn w s2)))
        ≡ and_then (after_turn id s out) (λ v s1.
          and_then (fail_over j fl net' failover v s1) (λ w s2. some (conclude_turn w s2)))
  resumed failover id s none h = refl
  resumed failover id s (some (v, handler)) h =
      ap (λ o. and_then o (λ w s2. some (conclude_turn w s2)))
        (fail_over-AgreeOn failover v (record s { stream_id = id; handler = handler }) h)

  -- Nothing else is sent: what a line leads to depends on the network's answers only to requests
  -- whose messages are the history with that line behind it, on the primary endpoint and on the
  -- other one.
  pub say-Agree :
      (primary : OpenAiConfig) (failover : Option OpenAiConfig) (line : Text) (s : Session)
      → Agree net net' primary (snoc s.history (message (codes "user") line))
      → AgreeOn net net' failover (snoc s.history (message (codes "user") line))
      → say j fl net primary failover line s ≡ say j fl net' primary failover line s
  unfolding say turn_on
  say-Agree primary failover line s p f =
      let asked : Session = record s { history = snoc s.history (message (codes "user") line) } in
      let prompted = prints (codes "ai> ") asked in
      let id = u64 (s.stream_id + 1) in
      ap
        (λ out.
          and_then out (λ v s1.
            and_then (fail_over j fl net failover v s1) (λ w s2. some (conclude_turn w s2))))
        (turn_on-Agree primary prompted p)
      ∙ resumed failover id prompted
          (execute_turn j fl primary id (λ n. net' id n (request primary asked.history)) s.handler)
          f
