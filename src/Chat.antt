-- ===== src/Chat.antt =====
-- chat2/src/main.rs: one of the user's lines. How the network answers a request is an argument; the
-- answer may differ from one request to the next, by the stream and the number of the request.
pub mod OneTurn
pub mod History
pub mod Requests
use beta_boot_git_ops.Attempt.{Reply}
use beta_boot_git_ops.Config.{OpenAiConfig}
use beta_boot_git_ops.Driver.{DriverFault, protocol, show_fault}
use beta_boot_git_ops.Emission.{StreamId}
use beta_boot_git_ops.Handler.{EventHandler}
use beta_boot_git_ops.Handler
use beta_boot_git_ops.Normalize.{SerdeJson}
use beta_boot_git_ops.Ports.{Screen, print, eprintln}
use beta_boot_git_ops.Request.{Message, message, Post, request}
use beta_boot_git_ops.Text.Numbers.{decimal}
use beta_boot_git_ops.Text.{codes, text_eq, trim}
use beta_boot_git_ops.Throughput.{Floats}
use beta_boot_git_ops.Turn.{TurnVerdict, committed, failed_over, failed, execute_turn}
use beta_boot_git_ops.Base.{
  ℕ, ◌+◌, Bool, not, ◌||◌, Option, none, some, List, [], ◌∷◌, ◌++◌, if◌then◌else◌, snoc, is_empty,
  u64, Text,
}

-- The variables of `main`.
pub record Session : Type 0 where
  pub history : List Message
  pub stream_id : ℕ
  pub handler : EventHandler
  -- What `main` itself has printed.
  pub screen : Screen

unfoldable pub begin : Option Text → ℕ → ℕ → Bool → Screen → Session
begin system_prompt send_buckets retry_allowance knows_failover screen = record {
  history = elim system_prompt [ none ↦ [] | some sys ↦ message (codes "system") sys ∷ [] ];
  stream_id = 0;
  handler = Handler.new send_buckets retry_allowance knows_failover;
  screen = screen;
}

-- What a line leads to; `panics` is `unreachable!`.
pub data Reaction : Type 0 where
  goes_on quits panics : Reaction

unfoldable pub no_alternative : DriverFault
no_alternative = protocol (codes "failover directed but no alternative configured")

-- `history.retain(|m| m.role == "system")`.
unfoldable pub retain_system : List Message → List Message
retain_system [] = []
retain_system (m ∷ ms) =
    let rest = retain_system ms in if text_eq m.role (codes "system") then m ∷ rest else rest

-- `history.pop()`.
unfoldable pub pop : List Message → List Message
pop [] = []
pop (m ∷ []) = []
pop (m ∷ n ∷ ms) = m ∷ pop (n ∷ ms)

-- `print!` and `eprintln!`, in the session.
abbrev pub prints : Text → Session → Session
prints t s = record s { screen = print s.screen t }

abbrev pub complains : Text → Session → Session
complains t s = record s { screen = eprintln s.screen t }

unfoldable pub turn_failed : DriverFault → Text
unfolding show_fault
turn_failed f =
    codes "\n[TURN FAILED] " ++ (show_fault f ++ codes " — turn not committed to history")

unfoldable pub conclude_turn : TurnVerdict → Session → Reaction × Session
unfolding pop turn_failed
conclude_turn (committed o) s = (
  goes_on,
  prints (codes "\n")
      (record s { history = snoc s.history (message (codes "assistant") o.content) }),
)
conclude_turn (failed f) s = (
  goes_on,
  prints (codes "\n") (complains (turn_failed f) (record s { history = pop s.history })),
)
conclude_turn (failed_over n) s = (panics, s)

-- What is left of a turn under this number.
abbrev pub after_turn :
    ℕ → Session → Option (TurnVerdict × EventHandler) → Option (TurnVerdict × Session)
after_turn id s none = none
after_turn id s (some (v, h)) = some (v, record s { stream_id = id; handler = h })

abbrev pub and_then :
    Option (TurnVerdict × Session)
    → (TurnVerdict → Session → Option (Reaction × Session))
    → Option (Reaction × Session)
and_then none k = none
and_then (some (v, s)) k = k v s

unfoldable pub re_issuing : ℕ → OpenAiConfig → Text
unfolding decimal
re_issuing attempts_here cfg =
    codes "\n[FAILOVER] primary exhausted after "
    ++ (decimal attempts_here ++ (codes " attempt(s); re-issuing on " ++ cfg.base_url))

unfoldable pub is_quit : Text → Bool
is_quit line = text_eq line (codes "/quit") || text_eq line (codes "/exit")

abbrev pub Network : Type 0
Network = StreamId → ℕ → Post → Reply

module _ (j : SerdeJson) (fl : Floats) (network : Network) where
  -- A turn of the session on one endpoint: every attempt sends the history.
  unfoldable pub turn_on : OpenAiConfig → Session → Option (TurnVerdict × Session)
  unfolding execute_turn request
  turn_on cfg s =
      let id = u64 (s.stream_id + 1) in
      after_turn id s
        (execute_turn j fl cfg id (λ n. network id n (request cfg s.history)) s.handler)

  -- `if let Failover`: the same messages once more, on the other endpoint.
  unfoldable pub fail_over :
      Option OpenAiConfig → TurnVerdict → Session → Option (TurnVerdict × Session)
  unfolding turn_on no_alternative re_issuing
  fail_over none (failed_over n) s = some (failed no_alternative, s)
  fail_over (some cfg) (failed_over n) s =
      turn_on cfg (prints (codes "ai> ") (complains (re_issuing n cfg) s))
  fail_over failover (committed o) s = some (committed o, s)
  fail_over failover (failed f) s = some (failed f, s)

  module _ (primary : OpenAiConfig) (failover : Option OpenAiConfig) where
    unfoldable pub say : Text → Session → Option (Reaction × Session)
    unfolding turn_on fail_over conclude_turn
    say line s =
        let asked : Session = record s { history = snoc s.history (message (codes "user") line) } in
        and_then (turn_on primary (prints (codes "ai> ") asked))
          (λ v s1. and_then (fail_over failover v s1) (λ w s2. some (conclude_turn w s2)))

    -- One line of the user.
    unfoldable pub handle_line : Text → Session → Option (Reaction × Session)
    unfolding say is_quit retain_system
    handle_line raw s =
        let line = trim raw in
        if is_empty line
        then some (goes_on, s)
        else if is_quit line
        then some (quits, s)
        else if text_eq line (codes "/reset")
        then some (
          goes_on,
          complains (codes "(history cleared)") (record s { history = retain_system s.history }),
        )
        else say line s
