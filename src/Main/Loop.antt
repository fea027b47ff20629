-- ===== src/Main/Loop.antt =====
-- chat2/src/main.rs: the loop over the lines, and the whole program.
use beta_boot_git_ops.Chat.{Session, Reaction, goes_on, quits, panics, Network, prints, handle_line}
use beta_boot_git_ops.Config.{OpenAiConfig}
use beta_boot_git_ops.Main.{Environment, StartError, Started, start, session_of, print_help}
use beta_boot_git_ops.Normalize.{SerdeJson}
use beta_boot_git_ops.Ports.{Screen}
use beta_boot_git_ops.Text.{codes}
use beta_boot_git_ops.Throughput.{Floats}
use beta_boot_git_ops.Base.{Option, none, some, List, [], ◌∷◌, Result, ok, err, Text}

-- How `next_line` ends: with the input, or with an error.
pub data InputEnd : Type 0 where
  closed broken : InputEnd

-- How the loop ends. `drops_out` returns the error at once; the bus is drained after `leaves` only.
pub data Exit : Type 0 where
  leaves drops_out unreachable : Exit

unfoldable pub exit_at : InputEnd → Exit
exit_at closed = leaves
exit_at broken = drops_out

-- The next round of the loop, where the line has not ended it.
abbrev pub next_round :
    Option (Reaction × Session) → (Session → Option (Exit × Session)) → Option (Exit × Session)
next_round none k = none
next_round (some (goes_on, s)) k = k s
next_round (some (quits, s)) k = some (leaves, s)
next_round (some (panics, s)) k = some (unreachable, s)

module _ (j : SerdeJson) (fl : Floats) (network : Network) (primary : OpenAiConfig)
    (failover : Option OpenAiConfig) where
  unfoldable pub run_lines : InputEnd → List Text → Session → Option (Exit × Session)
  unfolding exit_at handle_line
  run_lines end [] s = some (exit_at end, prints (codes "you> ") s)
  run_lines end (line ∷ lines) s =
      next_round (handle_line j fl network primary failover line (prints (codes "you> ") s))
        (λ s'. run_lines end lines s')

pub data MainEnd : Type 0 where
  helps : Screen → MainEnd
  refuses : StartError → MainEnd
  runs : Exit → Session → MainEnd

abbrev pub ran : Option (Exit × Session) → Option MainEnd
ran none = none
ran (some (e, s)) = some (runs e s)

-- Behind the configuration.
unfoldable pub run_started :
    SerdeJson
    → Floats
    → Network
    → InputEnd
    → List Text
    → Option (Result Started StartError)
    → Option MainEnd
unfolding session_of run_lines print_help
run_started j fl network end lines none = some (helps print_help)
run_started j fl network end lines (some (err e)) = some (refuses e)
run_started j fl network end lines (some (ok s)) =
    ran (run_lines j fl network s.primary s.failover end lines (session_of s))

-- `main`, with its arguments and its input.
unfoldable pub main :
    SerdeJson → Floats → Network → Environment → List Text → InputEnd → List Text → Option MainEnd
unfolding start run_started
main j fl network w args end lines = run_started j fl network end lines (start w args)
