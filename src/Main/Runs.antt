-- ===== src/Main/Runs.antt =====
-- The history over a whole run.
use beta_boot_git_ops.Main.Dialogue.{Dialogue}
use beta_boot_git_ops.Chat.{Session, Reaction, panics, Network}
use beta_boot_git_ops.Chat.OneTurn.{FitsHandler}
use beta_boot_git_ops.Handler
use beta_boot_git_ops.Config.{OpenAiConfig}
use beta_boot_git_ops.Main.Loop.{Exit, leaves, unreachable}
use beta_boot_git_ops.Normalize.{SerdeJson}
use beta_boot_git_ops.Throughput.{Floats}
use beta_boot_git_ops.Turn.{TurnVerdict, failed_over}
use beta_boot_git_ops.Base.{◌≡◌, Option, some, Text}

-- A line leaves a dialogue; `unreachable!` is reached only where another endpoint is configured.
abbrev pub Leaves : Option Text → Option OpenAiConfig → Reaction → Session → Type 0
Leaves sys failover panics s = (cfg : OpenAiConfig) × (failover ≡ some cfg)
Leaves sys failover _ s = Dialogue sys s.history

pub record Handled (sys : Option Text) (failover : Option OpenAiConfig)
    (out : Option (Reaction × Session)) : Type 0 where
  pub reaction : Reaction
  pub after : Session
  pub result : out ≡ some (reaction, after)
  pub leaves : Leaves sys failover reaction after
  pub fits : FitsHandler after.handler

-- The verdict of a line is no failover where there is no other endpoint.
Reachable : Option OpenAiConfig → TurnVerdict → Type 0
Reachable failover (failed_over n) = (cfg : OpenAiConfig) × (failover ≡ some cfg)
Reachable failover _ = Unit

module _ (j : SerdeJson) (fl : Floats) (network : Network) (primary : OpenAiConfig)
    (failover : Option OpenAiConfig) (sys : Option Text) where
  -- What a run may end in.
  abbrev pub Finishes : Exit → Session → Type 0
  Finishes unreachable s = (cfg : OpenAiConfig) × (failover ≡ some cfg)
  Finishes _ s = Dialogue sys s.history

  pub record Ran (out : Option (Exit × Session)) : Type 0 where
    pub exit : Exit
    pub after : Session
    pub result : out ≡ some (exit, after)
    pub finishes : Finishes exit after
