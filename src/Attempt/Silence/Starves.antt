-- ===== src/Attempt/Silence/Starves.antt =====
-- A peer that only keeps the connection alive is cut off.
use beta_boot_git_ops.Attempt.{wire_end}
use beta_boot_git_ops.Attempt.Loop.{Ended, starvation}
use beta_boot_git_ops.Config.{OpenAiConfig}
use beta_boot_git_ops.Normalize.{SerdeJson}
use beta_boot_git_ops.Throughput.{Floats}
use beta_boot_git_ops.Base.{◌≡◌}

module _ (j : SerdeJson) (fl : Floats) (cfg : OpenAiConfig) where
  abbrev pub Starves : Ended j fl cfg → Type 0
  Starves x = x.0 ≡ wire_end (starvation j fl cfg)
