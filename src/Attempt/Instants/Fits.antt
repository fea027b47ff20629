-- ===== src/Attempt/Instants/Fits.antt =====
-- chat2/src/openai.rs, the read loop on a clock with a last instant that is late enough.
use beta_boot_git_ops.Attempt.{Wakes, ticks, receives, Reply, responds}
use beta_boot_git_ops.Config.{OpenAiConfig}
use beta_boot_git_ops.Normalize.{SerdeJson}
use beta_boot_git_ops.Throughput.{Floats}
use beta_boot_git_ops.Base.{ℕ, ◌≤◌}

module _ (j : SerdeJson) (fl : Floats) (cfg : OpenAiConfig) (latest : ℕ) where
  -- No wakeup comes later than this.
  abbrev pub AreBy : ℕ → Wakes → Type 0
  AreBy last (ticks at active rest) = (at ≤ last) × AreBy last rest
  AreBy last (receives at wall chunk rest) = (at ≤ last) × AreBy last rest
  AreBy last _ = Unit

  abbrev pub IsBy : ℕ → Reply → Type 0
  IsBy last (responds resp) = AreBy last resp.wakes
  IsBy last _ = Unit
