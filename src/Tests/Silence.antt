-- ===== src/Tests/Silence.antt =====
-- A peer that only sends comments.
use beta_boot_git_ops.Attempt.{Response, text, closes, ticks, receives}
use beta_boot_git_ops.Attempt.Silence.{Beat, tick_at, ping_at, wakes_of}
use beta_boot_git_ops.Config.{from_secs}
use beta_boot_git_ops.Text.{codes}
use beta_boot_git_ops.Base.{ℕ, zero, suc, ◌+◌, some, List, [], ◌∷◌, ◌++◌, Bytes}

abbrev ping : Bytes
ping = codes ": ping\n\n"

-- The clock ticks at once and then each second; the first read comes in between.
abbrev before : List Beat
before = tick_at (from_secs 1) 1 ∷ ping_at (from_secs 1 + 5) 8 ping ∷ []

-- So many ticks, from this second on.
abbrev seconds : ℕ → ℕ → List Beat
seconds zero from = []
seconds (suc n) from = tick_at (from_secs from) 1 ∷ seconds n (suc from)

abbrev first_at : ℕ
first_at = 300000000

abbrev after : List Beat
after = ping_at (from_secs 2 + 9) 9 ping ∷ seconds 20 3

abbrev pinging : Response
pinging = record {
  status = 200;
  content_type = some (codes "text/event-stream");
  body = text [];
  wakes =
      ticks 0 1
        (receives first_at 7 ping (wakes_of (before ++ (tick_at (from_secs 2) 1 ∷ after)) closes));
}
