-- ===== src/Tests/Sessions.antt =====
-- The user's lines and the sinks.
use beta_boot_git_ops.Attempt.{not_sent}
use beta_boot_git_ops.Chat.{Network, Session, Reaction, panics, begin, say}
use beta_boot_git_ops.Chat.History.{Said, say-Said}
use beta_boot_git_ops.Chat.Requests.{say-Agree}
use beta_boot_git_ops.Request.{request}
use beta_boot_git_ops.Driver.{text_delta}
use beta_boot_git_ops.Emission.{
  EmissionRecord, normalized_event, anomaly, stream_end, peer_closed, turn_trailer,
}
use beta_boot_git_ops.Emission
use beta_boot_git_ops.Attempt.Loop.{run_attempt}
use beta_boot_git_ops.Handler.{
  new, acquire_send_bucket, begin_stream, on_wire_fault, return_send_bucket,
}
use beta_boot_git_ops.Ports.{Screen, create, is_boundary, capture_write_all}
use beta_boot_git_ops.Ports.Capture.{line, capture_write_all-boundary}
use beta_boot_git_ops.Tests.Samples.{json, floats, config, good_reply}
use beta_boot_git_ops.Text.{codes}
use beta_boot_git_ops.Base.{
  length, ◌≡◌, refl, true, Option, none, some, List, [], ◌∷◌, map, arith, snoc, ◌==◌, if◌then◌else◌,
  Result, ok, Text,
}

abbrev blank : Screen
blank = record { stdout = []; stderr = [] }

abbrev session : Session
session = begin (some (codes "be brief")) 1 1 true blank

abbrev down : Network
down id n p = not_sent (codes "connection refused")

-- The first endpoint answers.
abbrev up : Network
up id n p = if id == 1 then good_reply else not_sent (codes "connection refused")

abbrev reaction : Option (Reaction × Session) → Option Reaction
reaction none = none
reaction (some (r, s)) = some r

-- Where the other endpoint is down as well, its turn directs a failover once more.
both_down : reaction (say json floats down config (some config) (codes "hi") session) ≡ some panics
unfolding say acquire_send_bucket begin_stream begin new run_attempt on_wire_fault
    return_send_bucket
both_down = refl

say-Said_example :
    Said json floats up config
      (some config)
      (codes "hi")
      session
      (say json floats up config (some config) (codes "hi") session)
unfolding begin new
say-Said_example =
    say-Said json floats up config (some config) (codes "hi") session (omega arith, omega arith)

abbrev records : List EmissionRecord
records =
    normalized_event 7 1 1 (text_delta (codes "Hel"))
    ∷ anomaly 7 1 (codes "odd")
    ∷ normalized_event 7 1 2 (text_delta (codes "lo"))
    ∷ stream_end 7 1 peer_closed 0
    ∷ []

abbrev to_string : EmissionRecord → Result Text Text
to_string r = ok (codes "{}")

abbrev end_record : EmissionRecord
end_record = turn_trailer 7 2 1 (Emission.failed (codes "stream stalled")) 1 0 0 0 3 (codes "full")

capture_write_all-boundary_example :
    (capture_write_all to_string create (snoc records end_record)).flushed
    ≡ map (line to_string) (snoc records end_record)
unfolding is_boundary
capture_write_all-boundary_example = capture_write_all-boundary to_string records end_record refl

-- A network that answers only requests with two messages.
abbrev choosy : Network
choosy id n p =
    if length p.body.messages == 2 then up id n p else not_sent (codes "connection reset")

say-Agree_example :
    say json floats up config (some config) (codes "hi") session
    ≡ say json floats choosy config (some config) (codes "hi") session
unfolding begin request
say-Agree_example =
    say-Agree json floats up choosy config (some config) (codes "hi") session (λ id n. refl)
      (λ id n. refl)
