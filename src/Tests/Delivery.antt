-- ===== src/Tests/Delivery.antt =====
-- What the bus has delivered at the end.
use beta_boot_git_ops.Attempt.Records.{events_in}
use beta_boot_git_ops.Driver.{text_delta}
use beta_boot_git_ops.Emission.{EmissionRecord, normalized_event, anomaly}
use beta_boot_git_ops.Emission.Bus.{Action, emits, receives, act, spawn, run, drain, emit}
use beta_boot_git_ops.Emission.Bus.Delivery.{emitted}
use beta_boot_git_ops.Emission.Bus.Drain.{Delivered, drain-Delivered}
use beta_boot_git_ops.Emission.Bus.Held.{is_own, foreign}
use beta_boot_git_ops.Machine.Verdict.{text_of}
use beta_boot_git_ops.Ports.{terminal_write_all, create, capture_write_all, drop_capture}
use beta_boot_git_ops.Ports.Capture.{line}
use beta_boot_git_ops.Ports.Captured.{drain-captured}
use beta_boot_git_ops.Ports.Printed.{drain-stdout}
use beta_boot_git_ops.Text.{codes}
use beta_boot_git_ops.Base.{Result, ok, map, Text, ◌≡◌, refl, List, [], ◌∷◌, arith}

-- Room for one record: the second of two is lost.
abbrev hasty : List Action
hasty = emits 3 (anomaly 7 1 (codes "a")) ∷ emits 4 (anomaly 7 1 (codes "b")) ∷ receives ∷ []

drain-Delivered_example : Delivered (emitted hasty) (drain (run (spawn 1) hasty))
unfolding is_own
drain-Delivered_example = drain-Delivered 1 hasty (omega arith) (refl, (refl, tt))

-- Room for both.
abbrev patient : List Action
patient =
    emits 3 (normalized_event 7 1 1 (text_delta (codes "Hel")))
    ∷ receives
    ∷ emits 4 (normalized_event 7 1 2 (text_delta (codes "lo")))
    ∷ []

drain-stdout_example :
    (terminal_write_all
      (record { stdout = []; stderr = [] })
      (drain (run (spawn 2) patient)).written).stdout
    ≡ text_of (events_in (emitted patient))
unfolding is_own spawn emit drain run act
drain-stdout_example = drain-stdout 2 patient (omega arith) (refl, (refl, tt)) (omega arith) refl

abbrev to_string : EmissionRecord → Result Text Text
to_string r = ok (codes "{}")

drain-captured_example :
    (rs : List EmissionRecord) × (foreign rs ≡ emitted patient)
    × ((drop_capture
          (capture_write_all to_string create (drain (run (spawn 2) patient)).written)).flushed
        ≡ map (line to_string) rs)
unfolding is_own spawn emit drain run act
drain-captured_example =
    drain-captured to_string 2 patient (omega arith) (refl, (refl, tt)) (omega arith) refl
