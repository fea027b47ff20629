-- ===== src/Ports/Captured.antt =====
-- The bus and the capture together: what the file holds at the end.
use beta_boot_git_ops.Emission.{EmissionRecord}
use beta_boot_git_ops.Emission.Bus.{spawn, Action, run, drain}
use beta_boot_git_ops.Emission.Bus.Delivery.{emitted}
use beta_boot_git_ops.Emission.Bus.Held.{is_own, foreign}
use beta_boot_git_ops.Ports.{create, capture_write_all, drop_capture}
use beta_boot_git_ops.Ports.Capture.{line, create-Holds}
use beta_boot_git_ops.Ports.Printed.{drain-whole}
use beta_boot_git_ops.Base.{ℕ, ◌^◌, ◌≤◌, ◌<◌, ◌≡◌, false, List, map, length, All, Result, Text}

-- The capture is whole: where the counter of drops is zero once the channel is drained, and the
-- sink is dropped, its file holds the lines of all records that were emitted, in the order of their
-- emission, with nothing between them but lines of the bus's own records. The channel has room for
-- one record, the tasks emit no record of the kinds that the bus makes, and fewer than 2^64.
pub drain-captured :
    (to_string : EmissionRecord → Result Text Text) (capacity : ℕ) (actions : List Action)
    → 1 ≤ capacity
    → All (λ r. is_own r ≡ false) (emitted actions)
    → length (emitted actions) < 2 ^ 64
    → (drain (run (spawn capacity) actions)).dropped ≡ 0
    → (rs : List EmissionRecord) × (foreign rs ≡ emitted actions)
      × ((drop_capture (
            capture_write_all to_string create
              (drain (run (spawn capacity) actions)).written)).flushed
          ≡ map (line to_string) rs)
unfolding drop_capture
drain-captured to_string capacity actions c h few none_dropped =
    let rs = (drain (run (spawn capacity) actions)).written in
    (rs, drain-whole capacity actions c h few none_dropped, (create-Holds to_string rs).lines)
