-- ===== src/Ports/Printed.antt =====
-- The bus and the terminal together: what the user reads.
use beta_boot_git_ops.Attempt.Records.{event_in, events_in}
use beta_boot_git_ops.Emission.{EmissionRecord, scheduler, capture_drop}
use beta_boot_git_ops.Emission.Bus.{spawn, Action, run, drain}
use beta_boot_git_ops.Emission.Bus.Delivery.{emitted, IsSubsequence, nil, keep, skip}
use beta_boot_git_ops.Emission.Bus.Drain.{drain-Delivered}
use beta_boot_git_ops.Emission.Bus.Held.{is_own, foreign}
use beta_boot_git_ops.Machine.Verdict.{text_of}
use beta_boot_git_ops.Ports.{terminal_write_all}
use beta_boot_git_ops.Ports.Terminal.{terminal_write_all-stdout}
use beta_boot_git_ops.Base.{
  ℕ, ◌^◌, ◌≤◌, ◌<◌, ◌≡◌, refl, sym, ap, ◌∙◌, inl, inr, true, false, List, [], ◌∷◌, ◌++◌, arith,
  Bool-cases, length, All,
}

IsSubsequence-length {ℓ} :
    {A : Type ℓ} {xs ys : List A} → IsSubsequence xs ys → length xs ≤ length ys
IsSubsequence-length nil = omega arith
IsSubsequence-length (keep s) = omega (arith, IsSubsequence-length s)
IsSubsequence-length (skip s) = omega (arith, IsSubsequence-length s)

-- A subsequence that is as long is the whole.
IsSubsequence-whole {ℓ} :
    {A : Type ℓ} {xs ys : List A} → IsSubsequence xs ys → length xs ≡ length ys → xs ≡ ys
IsSubsequence-whole nil h = refl
IsSubsequence-whole (keep {x = x} s) h = ap (◌∷◌ x) (IsSubsequence-whole s (omega (arith, h)))
IsSubsequence-whole (skip s) h = absurd (omega (arith, h, IsSubsequence-length s))

-- The bus's own records tell of no event.
event_in-own : (r : EmissionRecord) → is_own r ≡ true → event_in r ≡ []
unfolding is_own
event_in-own (capture_drop n) h = refl
event_in-own (scheduler s a note) h = refl
event_in-own r h = cc

events_in-foreign : (rs : List EmissionRecord) → events_in (foreign rs) ≡ events_in rs
unfolding events_in foreign
events_in-foreign [] = refl
events_in-foreign (r ∷ rs) = elim (Bool-cases (is_own r)) [
  | inl own ↦ rw (own, event_in-own r own) (events_in-foreign rs)
  | inr other ↦ rw other (ap (λ es. event_in r ++ es) (events_in-foreign rs))
]

-- Where no drop is counted, the records written are the records emitted, but for the bus's own.
pub drain-whole :
    (capacity : ℕ) (actions : List Action)
    → 1 ≤ capacity
    → All (λ r. is_own r ≡ false) (emitted actions)
    → length (emitted actions) < 2 ^ 64
    → (drain (run (spawn capacity) actions)).dropped ≡ 0
    → foreign (drain (run (spawn capacity) actions)).written ≡ emitted actions
drain-whole capacity actions c h few none_dropped =
    let d = drain-Delivered capacity actions c h in
    IsSubsequence-whole d.in_order
      (omega (arith, d.all_counted, d.dropped_is_lost, none_dropped, few))

-- What the user reads is what was emitted: where the counter of drops is zero once the channel is
-- drained, a blank terminal has printed to standard output the joined text of all events that the
-- emitted records tell of, in the order of their emission, and no more. The channel has room for
-- one record, the tasks emit no record of the kinds that the bus makes, and fewer than 2^64.
pub drain-stdout :
    (capacity : ℕ) (actions : List Action)
    → 1 ≤ capacity
    → All (λ r. is_own r ≡ false) (emitted actions)
    → length (emitted actions) < 2 ^ 64
    → (drain (run (spawn capacity) actions)).dropped ≡ 0
    → (terminal_write_all
        (record { stdout = []; stderr = [] })
        (drain (run (spawn capacity) actions)).written).stdout
      ≡ text_of (events_in (emitted actions))
drain-stdout capacity actions c h few none_dropped =
    let b = drain (run (spawn capacity) actions) in
    terminal_write_all-stdout (record { stdout = []; stderr = [] }) b.written
    ∙ ap text_of (
        sym (events_in-foreign b.written)
        ∙ ap events_in (drain-whole capacity actions c h few none_dropped))
