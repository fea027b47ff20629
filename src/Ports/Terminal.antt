-- ===== src/Ports/Terminal.antt =====
-- The terminal prints what the records tell of.
use beta_boot_git_ops.Attempt.Records.{event_in, events_in}
use beta_boot_git_ops.Driver.{DriverEvent, text_delta}
use beta_boot_git_ops.Emission.{
  EmissionRecord, normalized_event, wire, WireNote, ttft, unhandled_channel,
}
use beta_boot_git_ops.Machine.Verdict.{text_of, text_of-append}
use beta_boot_git_ops.Ports.{Screen, show_event, show_note, terminal_write, terminal_write_all}
use beta_boot_git_ops.Base.{◌≡◌, refl, sym, ◌∙◌, List, [], ◌∷◌, ◌++◌, append-nil, append_assoc}

show_event-stdout :
    (s : Screen) (e : DriverEvent) → (show_event s e).stdout ≡ s.stdout ++ text_of (e ∷ [])
unfolding show_event
show_event-stdout s (text_delta t) = rw append-nil refl
show_event-stdout s e = sym (append-nil s.stdout)

show_note-stdout : (s : Screen) (n : WireNote) → (show_note s n).stdout ≡ s.stdout
unfolding show_note
show_note-stdout s (ttft ms) = refl
show_note-stdout s (unhandled_channel channel) = refl
show_note-stdout s _ = refl

terminal_write-stdout :
    (s : Screen) (r : EmissionRecord)
    → (terminal_write s r).stdout ≡ s.stdout ++ text_of (event_in r)
unfolding terminal_write
terminal_write-stdout s (normalized_event _ _ _ e) = show_event-stdout s e
terminal_write-stdout s (wire _ _ n) = show_note-stdout s n ∙ sym (append-nil s.stdout)
terminal_write-stdout s r = sym (append-nil s.stdout)

-- One path to the screen: the terminal's standard output is the joined text of the events that the
-- records tell of, in their order, and no more.
pub terminal_write_all-stdout :
    (s : Screen) (rs : List EmissionRecord)
    → (terminal_write_all s rs).stdout ≡ s.stdout ++ text_of (events_in rs)
unfolding terminal_write_all events_in
terminal_write_all-stdout s [] = sym (append-nil s.stdout)
terminal_write_all-stdout s (r ∷ rs) =
    terminal_write_all-stdout (terminal_write s r) rs
    ∙ rw (terminal_write-stdout s r, text_of-append (event_in r) (events_in rs), append_assoc) refl
