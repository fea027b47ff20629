-- ===== src/Ports/Answer.antt =====
-- The answer of a turn, as the user reads it.
use beta_boot_git_ops.Attempt.Records.{events_in, events_in-append}
use beta_boot_git_ops.Driver.{ChatOutcome}
use beta_boot_git_ops.Emission.{EmissionRecord}
use beta_boot_git_ops.Machine.Verdict.{text_of, text_of-append}
use beta_boot_git_ops.Ports.{Screen, terminal_write_all}
use beta_boot_git_ops.Ports.Terminal.{terminal_write_all-stdout}
use beta_boot_git_ops.Turn.Verdicts.{Evidence}
use beta_boot_git_ops.Base.{ℕ, ◌≡◌, sym, ap, ◌∙◌, List, [], ◌++◌, append-nil, Text}

abbrev pub blank : Screen
blank = record { stdout = []; stderr = [] }

-- The records of an outcome's evidence are printed last.
pub Evidence-printed :
    (o : ChatOutcome) (s a : ℕ) (bus : List EmissionRecord)
    → Evidence o s a bus
    → (before : Text) × ((terminal_write_all blank bus).stdout ≡ before ++ o.content)
Evidence-printed o s a bus q =
    let told : events_in bus ≡ events_in q.before ++ events_in q.records =
      ap events_in q.parts
      ∙ events_in-append q.before (q.records ++ q.behind)
      ∙ ap (λ es. events_in q.before ++ es)
          (events_in-append q.records q.behind ∙ rw q.silence (append-nil (events_in q.records))) in
    (
      text_of (events_in q.before),
      terminal_write_all-stdout blank bus
          ∙ ap text_of told
          ∙ text_of-append (events_in q.before) (events_in q.records)
          ∙ ap (λ t. text_of (events_in q.before) ++ t) (sym q.content),
    )
