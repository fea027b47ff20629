-- ===== src/Attempt/Records.antt =====
-- What a record tells of: its stream and attempt, an event, an end of the stream.
use beta_boot_git_ops.Driver.{DriverEvent}
use beta_boot_git_ops.Emission.{
  EmissionRecord, StreamEndCause, read, installment, normalized_event, normalization_error,
  undecodable_installment, residue, stream_end, wire, ledger, anomaly, scheduler, turn_trailer,
  capture_drop,
}
use beta_boot_git_ops.Base.{ℕ, ◌≡◌, refl, List, [], ◌∷◌, ◌++◌, append_assoc}

-- A record that carries this stream and this attempt.
abbrev pub IsLabelled : ℕ → ℕ → EmissionRecord → Type 0
IsLabelled s a (read s' a' _ _ _ _ _) = (s' ≡ s) × (a' ≡ a)
IsLabelled s a (installment s' a' _ _ _ _ _ _ _) = (s' ≡ s) × (a' ≡ a)
IsLabelled s a (normalized_event s' a' _ _) = (s' ≡ s) × (a' ≡ a)
IsLabelled s a (normalization_error s' a' _ _) = (s' ≡ s) × (a' ≡ a)
IsLabelled s a (undecodable_installment s' a' _ _ _ _) = (s' ≡ s) × (a' ≡ a)
IsLabelled s a (residue s' a' _ _) = (s' ≡ s) × (a' ≡ a)
IsLabelled s a (stream_end s' a' _ _) = (s' ≡ s) × (a' ≡ a)
IsLabelled s a (wire s' a' _) = (s' ≡ s) × (a' ≡ a)
IsLabelled s a (ledger s' a' _) = (s' ≡ s) × (a' ≡ a)
IsLabelled s a (anomaly s' a' _) = (s' ≡ s) × (a' ≡ a)
IsLabelled s a (scheduler s' a' _) = (s' ≡ s) × (a' ≡ a)
IsLabelled s a (turn_trailer _ _ _ _ _ _ _ _ _ _) = ⊥
IsLabelled s a (capture_drop _) = ⊥

-- The events that these records tell of, and the causes of the ends that they tell of.
abbrev pub event_in : EmissionRecord → List DriverEvent
event_in (normalized_event _ _ _ e) = e ∷ []
event_in _ = []

abbrev pub end_in : EmissionRecord → List StreamEndCause
end_in (stream_end _ _ cause _) = cause ∷ []
end_in _ = []

unfoldable pub events_in : List EmissionRecord → List DriverEvent
events_in [] = []
events_in (r ∷ rs) = event_in r ++ events_in rs

unfoldable pub ends_in : List EmissionRecord → List StreamEndCause
ends_in [] = []
ends_in (r ∷ rs) = end_in r ++ ends_in rs

pub events_in-append :
    (rs ss : List EmissionRecord) → events_in (rs ++ ss) ≡ events_in rs ++ events_in ss
unfolding events_in
events_in-append [] ss = refl
events_in-append (r ∷ rs) ss = simp (events_in-append rs ss, append_assoc)

pub ends_in-append : (rs ss : List EmissionRecord) → ends_in (rs ++ ss) ≡ ends_in rs ++ ends_in ss
unfolding ends_in
ends_in-append [] ss = refl
ends_in-append (r ∷ rs) ss = simp (ends_in-append rs ss, append_assoc)
