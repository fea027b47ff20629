-- ===== src/Text/Trims.antt =====
-- Texts that `trim` leaves as they are.
use beta_boot_git_ops.Text.{is_whitespace, trim_start, trim_end_cons, trim_end, trim}
use beta_boot_git_ops.Base.{ℕ, ◌≡◌, refl, ap, false, [], ◌∷◌, snoc, All, Text}

-- Where the last character is no whitespace.
pub trim_end-snoc : (t : Text) (q : ℕ) → is_whitespace q ≡ false → trim_end (snoc t q) ≡ snoc t q
unfolding trim_end trim_end_cons
trim_end-snoc [] q h = rw h refl
trim_end-snoc (c ∷ []) q h = ap (trim_end_cons c) (trim_end-snoc [] q h)
trim_end-snoc (c ∷ d ∷ t) q h = ap (trim_end_cons c) (trim_end-snoc (d ∷ t) q h)

pub trim-snoc :
    (c : ℕ) (t : Text) (q : ℕ)
    → is_whitespace c ≡ false
    → is_whitespace q ≡ false
    → trim (c ∷ snoc t q) ≡ c ∷ snoc t q
unfolding trim trim_start
trim-snoc c t q h k = rw h (trim_end-snoc (c ∷ t) q k)

trim_end-dark : (t : Text) → All (λ c. is_whitespace c ≡ false) t → trim_end t ≡ t
unfolding trim_end trim_end_cons
trim_end-dark [] h = refl
trim_end-dark (c ∷ []) h = rw h.0 refl
trim_end-dark (c ∷ d ∷ t) h = ap (trim_end_cons c) (trim_end-dark (d ∷ t) h.1)

-- Where no character is whitespace.
pub trim-dark : (t : Text) → All (λ c. is_whitespace c ≡ false) t → trim t ≡ t
unfolding trim trim_start
trim-dark [] h = trim_end-dark [] h
trim-dark (c ∷ t) h = rw h.0 (trim_end-dark (c ∷ t) h)
