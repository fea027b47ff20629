-- ===== src/Base/Results.antt =====
-- Rust's `Result`.
use mathlib.Core.Path.{◌≡◌, refl}
use mathlib.Core.Logic.{◌⊎◌, inl, inr}

pub data Result {ℓ κ} (A : Type ℓ) (E : Type κ) : Type (ℓ ⊔ κ) where
  ok : A → Result A E
  err : E → Result A E

infixl 5 ◌>>=◌
abbrev pub ◌>>=◌ {ℓ κ μ} :
    {A : Type ℓ} {B : Type κ} {E : Type μ} → Result A E → (A → Result B E) → Result B E
ok a >>= f = f a
err e >>= f = err e

pub Result-cases {ℓ κ} :
    {A : Type ℓ} {E : Type κ} (r : Result A E) → ((a : A) × (r ≡ ok a)) ⊎ ((e : E) × (r ≡ err e))
Result-cases (ok a) = inl (a, refl)
Result-cases (err e) = inr (e, refl)

-- A chain that begins with a step, from what is known of the step's ends.
pub bind-elim {ℓ κ μ ν ξ} :
    {A : Type ℓ} {B : Type κ} {E : Type μ} (Q : Result B E → Type ν) (P : Result A E → Type ξ)
    (r : Result A E) (f : A → Result B E)
    → P r
    → ((e : E) → P (err e) → Q (err e))
    → ((a : A) → P (ok a) → Q (f a))
    → Q (r >>= f)
bind-elim Q P (ok a) f p fails goes = goes a p
bind-elim Q P (err e) f p fails goes = fails e p
