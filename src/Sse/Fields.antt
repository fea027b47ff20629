-- ===== src/Sse/Fields.antt =====
-- chat2/src/sse.rs, the lines of a frame: which of them are `data` fields, and with what value, said
-- without the search for the colon.
use beta_boot_git_ops.Sse.{data_value, data_values, cons_some}
use beta_boot_git_ops.Text.{
  codes, starts_with, strip_prefix_or_self, split_once, text_eq, text_eq_iff,
}
use beta_boot_git_ops.Base.{
  ◌≡◌, refl, sym, ap, ◌∙◌, subst, inl, inr, Bool, true, false, Option, none, some, List, [], ◌∷◌,
  ◌++◌, ◌==◌, Bool-cases, Text, ℕ, ==_iff, if◌then◌else◌,
}
use mathlib.Core.Option

-- A line that is a `data` field with this value: the name alone, or the name, a colon and the value,
-- with one space between them or none. Without one, the value does not start with a space.
pub data IsField : Text → Text → Type 0 where
  alone : IsField (codes "data") []
  spaced : (v : Text) → IsField (codes "data: " ++ v) v
  close : (v : Text) → starts_with b' ' v ≡ false → IsField (codes "data:" ++ v) v

-- The values of the `data` fields among lines, in order.
pub data Values : List Text → List Text → Type 0 where
  no_line : Values [] []
  field :
      (line v : Text) (ls vs : List Text)
      → IsField line v
      → Values ls vs
      → Values (line ∷ ls) (v ∷ vs)
  other :
      (line : Text) (ls vs : List Text)
      → ((v : Text) → ¬ IsField line v)
      → Values ls vs
      → Values (line ∷ ls) vs

splits :
    (c x : ℕ) (xs f v : Text) (b : Bool) (r : Option (Text × Text))
    → (x == c) ≡ b
    → ((g w : Text) → r ≡ some (g, w) → xs ≡ g ++ (c ∷ w))
    → if◌then◌else◌ {A = Option (Text × Text)} b
        (some ([], xs))
        (Option.map (λ p. (x ∷ p.0, p.1)) r)
      ≡ some (f, v)
    → x ∷ xs ≡ f ++ (c ∷ v)
splits c x xs f v true r at rest e =
    let first : [] ≡ f = cc in
    let behind : xs ≡ v = cc in
    let same : x ≡ c = (==_iff x c).0 at in
    subst (λ f. x ∷ xs ≡ f ++ (c ∷ v)) first (rw (same, behind) refl)
splits c x xs f v false none at rest e = cc
splits c x xs f v false (some (g, w)) at rest e =
    let first : x ∷ g ≡ f = cc in
    let behind : w ≡ v = cc in
    subst (λ f. x ∷ xs ≡ f ++ (c ∷ v)) first
      (subst (λ v. x ∷ xs ≡ x ∷ (g ++ (c ∷ v))) behind (ap (λ t. x ∷ t) (rest g w refl)))

split_once-splits : (c : ℕ) (s f v : Text) → split_once c s ≡ some (f, v) → s ≡ f ++ (c ∷ v)
unfolding split_once
split_once-splits c [] f v e = cc
split_once-splits c (x ∷ xs) f v e =
    splits c x xs f v (x == c) (split_once c xs) refl (λ g w q. split_once-splits c xs g w q) e

value-IsField : (v : Text) → IsField (codes "data:" ++ v) (strip_prefix_or_self b' ' v)
value-IsField [] = close [] refl
value-IsField (x ∷ xs) = elim (Bool-cases (x == b' ')) [
  | inl e ↦
      rw e (
        subst (λ c. IsField (codes "data:" ++ (c ∷ xs)) xs) (sym ((==_iff x b' ').0 e)) (spaced xs))
  | inr e ↦ rw e (close (x ∷ xs) e)
]

kept_whole : (v : Text) → starts_with b' ' v ≡ false → strip_prefix_or_self b' ' v ≡ v
kept_whole [] e = refl
kept_whole (x ∷ xs) e = rw e refl

field-value : (line v : Text) → IsField line v → data_value line ≡ some v
unfolding data_value split_once text_eq
field-value _ _ alone = refl
field-value _ _ (spaced v) = refl
field-value _ _ (close v e) = ap some (kept_whole v e)

named_data :
    (line name value v : Text)
    → (name ≡ codes "data" → IsField line value)
    → (if text_eq name (codes "data") then some value else none) ≡ some v
    → IsField line v
named_data line name value v known e = elim (Bool-cases (text_eq name (codes "data"))) [
  | inl q ↦
      let same : value ≡ v = cc in
      subst (IsField line) same (known ((text_eq_iff name (codes "data")).0 q))
  | inr q ↦ cc
]

read_as :
    (line v : Text) (is_comment : Bool) (parts : Option (Text × Text))
    → split_once b':' line ≡ parts
    → (if is_comment
        then none
        else (let (name, value) = elim parts as (λ _. Text × Text) [
          | some (f, v) ↦ (f, strip_prefix_or_self b' ' v)
          | none ↦ (line, [])
        ] in
            if text_eq name (codes "data") then some value else none))
      ≡ some v
    → IsField line v
read_as line v true parts q e = cc
read_as line v false none q e =
    named_data line line [] v (λ same. subst (λ l. IsField l []) (sym same) alone) e
read_as line v false (some (f, w)) q e =
    named_data line f (strip_prefix_or_self b' ' w) v
      (λ same.
        subst (λ l. IsField l (strip_prefix_or_self b' ' w))
          (sym (split_once-splits b':' line f w q ∙ ap (λ f. f ++ (b':' ∷ w)) same))
          (value-IsField w))
      e

data_value-IsField : (line v : Text) → data_value line ≡ some v → IsField line v
unfolding data_value
data_value-IsField line v e = read_as line v (starts_with b':' line) (split_once b':' line) refl e

with_line :
    (line : Text) (o : Option Text) (ls vs : List Text)
    → data_value line ≡ o
    → Values ls vs
    → Values (line ∷ ls) (cons_some o vs)
with_line line (some v) ls vs e p = field line v ls vs (data_value-IsField line v e) p
with_line line none ls vs e p = other line ls vs (λ v f. (let found = field-value line v f in cc)) p

pub data_values-Values : (ls : List Text) → Values ls (data_values ls)
unfolding data_values
data_values-Values [] = no_line
data_values-Values (line ∷ ls) =
    with_line line (data_value line) ls (data_values ls) refl (data_values-Values ls)
