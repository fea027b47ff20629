-- ===== src/EnvFile/Lookup.antt =====
-- The order of lookup: the last line of the file that sets the key, then the environment.
use beta_boot_git_ops.EnvFile.{
  Entries, EnvSource, insert, lookup, Malformed, LoadError, parse_line, add_entry, load_next,
  malformed_at, load_lines, from_file, get,
}
use beta_boot_git_ops.Text.{text_eq, text_eq_iff}
use beta_boot_git_ops.Text.Lines.{lines}
use beta_boot_git_ops.Base.{
  ℕ, suc, ◌+◌, ◌≡◌, refl, sym, ap, ◌∙◌, subst, inl, inr, true, Option, none, some, List, [], ◌∷◌,
  if◌then◌else◌, Bool-cases, or_else, Result, ok, err, ◌>>=◌, Result-cases, Text,
}

text_eq_refl : (k : Text) → text_eq k k ≡ true
text_eq_refl k = (text_eq_iff k k).1 refl

lookup-insert :
    (k k' v : Text) (es : Entries)
    → lookup k (insert k' v es) ≡ (if text_eq k' k then some v else lookup k es)
unfolding lookup insert
lookup-insert k k' v [] = refl
lookup-insert k k' v ((k'', w) ∷ es) = elim (Bool-cases (text_eq k'' k')) [
  | inl same ↦
      let e : k'' ≡ k' = (text_eq_iff k'' k').0 same in
      rw (same, e) (elim (Bool-cases (text_eq k' k)) [ inl q ↦ rw q refl | inr q ↦ rw q refl ])
  | inr other ↦ elim (Bool-cases (text_eq k'' k)) [
    | inl found ↦
        let e : k'' ≡ k = (text_eq_iff k'' k).0 found in
        elim (Bool-cases (text_eq k' k)) [
          | inl q ↦
              let twice : text_eq k'' k' ≡ true =
                (text_eq_iff k'' k').1 (e ∙ sym ((text_eq_iff k' k).0 q)) in
              cc
          | inr q ↦ rw (other, found, q) refl
        ]
    | inr not_found ↦ rw (other, not_found) (lookup-insert k k' v es)
  ]
]

-- The value that a line gives to the key, and the one that the last such line gives.
abbrev pub value_on : Text → Result (Option (Text × Text)) Malformed → Option Text
value_on k (ok (some (k', v))) = if text_eq k' k then some v else none
value_on k (ok none) = none
value_on k (err why) = none

abbrev pub last_value : Text → List Text → Option Text
last_value k [] = none
last_value k (l ∷ ls) = or_else (last_value k ls) (value_on k (parse_line l))

lookup-add_entry :
    (k : Text) (pair : Option (Text × Text)) (es : Entries)
    → lookup k (add_entry pair es) ≡ or_else (value_on k (ok pair)) (lookup k es)
unfolding add_entry
lookup-add_entry k none es = refl
lookup-add_entry k (some (k', v)) es =
    lookup-insert k k' v es
    ∙ (elim (Bool-cases (text_eq k' k)) [ inl q ↦ rw q refl | inr q ↦ rw q refl ])

or_else_assoc : (a b c : Option Text) → or_else a (or_else b c) ≡ or_else (or_else a b) c
or_else_assoc none b c = refl
or_else_assoc (some x) b c = refl

load_lines-lookup :
    (k : Text) (idx : ℕ) (ls : List Text) (es es' : Entries)
    → load_lines idx ls es ≡ ok es'
    → lookup k es' ≡ or_else (last_value k ls) (lookup k es)
unfolding load_lines
load_lines-lookup k idx [] es es' h = let e : es ≡ es' = cc in ap (lookup k) (sym e)
load_lines-lookup k idx (l ∷ ls) es es' h = elim (Result-cases (parse_line l)) [
  | inl (pair, p) ↦
      load_lines-lookup k (suc idx) ls (add_entry pair es) es' (
        subst (λ r. load_next idx r (λ pair. load_lines (suc idx) ls (add_entry pair es)) ≡ ok es')
          p h)
      ∙ rw (lookup-add_entry k pair es, p)
          (or_else_assoc (last_value k ls) (value_on k (ok pair)) (lookup k es))
  | inr (why, p) ↦
      let bad : Path (Result Entries LoadError) (err (malformed_at (idx + 1) why)) (ok es') =
        subst (λ r. load_next idx r (λ pair. load_lines (suc idx) ls (add_entry pair es)) ≡ ok es')
          p h in
      cc
]

-- A file that loads gives a key the value of the last line that sets it; where no line does, the
-- environment decides, and nothing else.
pub from_file-get :
    (env : Text → Option Text) (path text : Text) (src : EnvSource) (k : Text)
    → from_file path (some text) ≡ ok src
    → get env src k ≡ or_else (last_value k (lines text)) (env k)
unfolding from_file get lookup
from_file-get env path text src k h = elim (Result-cases (load_lines 0 (lines text) [])) [
  | inl (es, p) ↦
      let loaded : Path (Result EnvSource LoadError)
          (ok (record { file_entries = es; origin = some path })) (ok src) =
        subst (λ r. (r >>= (λ es. ok (record { file_entries = es; origin = some path }))) ≡ ok src)
          p h in
      let same : src ≡ record { file_entries = es; origin = some path } = cc in
      ap (λ s. or_else (lookup k s.file_entries) (env k)) same
      ∙ ap (λ o. or_else o (env k)) (load_lines-lookup k 0 (lines text) [] es p)
      ∙ sym (or_else_assoc (last_value k (lines text)) none (env k))
  | inr (e, p) ↦
      let bad : Path (Result EnvSource LoadError) (err e) (ok src) =
        subst (λ r. (r >>= (λ es. ok (record { file_entries = es; origin = some path }))) ≡ ok src)
          p h in
      cc
]
