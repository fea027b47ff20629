-- ===== src/EnvFile/RoundTrip.antt =====
-- An env file that is written is read back.
use beta_boot_git_ops.EnvFile.{
  EnvSource, Entries, split_last, is_quote, strip_matching_quotes, strip_export, has_whitespace,
  pair_of, parse_line, add_entry, load_lines, from_file, get,
}
use beta_boot_git_ops.EnvFile.Lookup.{last_value, from_file-get}
use beta_boot_git_ops.Text.{
  codes, text_eq, starts_with, begins_with, split_once, is_whitespace, trim_start, trim,
}
use beta_boot_git_ops.Text.Lines.{lines}
use beta_boot_git_ops.Text.Lines.Many.{lines-line}
use beta_boot_git_ops.Text.Lines.Single.{has}
use beta_boot_git_ops.Text.Trims.{trim-snoc, trim-dark}
use beta_boot_git_ops.Base.{
  ℕ, suc, ◌≡◌, refl, ap, ◌∙◌, inl, inr, Bool, true, false, ◌&&◌, Option, none, some, List, [], ◌∷◌,
  ◌++◌, append_assoc, arith, ◌==◌, if◌then◌else◌, Bool-cases, snoc, is_empty, or_else, All, ok,
  ◌>>=◌, Text,
}

-- Neither whitespace nor the sign between key and value.
abbrev pub IsPlain : ℕ → Type 0
IsPlain c = (is_whitespace c ≡ false) × ((c == b'=') ≡ false)

abbrev pub IsKey : Text → Type 0
IsKey k = (is_empty k ≡ false) × (starts_with b'#' k ≡ false) × All IsPlain k

-- `KEY="value"`.
abbrev pub assignment : Text → Text → Text
assignment k v = snoc (k ++ (b'=' ∷ b'"' ∷ v)) b'"'

no_space : (x c : ℕ) → (x == b' ') ≡ true → is_whitespace c ≡ false → (x == c) ≡ false
unfolding is_whitespace
no_space x c h k = ground arith

and_false : (a b : Bool) → b ≡ false → (a && b) ≡ false
and_false true b h = h
and_false false b h = refl

begins_with-plain :
    (needle k r : Text)
    → All (λ x. (x == b'=') ≡ false) needle
    → has b' ' needle ≡ true
    → All IsPlain k
    → begins_with needle (k ++ (b'=' ∷ r)) ≡ false
begins_with-plain [] k r n s h = cc
begins_with-plain (x ∷ needle) [] r n s h = rw n.0 refl
begins_with-plain (x ∷ needle) (c ∷ k) r n s h = elim (Bool-cases (x == b' ')) [
  | inl space ↦ rw (no_space x c space h.0.0) refl
  | inr other ↦ and_false (x == c) _ (begins_with-plain needle k r n.1 (rw other at s) h.1)
]

strip_export-plain : (k r : Text) → All IsPlain k → strip_export (k ++ (b'=' ∷ r)) ≡ k ++ (b'=' ∷ r)
unfolding strip_export
strip_export-plain k r h =
    rw
      (begins_with-plain (codes "export ") k r
        (refl, (refl, (refl, (refl, (refl, (refl, (refl, tt))))))) refl h)
      refl

split_once-plain : (k r : Text) → All IsPlain k → split_once b'=' (k ++ (b'=' ∷ r)) ≡ some (k, r)
unfolding split_once
split_once-plain [] r h = refl
split_once-plain (c ∷ k) r (p, h) = rw (p.1, split_once-plain k r h) refl

has_whitespace-plain : (k : Text) → All IsPlain k → has_whitespace k ≡ false
unfolding has_whitespace
has_whitespace-plain [] h = refl
has_whitespace-plain (c ∷ k) (p, h) = rw (p.0, has_whitespace-plain k h) refl

All-dark : (k : Text) → All IsPlain k → All (λ c. is_whitespace c ≡ false) k
All-dark [] h = tt
All-dark (c ∷ k) (p, h) = (p.0, All-dark k h)

split_last-snoc : (t : Text) (q : ℕ) → split_last (snoc t q) ≡ some (t, q)
unfolding split_last
split_last-snoc [] q = refl
split_last-snoc (c ∷ t) q = rw (split_last-snoc t q) refl

strip_matching_quotes-quoted : (v : Text) → strip_matching_quotes (b'"' ∷ snoc v b'"') ≡ v
unfolding strip_matching_quotes is_quote
strip_matching_quotes-quoted v = rw (split_last-snoc v b'"', strip_matching_quotes) refl

abbrev quoted : Text → Text
quoted v = b'"' ∷ snoc v b'"'

assignment-parts : (k v : Text) → assignment k v ≡ k ++ (b'=' ∷ quoted v)
assignment-parts k v = append_assoc k (b'=' ∷ b'"' ∷ v) (b'"' ∷ [])

trim-assignment :
    (k v : Text) → is_empty k ≡ false → All IsPlain k → trim (assignment k v) ≡ assignment k v
unfolding is_whitespace
trim-assignment [] v e h = cc
trim-assignment (c ∷ k) v e (p, h) = trim-snoc c (k ++ (b'=' ∷ b'"' ∷ v)) b'"' p.0 refl

trim-quoted : (v : Text) → trim (quoted v) ≡ quoted v
unfolding is_whitespace
trim-quoted v = trim-snoc b'"' v b'"' refl refl

pair_of-plain : (k v : Text) → IsKey k → pair_of (some (k, quoted v)) ≡ ok (some (k, v))
unfolding pair_of
pair_of-plain k v (e, first, h) =
    rw (trim-dark k (All-dark k h), e, has_whitespace-plain k h, trim-quoted v)
      (ap (λ x. ok (some (k, x))) (strip_matching_quotes-quoted v))

split_assignment :
    (c : ℕ) (k r : Text)
    → All IsPlain (c ∷ k)
    → split_once b'=' (trim_start (strip_export ((c ∷ k) ++ (b'=' ∷ r)))) ≡ some (c ∷ k, r)
unfolding trim_start
split_assignment c k r h =
    ap (λ t. split_once b'=' (trim_start t)) (strip_export-plain (c ∷ k) r h)
    ∙ rw h.0.0 (split_once-plain (c ∷ k) r h)

-- A line that holds something is split.
parse_line-pair :
    (raw : Text)
    → is_empty (trim raw) ≡ false
    → starts_with b'#' (trim raw) ≡ false
    → parse_line raw ≡ pair_of (split_once b'=' (trim_start (strip_export (trim raw))))
unfolding parse_line
parse_line-pair raw e f = rw (e, f) refl

-- A written line is read as its pair.
pub parse_line-assignment : (k v : Text) → IsKey k → parse_line (assignment k v) ≡ ok (some (k, v))
parse_line-assignment [] v (e, first, h) = cc
parse_line-assignment (c ∷ k) v (e, first, h) =
    let same = trim-assignment (c ∷ k) v e h in
    parse_line-pair (assignment (c ∷ k) v) (ap is_empty same) (ap (starts_with b'#') same ∙ first)
    ∙ ap (λ t. pair_of (split_once b'=' (trim_start (strip_export t))))
        (same ∙ assignment-parts (c ∷ k) v)
    ∙ ap pair_of (split_assignment c k (quoted v) h)
    ∙ pair_of-plain (c ∷ k) v (e, first, h)

-- The lines of an env file, and the last value that they assign to a key.
abbrev pub written : Entries → Text
written [] = []
written ((k, v) ∷ es) = assignment k v ++ (b'\n' ∷ written es)

abbrev pub last_assigned : Text → Entries → Option Text
last_assigned k [] = none
last_assigned k ((k', v) ∷ es) =
    or_else (last_assigned k es) (if text_eq k' k then some v else none)

-- A key, and a value within its line.
abbrev pub IsEntry : Text × Text → Type 0
IsEntry (k, v) = IsKey k × (has b'\n' (assignment k v) ≡ false)

abbrev assignments : Entries → List Text
assignments [] = []
assignments ((k, v) ∷ es) = assignment k v ∷ assignments es

lines-written : (es : Entries) → All IsEntry es → lines (written es) ≡ assignments es
unfolding lines
lines-written [] h = refl
lines-written ((k, v) ∷ es) (p, h) =
    lines-line (k ++ (b'=' ∷ b'"' ∷ v)) b'"' (written es) p.1 refl
    ∙ ap (◌∷◌ (assignment k v)) (lines-written es h)

last_value-assignments :
    (x : Text) (es : Entries) → All IsEntry es → last_value x (assignments es) ≡ last_assigned x es
last_value-assignments x [] h = refl
last_value-assignments x ((k, v) ∷ es) (p, h) =
    rw (last_value-assignments x es h, parse_line-assignment k v p.0) refl

load_lines-assignments :
    (idx : ℕ) (es acc : Entries)
    → All IsEntry es
    → (out : Entries) × (load_lines idx (assignments es) acc ≡ ok out)
unfolding load_lines
load_lines-assignments idx [] acc h = (acc, refl)
load_lines-assignments idx ((k, v) ∷ es) acc (p, h) =
    let (out, e) = load_lines-assignments (suc idx) es (add_entry (some (k, v)) acc) h in
    (out, rw (parse_line-assignment k v p.0) e)

-- What is written to an env file is read back: a file with one line `KEY="value"` for each entry
-- loads, and gives each key the last value written for it, or else the environment's. A key is not
-- empty, does not begin with the sign of a comment, and holds no whitespace and no `=`; neither it
-- nor a value holds a newline.
pub from_file-written :
    (env : Text → Option Text) (path : Text) (es : Entries)
    → All IsEntry es
    → (src : EnvSource) × (from_file path (some (written es)) ≡ ok src)
      × ((k : Text) → get env src k ≡ or_else (last_assigned k es) (env k))
unfolding from_file
from_file-written env path es h =
    let (out, e) = load_lines-assignments 0 es [] h in
    let loaded =
      ap
        (λ ls. load_lines 0 ls [] >>= (λ es. ok (record { file_entries = es; origin = some path })))
        (lines-written es h)
      ∙ ap (λ r. r >>= (λ es. ok (record { file_entries = es; origin = some path }))) e in
    (
      record { file_entries = out; origin = some path },
      loaded,
      λ k.
          from_file-get env path (written es) (record { file_entries = out; origin = some path }) k
            loaded
          ∙ ap (λ ls. or_else (last_value k ls) (env k)) (lines-written es h)
          ∙ ap (λ o. or_else o (env k)) (last_value-assignments k es h),
    )
