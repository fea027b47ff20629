-- ===== src/EnvFile.antt =====
-- chat2/src/env_file.rs: where the configuration is read from. The file's contents and the process
-- environment are arguments.
pub mod Lookup
pub mod Errors
pub mod RoundTrip
use beta_boot_git_ops.Text.{
  codes, text_eq, starts_with, begins_with, split_once, is_whitespace, trim_start, trim,
}
use beta_boot_git_ops.Text.Lines.{lines}
use beta_boot_git_ops.Text.Numbers.{decimal}
use beta_boot_git_ops.Base.{
  ℕ, suc, ◌+◌, Bool, false, ◌&&◌, ◌||◌, Option, none, some, List, [], ◌∷◌, ◌++◌, ◌==◌,
  if◌then◌else◌, drop, is_empty, or_else, Result, ok, err, ◌>>=◌, Text,
}

abbrev pub Entries : Type 0
Entries = List (Text × Text)

pub record EnvSource : Type 0 where
  pub file_entries : Entries
  pub origin : Option Text

unfoldable pub process_only : EnvSource
process_only = record { file_entries = []; origin = none }

-- `HashMap::insert` and `get`, on a list with one entry for each key.
unfoldable pub insert : Text → Text → Entries → Entries
insert k v [] = (k, v) ∷ []
insert k v ((k', v') ∷ es) =
    let rest = insert k v es in if text_eq k' k then (k', v) ∷ es else (k', v') ∷ rest

unfoldable pub lookup : Text → Entries → Option Text
lookup k [] = none
lookup k ((k', v) ∷ es) = let rest = lookup k es in if text_eq k' k then some v else rest

-- What is wrong with a line.
pub data Malformed : Type 0 where
  expected_pair malformed_key : Malformed

pub data LoadError : Type 0 where
  unreadable : LoadError
  malformed_at : (line : ℕ) → Malformed → LoadError

-- The last character, and what is before it.
unfoldable pub split_last : Text → Option (Text × ℕ)
split_last [] = none
split_last (c ∷ cs) = some (elim (split_last cs) as (λ _. Text × ℕ) [
  | none ↦ ([], c)
  | some (before, last) ↦ (c ∷ before, last)
])

unfoldable pub is_quote : ℕ → Bool
is_quote c = c == b'"' || c == b'\''

unfoldable pub strip_matching_quotes : Text → Text
unfolding split_last is_quote
strip_matching_quotes [] = []
strip_matching_quotes (q ∷ rest) = elim (split_last rest) [
  | none ↦ q ∷ rest
  | some (between, last) ↦ if is_quote q && last == q then between else q ∷ rest
]

unfoldable pub strip_export : Text → Text
strip_export line = if begins_with (codes "export ") line then drop 7 line else line

unfoldable pub has_whitespace : Text → Bool
unfolding is_whitespace
has_whitespace [] = false
has_whitespace (c ∷ cs) = is_whitespace c || has_whitespace cs

-- A pair, once the line is split.
unfoldable pub pair_of : Option (Text × Text) → Result (Option (Text × Text)) Malformed
unfolding has_whitespace strip_matching_quotes
pair_of none = err expected_pair
pair_of (some (key, value)) =
    if is_empty (trim key) || has_whitespace (trim key)
    then err malformed_key
    else ok (some (trim key, strip_matching_quotes (trim value)))

-- One line: nothing, a pair, or an error.
unfoldable pub parse_line : Text → Result (Option (Text × Text)) Malformed
unfolding pair_of strip_export
parse_line raw =
    let line = trim raw in
    if is_empty line || starts_with b'#' line
    then ok none
    else pair_of (split_once b'=' (trim_start (strip_export line)))

unfoldable pub add_entry : Option (Text × Text) → Entries → Entries
unfolding insert
add_entry none es = es
add_entry (some (k, v)) es = insert k v es

-- The rest of the loop, unless the line is malformed; `idx` is the number of lines before.
abbrev pub load_next :
    ℕ
    → Result (Option (Text × Text)) Malformed
    → (Option (Text × Text) → Result Entries LoadError)
    → Result Entries LoadError
load_next idx (ok pair) rest = rest pair
load_next idx (err why) rest = err (malformed_at (idx + 1) why)

unfoldable pub load_lines : ℕ → List Text → Entries → Result Entries LoadError
unfolding parse_line add_entry
load_lines idx [] es = ok es
load_lines idx (l ∷ ls) es =
    load_next idx (parse_line l) (λ pair. load_lines (suc idx) ls (add_entry pair es))

unfoldable pub from_file : Text → Option Text → Result EnvSource LoadError
unfolding load_lines lines
from_file path none = err unreadable
from_file path (some text) =
    load_lines 0 (lines text) [] >>= (λ es. ok (record { file_entries = es; origin = some path }))

-- `show` of an error: it holds the path, and the line's number.
unfoldable pub show_load_error : Text → LoadError → Text
unfolding decimal
show_load_error path unreadable = codes "cannot read env file " ++ path
show_load_error path (malformed_at n expected_pair) =
    path ++ (codes ":" ++ (decimal n ++ codes ": expected KEY=VALUE, comment, or blank line"))
show_load_error path (malformed_at n malformed_key) =
    path ++ (codes ":" ++ (decimal n ++ codes ": malformed key"))

-- The one way of lookup; `env` is the process environment.
unfoldable pub get : (Text → Option Text) → EnvSource → Text → Option Text
unfolding lookup
get env src key = or_else (lookup key src.file_entries) (env key)
