-- ===== src/Tests/Settings.antt =====
-- The env file and the configuration.
use beta_boot_git_ops.Config.{must_be_integer, from_source_prefixed}
use beta_boot_git_ops.Config.Sources.{Reads, from_source_prefixed-Reads}
use beta_boot_git_ops.EnvFile.{
  EnvSource, Entries, malformed_key, malformed_at, parse_line, from_file, get,
}
use beta_boot_git_ops.EnvFile.Errors.{Checked, from_file-Checked}
use beta_boot_git_ops.EnvFile.Lookup.{last_value, from_file-get}
use beta_boot_git_ops.EnvFile.RoundTrip.{written, last_assigned, from_file-written}
use beta_boot_git_ops.Text.{is_whitespace, codes, trim, split_once, text_eq}
use beta_boot_git_ops.Text.Lines.{lines}
use beta_boot_git_ops.Base.{◌≡◌, refl, Option, none, some, [], ◌∷◌, or_else, ok, err, Text}

abbrev file : Text
file = codes "# demo\n\nexport A = \"x y\"\nB='z\nA=2\n"

abbrev source : EnvSource
source = record {
  file_entries = (codes "A", codes "2") ∷ (codes "B", codes "'z") ∷ [];
  origin = some (codes "f");
}

abbrev no_env : Text → Option Text
no_env key = none

loads : from_file (codes "f") (some file) ≡ ok source
unfolding from_file trim split_once text_eq
loads = refl

quotes : parse_line (codes "  export A = \"x y\" ") ≡ ok (some (codes "A", codes "x y"))
unfolding parse_line trim split_once
quotes = refl

names_the_line :
    from_file (codes "f") (some (codes "A=1\nB C=2\n")) ≡ err (malformed_at 2 malformed_key)
unfolding from_file trim split_once text_eq
names_the_line = refl

from_file-get_example :
    get no_env source (codes "A") ≡ or_else (last_value (codes "A") (lines file)) none
from_file-get_example = from_file-get no_env (codes "f") file source (codes "A") loads

from_file-Checked_example : Checked (codes "f") file (from_file (codes "f") (some file))
from_file-Checked_example = from_file-Checked (codes "f") file

abbrev settings : EnvSource
settings = record {
  file_entries =
      (codes "NIM_OPENAI_API_KEY", codes "k")
      ∷ (codes "NIM_OPENAI_MODEL", codes "m")
      ∷ (codes "OPENAI_STALL_SECS", codes "soon")
      ∷ [];
  origin = none;
}

not_a_number :
    from_source_prefixed (get no_env settings) (codes "NIM_")
    ≡ err (must_be_integer (codes "OPENAI_STALL_SECS"))
unfolding from_source_prefixed get text_eq
not_a_number = refl

from_source_prefixed-Reads_example :
    Reads
      (get no_env settings)
      (codes "NIM_")
      (from_source_prefixed (get no_env settings) (codes "NIM_"))
from_source_prefixed-Reads_example = from_source_prefixed-Reads (get no_env settings) (codes "NIM_")

abbrev entries : Entries
entries = (codes "A", codes "x y") ∷ (codes "B", codes "z") ∷ (codes "A", codes "2") ∷ []

from_file-written_example :
    (src : EnvSource) × (from_file (codes "f") (some (written entries)) ≡ ok src)
    × ((k : Text) → get no_env src k ≡ or_else (last_assigned k entries) (no_env k))
unfolding is_whitespace
from_file-written_example = from_file-written no_env (codes "f") entries (
  ((refl, refl, ((refl, refl), tt)), refl),
  (((refl, refl, ((refl, refl), tt)), refl), (((refl, refl, ((refl, refl), tt)), refl), tt)),
)
