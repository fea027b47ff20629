-- ===== src/UnitTests/EnvFileRs.antt =====
-- The tests of chat2/src/env_file.rs.
use beta_boot_git_ops.EnvFile.{
  EnvSource, LoadError, malformed_at, expected_pair, from_file, get, show_load_error,
}
use beta_boot_git_ops.Text.{codes, contains, text_eq, trim, split_once}
use beta_boot_git_ops.Base.{
  ◌≡◌, refl, true, Option, none, some, List, [], ◌∷◌, if◌then◌else◌, All, Result, ok, err, Text,
}

abbrev path : Text
path = codes "/tmp/envtest"

-- A file with this content, loaded.
abbrev load : Text → Result EnvSource LoadError
load content = from_file path (some content)

-- The values of these keys in the loaded file, where it loads.
abbrev Gives : (Text → Option Text) → Text → List (Text × Text) → Type 0
Gives env content pairs =
    (s : EnvSource) × (load content ≡ ok s)
    × All (λ (p : Text × Text). get env s p.0 ≡ some p.1) pairs

abbrev no_process : Text → Option Text
no_process key = none

abbrev basic : Text
basic =
    codes
      "# comment\n\nOPENAI_MODEL=meta/llama-3.3-70b-instruct\nexport OPENAI_BASE_URL=https://integrate.api.nvidia.com/v1\n"

abbrev ParsesBasicPairsCommentsBlanks : Type 0
ParsesBasicPairsCommentsBlanks = Gives no_process basic (
    (codes "OPENAI_MODEL", codes "meta/llama-3.3-70b-instruct")
    ∷ (codes "OPENAI_BASE_URL", codes "https://integrate.api.nvidia.com/v1")
    ∷ [])

abbrev loaded : List (Text × Text) → EnvSource
loaded entries = record { file_entries = entries; origin = some path }

parses_basic_pairs_comments_blanks : ParsesBasicPairsCommentsBlanks
unfolding from_file get trim split_once text_eq
parses_basic_pairs_comments_blanks = (
  loaded (
      (codes "OPENAI_MODEL", codes "meta/llama-3.3-70b-instruct")
      ∷ (codes "OPENAI_BASE_URL", codes "https://integrate.api.nvidia.com/v1")
      ∷ []),
  refl,
  (refl, (refl, tt)),
)

abbrev StripsMatchingQuotesOnly : Type 0
StripsMatchingQuotesOnly = Gives no_process (codes "A=\"quoted\"\nB='single'\nC=\"unbalanced\n") (
    (codes "A", codes "quoted")
    ∷ (codes "B", codes "single")
    ∷ (codes "C", codes "\"unbalanced")
    ∷ [])

strips_matching_quotes_only : StripsMatchingQuotesOnly
unfolding from_file get trim split_once text_eq
strips_matching_quotes_only = (
  loaded (
      (codes "A", codes "quoted")
      ∷ (codes "B", codes "single")
      ∷ (codes "C", codes "\"unbalanced")
      ∷ []),
  refl,
  (refl, (refl, (refl, tt))),
)

abbrev from_process : Text → Option Text
from_process key =
    if text_eq key (codes "ENVFILE_TEST_PRECEDENCE") then some (codes "from-process") else none

abbrev FileWinsOverProcessEnv : Type 0
FileWinsOverProcessEnv =
    Gives from_process (codes "ENVFILE_TEST_PRECEDENCE=from-file\n")
      ((codes "ENVFILE_TEST_PRECEDENCE", codes "from-file") ∷ [])

file_wins_over_process_env : FileWinsOverProcessEnv
unfolding from_file get trim split_once text_eq
file_wins_over_process_env =
    (loaded ((codes "ENVFILE_TEST_PRECEDENCE", codes "from-file") ∷ []), refl, (refl, tt))

abbrev RejectsMalformedLineWithPosition : Type 0
RejectsMalformedLineWithPosition =
    (e : LoadError) × (load (codes "GOOD=1\nthis is not a pair\n") ≡ err e)
    × (contains (codes ":2:") (show_load_error path e) ≡ true)

rejects_malformed_line_with_position : RejectsMalformedLineWithPosition
unfolding from_file trim split_once text_eq contains show_load_error
rejects_malformed_line_with_position = (malformed_at 2 expected_pair, refl, refl)
