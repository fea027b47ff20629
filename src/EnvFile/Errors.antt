-- ===== src/EnvFile/Errors.antt =====
-- A file that does not load names its first malformed line.
use beta_boot_git_ops.EnvFile.{
  Entries, EnvSource, Malformed, LoadError, unreadable, malformed_at, parse_line, add_entry,
  load_next, load_lines, from_file,
}
use beta_boot_git_ops.Text.Lines.{lines}
use beta_boot_git_ops.Base.{
  ℕ, suc, ◌+◌, ◌≡◌, refl, sym, ap, ◌∙◌, subst, inl, inr, Option, some, List, [], ◌∷◌, ◌++◌, arith,
  length, All, Result, ok, err, ◌>>=◌, Result-cases, Text,
}

abbrev pub IsWellFormed : Text → Type 0
IsWellFormed l = (pair : Option (Text × Text)) × (parse_line l ≡ ok pair)

-- The lines' first malformed one is the n-th, counted from one.
pub record FailsAt (ls : List Text) (n : ℕ) (why : Malformed) : Type 0 where
  pub before : List Text
  pub line : Text
  pub after : List Text
  pub parts : ls ≡ before ++ (line ∷ after)
  pub position : n ≡ suc (length before)
  pub good : All IsWellFormed before
  pub bad : parse_line line ≡ err why

-- What the loop returns, from a count of the lines before.
abbrev Loads : ℕ → List Text → Result Entries LoadError → Type 0
Loads idx ls (ok es) = All IsWellFormed ls
Loads idx ls (err unreadable) = ⊥
Loads idx ls (err (malformed_at line why)) = (n : ℕ) × (line ≡ idx + n) × FailsAt ls n why

Loads-cons :
    (idx : ℕ) (l : Text) (ls : List Text) (r : Result Entries LoadError)
    → IsWellFormed l
    → Loads (suc idx) ls r
    → Loads idx (l ∷ ls) r
Loads-cons idx l ls (ok es) w r = (w, r)
Loads-cons idx l ls (err unreadable) w r = r
Loads-cons idx l ls (err (malformed_at line why)) w (n, e, f) = (
  suc n,
  omega (arith, e),
  record {
    before = l ∷ f.before;
    line = f.line;
    after = f.after;
    parts = ap (◌∷◌ l) f.parts;
    position = ap suc f.position;
    good = (w, f.good);
    bad = f.bad;
  },
)

load_lines-Loads : (idx : ℕ) (ls : List Text) (es : Entries) → Loads idx ls (load_lines idx ls es)
unfolding load_lines
load_lines-Loads idx [] es = tt
load_lines-Loads idx (l ∷ ls) es = elim (Result-cases (parse_line l)) [
  | inl (pair, p) ↦
      subst
        (λ r.
          Loads idx (l ∷ ls)
            (load_next idx r (λ pair. load_lines (suc idx) ls (add_entry pair es))))
        (sym p)
        (Loads-cons idx l ls (load_lines (suc idx) ls (add_entry pair es)) (pair, p)
          (load_lines-Loads (suc idx) ls (add_entry pair es)))
  | inr (why, p) ↦
      subst
        (λ r.
          Loads idx (l ∷ ls)
            (load_next idx r (λ pair. load_lines (suc idx) ls (add_entry pair es))))
        (sym p)
        (
          1,
          refl,
          record {
            before = [];
            line = l;
            after = ls;
            parts = refl;
            position = refl;
            good = tt;
            bad = p;
          },
        )
]

-- What a load comes to: a source where every line is well formed, or the number of the first line
-- that is not, and what is wrong with it. The rest of the error is the path: no text of the file
-- is in it.
abbrev pub Checked : Text → Text → Result EnvSource LoadError → Type 0
Checked path text (ok src) = All IsWellFormed (lines text) × (src.origin ≡ some path)
Checked path text (err unreadable) = ⊥
Checked path text (err (malformed_at n why)) = FailsAt (lines text) n why

Checked-of :
    (path text : Text) (r : Result Entries LoadError)
    → Loads 0 (lines text) r
    → Checked path text (r >>= (λ es. ok (record { file_entries = es; origin = some path })))
Checked-of path text (ok es) q = (q, refl)
Checked-of path text (err unreadable) q = q
Checked-of path text (err (malformed_at line why)) (n, e, f) =
    subst (λ n. FailsAt (lines text) n why) (sym (e ∙ omega arith)) f

-- A file whose text was read loads where all its lines are well formed, with its path as the
-- origin, and else fails with the number of its first malformed line and what is wrong there.
pub from_file-Checked : (path text : Text) → Checked path text (from_file path (some text))
unfolding from_file
from_file-Checked path text =
    Checked-of path text (load_lines 0 (lines text) []) (load_lines-Loads 0 (lines text) [])
