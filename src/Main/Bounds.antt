-- ===== src/Main/Bounds.antt =====
-- The numbers that the program starts with.
use beta_boot_git_ops.EnvFile.{EnvSource, process_only, LoadError, from_file, get}
use beta_boot_git_ops.Main.{
  Environment, StartError, bad_env_file, Started, below_u32, parse_u32, or_refuse, start_with,
  is_help, start,
}
use beta_boot_git_ops.Main.Startup.{IsNumber, Configured, Starts, start_with-Starts}
use beta_boot_git_ops.Text.{codes}
use beta_boot_git_ops.Text.Numbers.{parse_u64}
use beta_boot_git_ops.Base.{
  ℕ, ◌^◌, ◌<◌, ◌≡◌, ap, subst, inl, inr, Option, none, some, List, [], ◌∷◌, arith, ltb, ltb→lt,
  Bool-cases, unwrap_or, Result, ok, err, ◌>>=◌, Text,
}

-- A `u32` has 32 bits.
below_u32_bound : (o : Option ℕ) (n : ℕ) → below_u32 o ≡ some n → n < 2 ^ 32
below_u32_bound none n h = cc
below_u32_bound (some m) n h = elim (Bool-cases (ltb m (2 ^ 32))) [
  | inl small ↦
      let same : m ≡ n = ap (λ o. unwrap_or o 0) (rw small at h) in
      omega (arith, same, ltb→lt m (2 ^ 32) small)
  | inr large ↦ absurd (cc (rw large at h))
]

parse_u32_bound : (t : Text) (n : ℕ) → parse_u32 t ≡ some n → n < 2 ^ 32
unfolding parse_u32
parse_u32_bound t n h = below_u32_bound (parse_u64 t) n h

IsNumber-bound :
    (look : Text → Option Text) (name : Text) (n : ℕ)
    → IsNumber look parse_u32 name 1 n
    → n < 2 ^ 32
IsNumber-bound look name n (inl (unset, e)) = omega (arith, e)
IsNumber-bound look name n (inr (t, set, e)) = parse_u32_bound t n e

module _ (w : Environment) (s : Started) where
  started_is :
      (r : Result Started StartError)
      → Path (Option (Result Started StartError)) (some r) (some (ok s))
      → r ≡ ok s
  started_is r h = ap (λ o. unwrap_or o r) h

  after_file :
      (f : Text) (r : Result EnvSource LoadError)
      → (or_refuse bad_env_file r >>= start_with w) ≡ ok s
      → (source : EnvSource) × (start_with w source ≡ ok s)
  after_file f (ok source) h = (source, h)
  after_file f (err e) h = cc

  -- What started has been read from some source.
  start-source :
      (args : List Text)
      → start w args ≡ some (ok s)
      → (source : EnvSource) × (start_with w source ≡ ok s)
  unfolding start
  start-source [] h = (process_only, started_is (start_with w process_only) h)
  start-source (f ∷ args) h = elim (Bool-cases (is_help w f)) [
    | inl help ↦ absurd (cc (rw help at h))
    | inr path ↦ after_file f (from_file f (w.read_to_string f)) (started_is _ (rw path at h))
  ]

  pub start-Configured :
      (args : List Text)
      → start w args ≡ some (ok s)
      → (source : EnvSource) × Configured (get w.env source) w source s
  start-Configured args h =
      let (source, e) = start-source args h in
      (source, subst (Starts (get w.env source) w source) e (start_with-Starts w source))

  pub start-send_buckets : (args : List Text) → start w args ≡ some (ok s) → s.send_buckets < 2 ^ 32
  start-send_buckets args h =
      let (source, c) = start-Configured args h in
      IsNumber-bound (get w.env source) (codes "OPENAI_SEND_BUCKETS") s.send_buckets c.send_buckets
