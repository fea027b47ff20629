-- ===== src/Config/Sources.antt =====
-- What a configuration that was read holds, and why one could not be read.
use beta_boot_git_ops.Config.{
  OpenAiConfig, ConfigError, not_set, must_be_integer, integer_or, secs, secs_of, configure,
  with_numbers, from_source_prefixed, trim_end_slashes, is_off, base_url_of,
}
use beta_boot_git_ops.Text.{codes, text_eq, text_eq_iff}
use beta_boot_git_ops.Text.Numbers.{parse_u64, decimal}
use beta_boot_git_ops.Text.Numbers.Parse.{parse_u64-decimal}
use beta_boot_git_ops.Base.{
  arith, ℕ, zero, suc, ◌*◌, ◌∷◌, [], Bool, true, false, not, ◌&&◌, ◌||◌, ◌==◌, ◌≢◌, ap, is_empty,
  unwrap_or, if◌then◌else◌, ◌^◌, ◌<◌, ◌≡◌, refl, sym, subst, ◌⊎◌, inl, inr, Option, none, some,
  ◌++◌, Option-cases, or_else, Result, ok, err, Result-cases, Text,
}

-- This many slashes.
abbrev pub slashes : ℕ → Text
slashes zero = []
slashes (suc n) = b'/' ∷ slashes n

-- The text ends in a slash.
abbrev pub EndsInSlash : Text → Type 0
EndsInSlash [] = ⊥
EndsInSlash (c ∷ []) = c ≡ b'/'
EndsInSlash (c ∷ (d ∷ ds)) = EndsInSlash (d ∷ ds)

-- A URL without the slashes that it ends in.
abbrev pub Trimmed : Text → Text → Type 0
Trimmed url base = ((n : ℕ) × (url ≡ base ++ slashes n)) × (EndsInSlash base → ⊥)

slash_first :
    (c : ℕ) (cs : Text) (n : ℕ) → (c == b'/') ≡ true → cs ≡ slashes n → c ∷ cs ≡ slashes (suc n)
slash_first c cs n e q = ground (arith, e, q)

slash_not : (c : ℕ) → c ≡ b'/' → (c == b'/') ≡ false → ⊥
slash_not c e f = ground (arith, e, f)

trim_keeps :
    (c : ℕ) (cs rest : Text) (b : Bool)
    → (is_empty rest && c == b'/') ≡ b
    → Trimmed cs rest
    → Trimmed (c ∷ cs) (if b then [] else c ∷ rest)
trim_keeps c cs [] true e ((n, q), bare) = ((suc n, slash_first c cs n e q), λ x. x)
trim_keeps c cs (r ∷ rs) true e p = cc
trim_keeps c cs [] false e ((n, q), bare) =
    ((n, ap (λ t. c ∷ t) q), λ is_slash. absurd (slash_not c is_slash e))
trim_keeps c cs (r ∷ rs) false e ((n, q), bare) = ((n, ap (λ t. c ∷ t) q), bare)

trim_end_slashes-Trimmed : (url : Text) → Trimmed url (trim_end_slashes url)
unfolding trim_end_slashes
trim_end_slashes-Trimmed [] = ((0, refl), λ x. x)
trim_end_slashes-Trimmed (c ∷ cs) =
    trim_keeps c cs (trim_end_slashes cs) (is_empty (trim_end_slashes cs) && c == b'/') refl
      (trim_end_slashes-Trimmed cs)

-- Whether the usage is asked for: unless the setting is off.
abbrev pub UsageAsked : Option Text → Bool → Type 0
UsageAsked setting true =
    (setting ≢ some (codes "0")) × (setting ≢ some (codes "false")) × (setting ≢ some (codes "no"))
UsageAsked setting false =
    (setting ≡ some (codes "0"))
    ⊎ ((setting ≡ some (codes "false")) ⊎ (setting ≡ some (codes "no")))

unequal : (t u : Text) → text_eq t u ≡ false → some t ≢ some u
unequal t u e same = ground (arith, text_eq_iff t u, e, same)

usage_of :
    (t : Text) (zero_ false_ no_ : Bool)
    → text_eq t (codes "0") ≡ zero_
    → text_eq t (codes "false") ≡ false_
    → text_eq t (codes "no") ≡ no_
    → UsageAsked (some t) (not (zero_ || (false_ || no_)))
usage_of t true b c e f g = inl (ap some ((text_eq_iff t (codes "0")).0 e))
usage_of t false true c e f g = inr (inl (ap some ((text_eq_iff t (codes "false")).0 f)))
usage_of t false false true e f g = inr (inr (ap some ((text_eq_iff t (codes "no")).0 g)))
usage_of t false false false e f g = (unequal t _ e, unequal t _ f, unequal t _ g)

is_off-UsageAsked : (setting : Option Text) → UsageAsked setting (not (is_off setting))
unfolding is_off
is_off-UsageAsked none = (λ e. cc, λ e. cc, λ e. cc)
is_off-UsageAsked (some t) =
    usage_of t (text_eq t (codes "0")) (text_eq t (codes "false")) (text_eq t (codes "no")) refl
      refl refl

module _ (get : Text → Option Text) where
  -- A number: the default where it is not set, and else what its text reads as.
  abbrev pub IsSetting : Text → ℕ → ℕ → Type 0
  IsSetting name dflt n =
      ((get name ≡ none) × (n ≡ dflt)) ⊎ ((s : Text) × (get name ≡ some s) × (parse_u64 s ≡ some n))

  -- The key under the prefix, or else without it.
  abbrev pub api_key_of : Text → Option Text
  api_key_of prefix =
      or_else (get (prefix ++ codes "OPENAI_API_KEY")) (get (codes "OPENAI_API_KEY"))

  -- Why a configuration cannot be read: a name without which there is none, or a number's text
  -- that is no number.
  abbrev pub Lacks : Text → ConfigError → Type 0
  Lacks prefix (not_set name) =
      ((name ≡ codes "OPENAI_API_KEY") × (api_key_of prefix ≡ none))
      ⊎ ((name ≡ codes "OPENAI_MODEL") × (get (prefix ++ codes "OPENAI_MODEL") ≡ none))
  Lacks prefix (must_be_integer name) = (s : Text) × (get name ≡ some s) × (parse_u64 s ≡ none)

  -- The settings that a configuration was read from.
  pub record Settings (prefix : Text) (cfg : OpenAiConfig) : Type 0 where
    pub api_key : Text
    pub model : Text
    pub stall : ℕ
    pub backstop : ℕ
    pub overall : ℕ
    pub floor : ℕ
    pub sustained : ℕ
    pub same_key : cfg.api_key ≡ api_key
    pub same_model : cfg.model ≡ model
    pub same_stall : cfg.stall_timeout ≡ stall * 1000000000
    pub same_backstop : cfg.first_byte_backstop ≡ backstop * 1000000000
    pub same_overall : cfg.overall_deadline ≡ overall * 1000000000
    pub same_floor : cfg.throughput_floor_bps ≡ floor
    pub same_sustained : cfg.throughput_sustained ≡ sustained * 1000000000
    pub same_system : cfg.system_prompt ≡ get (codes "OPENAI_SYSTEM")
    pub trimmed :
        Trimmed
          (unwrap_or (get (prefix ++ codes "OPENAI_BASE_URL")) (codes "https://api.openai.com/v1"))
          cfg.base_url
    pub usage : UsageAsked (get (codes "OPENAI_INCLUDE_USAGE")) cfg.request_usage
    pub key_set : api_key_of prefix ≡ some api_key
    pub model_set : get (prefix ++ codes "OPENAI_MODEL") ≡ some model
    pub stall_set : IsSetting (codes "OPENAI_STALL_SECS") 30 stall
    pub backstop_set : IsSetting (codes "OPENAI_FIRST_BYTE_BACKSTOP_SECS") 120 backstop
    pub overall_set : IsSetting (codes "OPENAI_OVERALL_DEADLINE_SECS") 600 overall
    pub floor_set : IsSetting (codes "OPENAI_THROUGHPUT_FLOOR_BPS") 1 floor
    pub sustained_set : IsSetting (codes "OPENAI_THROUGHPUT_SUSTAINED_SECS") 20 sustained

  abbrev pub Reads : Text → Result OpenAiConfig ConfigError → Type 0
  Reads prefix (ok cfg) = Settings prefix cfg
  Reads prefix (err e) = Lacks prefix e

  integer_or-ok : (name : Text) (o : Option ℕ) (n : ℕ) → integer_or name o ≡ ok n → o ≡ some n
  integer_or-ok name none n h = cc
  integer_or-ok name (some m) n h = cc

  integer_or-err :
      (name : Text) (o : Option ℕ) (e : ConfigError)
      → integer_or name o ≡ err e
      → (o ≡ none) × (e ≡ must_be_integer name)
  integer_or-err name none e h = (refl, cc)
  integer_or-err name (some m) e h = cc

  secs-ok :
      (name : Text) (dflt n : ℕ) (o : Option Text)
      → get name ≡ o
      → secs name o dflt ≡ ok n
      → IsSetting name dflt n
  unfolding secs
  secs-ok name dflt n none g h = inl (g, cc)
  secs-ok name dflt n (some s) g h = inr (s, g, integer_or-ok name (parse_u64 s) n h)

  secs-err :
      (prefix name : Text) (dflt : ℕ) (e : ConfigError) (o : Option Text)
      → get name ≡ o
      → secs name o dflt ≡ err e
      → Lacks prefix e
  unfolding secs
  secs-err prefix name dflt e none g h = cc
  secs-err prefix name dflt e (some s) g h =
      let (no_number, q) = integer_or-err name (parse_u64 s) e h in
      subst (Lacks prefix) (sym q) (s, g, no_number)

  -- A setting that was read, and one that was not.
  secs_of-ok : (name : Text) (dflt n : ℕ) → secs_of get name dflt ≡ ok n → IsSetting name dflt n
  unfolding secs_of
  secs_of-ok name dflt n h = secs-ok name dflt n (get name) refl h

  secs_of-err :
      (prefix name : Text) (dflt : ℕ) (e : ConfigError)
      → secs_of get name dflt ≡ err e
      → Lacks prefix e
  unfolding secs_of
  secs_of-err prefix name dflt e h = secs-err prefix name dflt e (get name) refl h

  -- What the five numbers are, or that one of them is none.
  Numbers : Text → (ℕ → ℕ → ℕ → ℕ → ℕ → OpenAiConfig) → Result OpenAiConfig ConfigError → Type 0
  Numbers prefix config (ok cfg) =
      (stall : ℕ) × (backstop : ℕ) × (overall : ℕ) × (floor : ℕ) × (sustained : ℕ) × (cfg
        ≡ config stall backstop overall floor sustained)
      × IsSetting (codes "OPENAI_STALL_SECS") 30 stall
      × IsSetting (codes "OPENAI_FIRST_BYTE_BACKSTOP_SECS") 120 backstop
      × IsSetting (codes "OPENAI_OVERALL_DEADLINE_SECS") 600 overall
      × IsSetting (codes "OPENAI_THROUGHPUT_FLOOR_BPS") 1 floor
      × IsSetting (codes "OPENAI_THROUGHPUT_SUSTAINED_SECS") 20 sustained
  Numbers prefix config (err e) = Lacks prefix e

  with_numbers-Numbers :
      (prefix : Text) (config : ℕ → ℕ → ℕ → ℕ → ℕ → OpenAiConfig)
      → Numbers prefix config (with_numbers get config)
  unfolding with_numbers Numbers
  with_numbers-Numbers prefix config =
      elim (Result-cases (secs_of get (codes "OPENAI_STALL_SECS") 30)) [
        | inr (e, q) ↦ rw q (secs_of-err prefix _ 30 e q)
        | inl (stall, s) ↦
            elim (Result-cases (secs_of get (codes "OPENAI_FIRST_BYTE_BACKSTOP_SECS") 120)) [
              | inr (e, q) ↦ rw (s, q) (secs_of-err prefix _ 120 e q)
              | inl (backstop, b) ↦
                  elim (Result-cases (secs_of get (codes "OPENAI_OVERALL_DEADLINE_SECS") 600)) [
                    | inr (e, q) ↦ rw (s, b, q) (secs_of-err prefix _ 600 e q)
                    | inl (overall, o) ↦
                        elim (Result-cases (secs_of get (codes "OPENAI_THROUGHPUT_FLOOR_BPS") 1)) [
                          | inr (e, q) ↦ rw (s, b, o, q) (secs_of-err prefix _ 1 e q)
                          | inl (floor, f) ↦
                              elim (Result-cases
                                (secs_of get (codes "OPENAI_THROUGHPUT_SUSTAINED_SECS") 20)) [
                                  | inr (e, q) ↦ rw (s, b, o, f, q) (secs_of-err prefix _ 20 e q)
                                  | inl (sustained, u) ↦
                                      rw (s, b, o, f, u)
                                        (
                                          stall,
                                          backstop,
                                          overall,
                                          floor,
                                          sustained,
                                          refl,
                                          secs_of-ok _ 30 stall s,
                                          secs_of-ok _ 120 backstop b,
                                          secs_of-ok _ 600 overall o,
                                          secs_of-ok _ 1 floor f,
                                          secs_of-ok _ 20 sustained u,
                                        )
                                ]
                        ]
                  ]
            ]
      ]

  Reads-of :
      (prefix api_key model : Text) (r : Result OpenAiConfig ConfigError)
      → api_key_of prefix ≡ some api_key
      → get (prefix ++ codes "OPENAI_MODEL") ≡ some model
      → Numbers prefix (configure get prefix api_key model) r
      → Reads prefix r
  unfolding Numbers configure base_url_of
  Reads-of prefix api_key model (err e) k m n = n
  Reads-of prefix api_key model (ok cfg) k m
        (stall, backstop, overall, floor, sustained, c, s, b, o, f, u) =
      record {
        api_key = api_key;
        model = model;
        stall = stall;
        backstop = backstop;
        overall = overall;
        floor = floor;
        sustained = sustained;
        same_key = ap (λ x. x.api_key) c;
        same_model = ap (λ x. x.model) c;
        same_stall = ap (λ x. x.stall_timeout) c;
        same_backstop = ap (λ x. x.first_byte_backstop) c;
        same_overall = ap (λ x. x.overall_deadline) c;
        same_floor = ap (λ x. x.throughput_floor_bps) c;
        same_sustained = ap (λ x. x.throughput_sustained) c;
        same_system = ap (λ x. x.system_prompt) c;
        trimmed = rw c (trim_end_slashes-Trimmed _);
        usage = rw c (is_off-UsageAsked _);
        key_set = k;
        model_set = m;
        stall_set = s;
        backstop_set = b;
        overall_set = o;
        floor_set = f;
        sustained_set = u;
      }

  -- On every branch. A configuration that is read has for its key the one under the prefix or else
  -- without it, for its model the one under the prefix, for each of its five numbers, by name, the
  -- default or the number that is set, seconds in nanoseconds, for its URL the one under the prefix
  -- or the default without the slashes at its end, for its system prompt the one that is set, and asks
  -- for usage unless that is set to 0, false or no. One that is not read lacks the key or the model, or
  -- one of its numbers is set to a text that is none.
  pub from_source_prefixed-Reads : (prefix : Text) → Reads prefix (from_source_prefixed get prefix)
  unfolding from_source_prefixed
  from_source_prefixed-Reads prefix = elim (Option-cases (api_key_of prefix)) [
    | inl k ↦ rw k (inl (refl, k))
    | inr (api_key, k) ↦ elim (Option-cases (get (prefix ++ codes "OPENAI_MODEL"))) [
      | inl m ↦ rw (k, m) (inr (refl, m))
      | inr (model, m) ↦
          rw (k, m)
            (Reads-of prefix api_key model (with_numbers get (configure get prefix api_key model)) k
              m (with_numbers-Numbers prefix (configure get prefix api_key model)))
    ]
  ]

-- A number that is set as it is printed is read as that number, if it fits 64 bits.
secs-decimal : (name : Text) (n dflt : ℕ) → n < 2 ^ 64 → secs name (some (decimal n)) dflt ≡ ok n
unfolding secs
secs-decimal name n dflt h = rw (parse_u64-decimal n h) refl
