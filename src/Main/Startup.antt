-- ===== src/Main/Startup.antt =====
-- What was read before the first prompt, and why there is none.
use beta_boot_git_ops.Config.{OpenAiConfig, ConfigError, from_source}
use beta_boot_git_ops.Config.Sources.{Settings, Lacks, Reads, from_source_prefixed-Reads}
use beta_boot_git_ops.EnvFile.{EnvSource, get}
use beta_boot_git_ops.Main.{
  Environment, StartError, bad_env_file, bad_config, not_a_number, no_capture, panics_at_capacity,
  Started, parse_u32, number_of, present, number_or, or_refuse, capture_of, failover_of, open_bus,
  start_with,
}
use beta_boot_git_ops.Text.{codes}
use beta_boot_git_ops.Text.Numbers.{parse_u64}
use beta_boot_git_ops.Base.{
  ℕ, ◌≡◌, refl, sym, subst, ◌⊎◌, inl, inr, Bool, true, false, Option, none, some, [], Result, ok,
  err, bind-elim, Text,
}

module _ (look : Text → Option Text) where
  -- A number: the default where it is not set, and else what its text reads as.
  abbrev pub IsNumber : (Text → Option ℕ) → Text → ℕ → ℕ → Type 0
  IsNumber parse name dflt n =
      ((look name ≡ none) × (n ≡ dflt)) ⊎ ((s : Text) × (look name ≡ some s) × (parse s ≡ some n))

  -- The text set under this name is no number.
  abbrev pub NoNumber : (Text → Option ℕ) → Text → Text → Type 0
  NoNumber parse name s = (look name ≡ some s) × (parse s ≡ none)

  -- The other endpoint is configured just where its address is set.
  abbrev pub Other : Option OpenAiConfig → Type 0
  Other none = look (codes "FAILOVER_OPENAI_BASE_URL") ≡ none
  Other (some cfg) =
      ((url : Text) × (look (codes "FAILOVER_OPENAI_BASE_URL") ≡ some url))
      × Settings look (codes "FAILOVER_") cfg

  abbrev pub Captured : (Text → Result Text Text) → Option Text → Type 0
  Captured create none = look (codes "OPENAI_CAPTURE_DIR") ≡ none
  Captured create (some path) =
      (dir : Text) × (look (codes "OPENAI_CAPTURE_DIR") ≡ some dir) × (create dir ≡ ok path)

  -- Why nothing starts.
  abbrev pub Hinders : Environment → StartError → Type 0
  Hinders w (bad_env_file e) = ⊥
  Hinders w (bad_config e) =
      Lacks look [] e
      ⊎ (((url : Text) × (look (codes "FAILOVER_OPENAI_BASE_URL") ≡ some url))
          × Lacks look (codes "FAILOVER_") e)
  Hinders w (not_a_number s) =
      NoNumber parse_u32 (codes "OPENAI_RETRY_ALLOWANCE") s
      ⊎ (NoNumber parse_u32 (codes "OPENAI_SEND_BUCKETS") s
          ⊎ NoNumber parse_u64 (codes "OPENAI_BUS_CAPACITY") s)
  Hinders w (no_capture detail) =
      (dir : Text) × (look (codes "OPENAI_CAPTURE_DIR") ≡ some dir)
      × (w.create_capture dir ≡ err detail)
  Hinders w (panics_at_capacity n) =
      (w.channel_panics n ≡ true) × IsNumber parse_u64 (codes "OPENAI_BUS_CAPACITY") 4096 n

  pub record Configured (w : Environment) (source : EnvSource) (s : Started) : Type 0 where
    pub same_source : s.source ≡ source
    pub primary : Settings look [] s.primary
    pub failover : Other s.failover
    pub retry_allowance : IsNumber parse_u32 (codes "OPENAI_RETRY_ALLOWANCE") 1 s.retry_allowance
    pub send_buckets : IsNumber parse_u32 (codes "OPENAI_SEND_BUCKETS") 1 s.send_buckets
    pub bus_capacity : IsNumber parse_u64 (codes "OPENAI_BUS_CAPACITY") 4096 s.bus_capacity
    pub capture : Captured w.create_capture s.capture
    pub channel : w.channel_panics s.bus_capacity ≡ false

  abbrev pub Starts : Environment → EnvSource → Result Started StartError → Type 0
  Starts w source (ok s) = Configured w source s
  Starts w source (err e) = Hinders w e

  -- What a step reads, and why it cannot.
  abbrev First : Result OpenAiConfig StartError → Type 0
  First (ok cfg) = Settings look [] cfg
  First (err e) = (c : ConfigError) × (e ≡ bad_config c) × Lacks look [] c

  abbrev Numbered : (Text → Option ℕ) → Text → ℕ → Result ℕ StartError → Type 0
  Numbered parse name dflt (ok n) = IsNumber parse name dflt n
  Numbered parse name dflt (err e) = (s : Text) × (e ≡ not_a_number s) × NoNumber parse name s

  abbrev Others : Result (Option OpenAiConfig) StartError → Type 0
  Others (ok o) = Other o
  Others (err e) =
      (c : ConfigError) × (e ≡ bad_config c)
      × ((url : Text) × (look (codes "FAILOVER_OPENAI_BASE_URL") ≡ some url))
      × Lacks look (codes "FAILOVER_") c

  abbrev Captures : (Text → Result Text Text) → Result (Option Text) StartError → Type 0
  Captures create (ok o) = Captured create o
  Captures create (err e) =
      (detail : Text) × (e ≡ no_capture detail)
      × ((dir : Text) × (look (codes "OPENAI_CAPTURE_DIR") ≡ some dir) × (create dir ≡ err detail))

  number_of-Numbered :
      (parse : Text → Option ℕ) (name s : Text) (dflt : ℕ) (o : Option ℕ)
      → look name ≡ some s
      → parse s ≡ o
      → Numbered parse name dflt (number_of s o)
  number_of-Numbered parse name s dflt none g q = (s, refl, (g, q))
  number_of-Numbered parse name s dflt (some n) g q = inr (s, g, q)

  number_or-Numbered :
      (parse : Text → Option ℕ) (name : Text) (dflt : ℕ) (o : Option Text)
      → look name ≡ o
      → Numbered parse name dflt (number_or parse o dflt)
  unfolding number_or
  number_or-Numbered parse name dflt none g = inl (g, refl)
  number_or-Numbered parse name dflt (some s) g =
      number_of-Numbered parse name s dflt (parse s) g refl

  or_refuse-First :
      (r : Result OpenAiConfig ConfigError) → Reads look [] r → First (or_refuse bad_config r)
  or_refuse-First (ok cfg) reads = reads
  or_refuse-First (err e) lacks = (e, refl, lacks)

  present-Others :
      (url : Text) (r : Result OpenAiConfig ConfigError)
      → look (codes "FAILOVER_OPENAI_BASE_URL") ≡ some url
      → Reads look (codes "FAILOVER_") r
      → Others (present (or_refuse bad_config r))
  present-Others url (ok cfg) g reads = ((url, g), reads)
  present-Others url (err e) g lacks = (e, refl, (url, g), lacks)

  failover_of-Others :
      (o : Option Text) → look (codes "FAILOVER_OPENAI_BASE_URL") ≡ o → Others (failover_of look o)
  unfolding failover_of
  failover_of-Others none g = g
  failover_of-Others (some url) g =
      present-Others url _ g (from_source_prefixed-Reads look (codes "FAILOVER_"))

  present-Captures :
      (create : Text → Result Text Text) (dir : Text) (r : Result Text Text)
      → look (codes "OPENAI_CAPTURE_DIR") ≡ some dir
      → create dir ≡ r
      → Captures create (present (or_refuse no_capture r))
  present-Captures create dir (ok path) g q = (dir, g, q)
  present-Captures create dir (err detail) g q = (detail, refl, (dir, g, q))

  capture_of-Captures :
      (create : Text → Result Text Text) (o : Option Text)
      → look (codes "OPENAI_CAPTURE_DIR") ≡ o
      → Captures create (capture_of create o)
  unfolding capture_of
  capture_of-Captures create none g = g
  capture_of-Captures create (some dir) g = present-Captures create dir (create dir) g refl

  open_bus-Starts :
      (w : Environment) (source : EnvSource) (s : Started) (b : Bool)
      → w.channel_panics s.bus_capacity ≡ b
      → (w.channel_panics s.bus_capacity ≡ false → Configured w source s)
      → IsNumber parse_u64 (codes "OPENAI_BUS_CAPACITY") 4096 s.bus_capacity
      → Starts w source (open_bus b s)
  unfolding open_bus
  open_bus-Starts w source s true q c n = (q, n)
  open_bus-Starts w source s false q c n = c q

module _ (w : Environment) (source : EnvSource) where
  -- On every branch. What starts has the configuration of the primary endpoint, that of the other
  -- just where its address is set, the numbers set or their defaults, and the file of the capture
  -- just where a directory is set. What does not start has a configuration that lacks something, a
  -- number that is none, a capture that cannot be opened, or a bus of a capacity that tokio panics
  -- at.
  pub start_with-Starts : Starts (get w.env source) w source (start_with w source)
  unfolding start_with from_source
  start_with-Starts =
      let look : Text → Option Text = get w.env source in
      let Q : Result Started StartError → Type 0 = Starts look w source in
      let retry : Text = codes "OPENAI_RETRY_ALLOWANCE" in
      let buckets : Text = codes "OPENAI_SEND_BUCKETS" in
      let bus : Text = codes "OPENAI_BUS_CAPACITY" in
      bind-elim Q (First look) (or_refuse bad_config (from_source look)) _
        (or_refuse-First look (from_source look) (from_source_prefixed-Reads look []))
        (λ e q. subst (Hinders look w) (sym q.1) (inl q.2))
        (λ primary p.
          bind-elim Q (Others look) (failover_of look (look (codes "FAILOVER_OPENAI_BASE_URL"))) _
            (failover_of-Others look (look (codes "FAILOVER_OPENAI_BASE_URL")) refl)
            (λ e q. subst (Hinders look w) (sym q.1) (inr (q.2, q.3)))
            (λ failover f.
              bind-elim Q (Numbered look parse_u32 retry 1) (number_or parse_u32 (look retry) 1) _
                (number_or-Numbered look parse_u32 retry 1 (look retry) refl)
                (λ e q. subst (Hinders look w) (sym q.1) (inl q.2))
                (λ retry_allowance r.
                  bind-elim Q (Numbered look parse_u32 buckets 1)
                    (number_or parse_u32 (look buckets) 1) _
                    (number_or-Numbered look parse_u32 buckets 1 (look buckets) refl)
                    (λ e q. subst (Hinders look w) (sym q.1) (inr (inl q.2)))
                    (λ send_buckets b.
                      bind-elim Q (Numbered look parse_u64 bus 4096)
                        (number_or parse_u64 (look bus) 4096) _
                        (number_or-Numbered look parse_u64 bus 4096 (look bus) refl)
                        (λ e q. subst (Hinders look w) (sym q.1) (inr (inr q.2)))
                        (λ bus_capacity c.
                          bind-elim Q (Captures look w.create_capture)
                            (capture_of w.create_capture (look (codes "OPENAI_CAPTURE_DIR"))) _
                            (capture_of-Captures look w.create_capture
                              (look (codes "OPENAI_CAPTURE_DIR")) refl)
                            (λ e q. subst (Hinders look w) (sym q.1) q.2)
                            (λ capture k.
                              open_bus-Starts look w source _ _ refl
                                (λ channel. record {
                                  same_source = refl;
                                  primary = p;
                                  failover = f;
                                  retry_allowance = r;
                                  send_buckets = b;
                                  bus_capacity = c;
                                  capture = k;
                                  channel = channel;
                                })
                                c))))))
