-- ===== src/Config/Complete.antt =====
-- ibctl/src/config.rs: what a configuration that loads is.
use ibctl.Base.{
  ◌≡◌, ◌≢◌, refl, ◌⊎◌, inl, inr, Option, none, some, [], arith, is_some, Bool-cases, subst, sym,
  true, false, if◌then◌else◌,
}
use ibctl.Base.Text.{Text, codes}
use ibctl.Base.Words.{Casing}
use ibctl.Config.{Environment}
use ibctl.Config.Data.{Config, both}
use ibctl.Config.Defaults.{built_in}
use ibctl.Config.Load.{
  Files, Loaded, valid, invalid, ConfigError, missing, unreadable, unparsed, validate, path_or,
  judged, overridden, parsed, contents, load_config,
}
use ibctl.Config.Overrides.{apply_env_overrides}

-- The credentials that a configuration needs.
pub record IsComplete (c : Config) : Type 0 where
  pub username : c.auth.username ≢ []
  pub password : c.auth.password ≢ []
  pub paper_username : c.auth.trading_mode ≡ both → c.auth.paper_auth.username ≢ []
  pub paper_password : c.auth.trading_mode ≡ both → c.auth.paper_auth.password ≢ []

-- The credential of this name is needed and empty.
abbrev pub Lacks : Config → Text → Type 0
Lacks c name =
    ((name ≡ codes "tws_userid") × (c.auth.username ≡ []))
    ⊎ ((name ≡ codes "TWS_PASSWORD") × (c.auth.password ≡ []))
    ⊎ ((name ≡ codes "paper tws_userid")
        × (c.auth.trading_mode ≡ both)
        × (c.auth.paper_auth.username ≡ []))
    ⊎ ((name ≡ codes "TWS_PASSWORD_PAPER")
        × (c.auth.trading_mode ≡ both)
        × (c.auth.paper_auth.password ≡ []))

validate-IsComplete : (c : Config) → validate c ≡ none → IsComplete c
unfolding validate
validate-IsComplete c h = record {
  username = λ e. ground arith;
  password = λ e. ground arith;
  paper_username = λ b e. ground arith;
  paper_password = λ b e. ground arith;
}

module _ (files : Files) (env : Environment) (path : Option Text) where
  -- The path that is given, that the environment names, or the default one.
  abbrev named : Text
  named = path_or path (env (codes "IBCTL_CONFIG"))

  -- The file at that path has this text.
  abbrev Reads : Text → Type 0
  Reads text = (files.exists named ≡ true) × (files.read_to_string named ≡ some text)

  -- What the environment overrides: what the text of the file at the path is parsed to, or the
  -- defaults, if there is no such file and no path is given.
  abbrev pub IsBase : Config → Type 0
  IsBase base =
      ((text : Text) × Reads text × (files.from_str text ≡ some base))
      ⊎ ((files.exists named ≡ false) × (path ≡ none) × (base ≡ built_in))

  abbrev pub IsUnreadable : Type 0
  IsUnreadable =
      ((files.exists named ≡ true) × (files.read_to_string named ≡ none))
      ⊎ ((files.exists named ≡ false) × (is_some path ≡ true))

  abbrev pub IsUnparsed : Type 0
  IsUnparsed = (text : Text) × Reads text × (files.from_str text ≡ none)

module _ (casing : Casing) (files : Files) (env : Environment) (path : Option Text) where
  abbrev pub with_env : Config → Config
  with_env base = apply_env_overrides casing files.read_to_string env base

  -- What the result of a load says of the configuration.
  abbrev pub Outcome : Loaded → Type 0
  Outcome (valid c) =
      IsComplete c × ((base : Config) × (c ≡ with_env base) × IsBase files env path base)
  Outcome (invalid (missing name)) =
      (base : Config) × Lacks (with_env base) name × IsBase files env path base
  Outcome (invalid unreadable) = IsUnreadable files env path
  Outcome (invalid unparsed) = IsUnparsed files env path

  -- The validation only finds credentials that are missing.
  validate-Lacks :
      (c : Config) (e : ConfigError)
      → validate c ≡ some e
      → (name : Text) × (e ≡ missing name) × Lacks c name
  unfolding validate
  validate-Lacks c e h = ground arith

  judged-Outcome :
      (base : Config) (result : Option ConfigError)
      → IsBase files env path base
      → validate (with_env base) ≡ result
      → Outcome (judged (with_env base) result)
  judged-Outcome base none b e = (validate-IsComplete (with_env base) e, (base, refl, b))
  judged-Outcome base (some error) b e =
      let (name, same, lacks) = validate-Lacks (with_env base) error e in
      subst (λ x. Outcome (invalid x)) (sym same) (base, lacks, b)

  overridden-Outcome :
      (base : Config) → IsBase files env path base → Outcome (overridden casing files env base)
  overridden-Outcome base b = judged-Outcome base (validate (with_env base)) b refl

  parsed-Outcome :
      (text : Text) (c : Option Config)
      → Reads files env path text
      → files.from_str text ≡ c
      → Outcome (parsed casing files env c)
  parsed-Outcome text none r e = (text, r, e)
  parsed-Outcome text (some c) r e = overridden-Outcome c (inl (text, r, e))

  contents-Outcome :
      (text : Option Text)
      → files.exists (named files env path) ≡ true
      → files.read_to_string (named files env path) ≡ text
      → Outcome (contents casing files env text)
  contents-Outcome none e r = inl (e, r)
  contents-Outcome (some text) e r = parsed-Outcome text (files.from_str text) (e, r) refl

  no_path : (o : Option Text) → is_some o ≡ false → o ≡ none
  no_path none e = refl
  no_path (some p) e = ground (arith, e)

  absent-Outcome :
      files.exists (named files env path) ≡ false
      → Outcome (if is_some path then invalid unreadable else overridden casing files env built_in)
  absent-Outcome e = elim (Bool-cases (is_some path)) [
    | inl given ↦ rw given (inr (e, given))
    | inr default ↦ rw default (overridden-Outcome built_in (inr (e, no_path path default, refl)))
  ]

  -- A configuration that loads has the credentials that its mode needs, and is what the file at the
  -- configuration's path says, or the defaults if that file does not exist and no path was given,
  -- with the environment's overrides. One is refused for a missing credential only if that same
  -- configuration needs the credential of the name that is reported, which is empty, as unreadable only if its file cannot be read or does not exist at
  -- a path that was given, and as not parsed only if the toml library does not parse what was read.
  pub load-Outcome : Outcome (load_config casing files env path)
  unfolding load_config
  load-Outcome = elim (Bool-cases (files.exists (named files env path))) [
    | inl e ↦ rw e (contents-Outcome (files.read_to_string (named files env path)) e refl)
    | inr e ↦ rw e (absent-Outcome e)
  ]
