-- ===== src/Config/Load/Bounds.antt =====
-- What `config_load` (src/config.c) has loaded when it returns 0.
use kaufbot.Prelude.{
  ℕ, ◌≤◌, ◌<◌, ◌≡◌, ◌≢◌, refl, Bool, true, false, Option, none, some, List, length, arith, ℤ,
  Ensures, Ensures_of, if◌then◌else◌,
}
use kaufbot.CText.{Text, codes, text_eq, copy_to, length-copy_to}
use kaufbot.Config.{
  Config, StorageChoice, local, supabase, DbChoice, sqlite, postgres, max_path_len, max_token_len,
  max_model_len, max_url_len, gemini_url_buf_len,
}
use kaufbot.Config.Users.{parse_user_ids}
use kaufbot.Config.Users.Bounds.{IdsFit, IdsFit-parse_user_ids}
use kaufbot.Config.Models.Bounds.{Listed, read_models-Listed, read_models_pos}
use kaufbot.Config.Load.{
  Environment, ◌>>=◌, at_least_one, require_env, env_or_default, load_supabase, load_postgres,
  settings, config_load_storage, config_load_database, config_load,
}

Ensures-bind :
    {A B : Type 0} (P : B → Type 0) (o : Option A) (f : A → Option B)
    → ((a : A) → o ≡ some a → Ensures P (f a))
    → Ensures P (o >>= f)
Ensures-bind P none f h = tt
Ensures-bind P (some a) f h = h a refl

-- A text that fits a buffer of `size` bytes with its NUL.
abbrev pub Fits : ℕ → Text → Type 0
Fits size text = length text < size

Fits-copy_to : (size : ℕ) (text : Text) → 0 < size → Fits size (copy_to size text)
Fits-copy_to size text h = omega (arith, length-copy_to size text)

-- Every text of the choice fits its buffer, and a backend that is not compiled in is not chosen.
abbrev pub StorageFits : Bool → StorageChoice → Type 0
StorageFits have (local path) = Fits max_path_len path
StorageFits have (supabase url anon_key service_key bucket) =
    (have ≡ true)
    × Fits max_url_len url
    × Fits max_token_len anon_key
    × Fits max_token_len service_key
    × Fits max_path_len bucket

abbrev pub DbFits : Bool → DbChoice → Type 0
DbFits have (sqlite path) = Fits max_path_len path
DbFits have (postgres host port name user password ssl_mode) =
    (have ≡ true)
    × Fits max_path_len host
    × Fits 16 port
    × Fits max_path_len name
    × Fits max_path_len user
    × Fits max_token_len password
    × Fits 16 ssl_mode

-- Every text fits its buffer, between 1 and 32 users are allowed, and there are between 1 and 8
-- models, each of which fits.
abbrev pub ConfigFits : Bool → Config → Type 0
ConfigFits have cfg =
    Fits max_token_len cfg.telegram_token
    × Fits max_token_len cfg.gemini_api_key
    × Fits max_model_len cfg.gemini_model
    × Fits max_model_len cfg.gemini_fallback_model
    × Fits max_url_len cfg.telegram_api_base
    × Fits max_url_len cfg.telegram_file_base
    × Fits gemini_url_buf_len cfg.gemini_api_base
    × IdsFit cfg.allowed_users
    × StorageFits have cfg.storage
    × DbFits have cfg.database
    × (1 ≤ length cfg.gemini_models)
    × Listed 8 cfg.gemini_models

module _ (env : Environment) where
  load_supabase_fits : Ensures (StorageFits true) (load_supabase env)
  unfolding load_supabase
  load_supabase_fits = Ensures-bind _ (require_env env (codes "SUPABASE_URL")) _ λ url e.
      Ensures-bind _ (require_env env (codes "SUPABASE_ANON_KEY")) _ λ key e. (
        refl,
        Fits-copy_to _ _ (omega arith),
        Fits-copy_to _ _ (omega arith),
        Fits-copy_to _ _ (omega arith),
        Fits-copy_to _ _ (omega arith),
      )

  load_postgres_fits : Ensures (DbFits true) (load_postgres env)
  unfolding load_postgres
  load_postgres_fits = Ensures-bind _ (require_env env (codes "POSTGRES_HOST")) _ λ host e.
      Ensures-bind _ (require_env env (codes "POSTGRES_DB")) _ λ name e.
        Ensures-bind _ (require_env env (codes "POSTGRES_USER")) _ λ user e.
          Ensures-bind _ (require_env env (codes "POSTGRES_PASSWORD")) _ λ password e. (
            refl,
            Fits-copy_to _ _ (omega arith),
            Fits-copy_to _ _ (omega arith),
            Fits-copy_to _ _ (omega arith),
            Fits-copy_to _ _ (omega arith),
            Fits-copy_to _ _ (omega arith),
            Fits-copy_to _ _ (omega arith),
          )

  chosen :
      {A : Type 0} (P : Bool → A → Type 0) (asked have : Bool) (o : Option A) (default : A)
      → Ensures (P true) o
      → P have default
      → Ensures (P have) (if asked then if have then o else none else some default)
  chosen P true true o default h l = h
  chosen P true false o default h l = tt
  chosen P false have o default h l = l

  config_load_storage_fits :
      (have : Bool) → Ensures (StorageFits have) (config_load_storage env have)
  unfolding config_load_storage
  config_load_storage_fits have =
      chosen StorageFits
        (text_eq (env_or_default env (codes "STORAGE_BACKEND") (codes "local")) (codes "supabase"))
        have _ _ load_supabase_fits (Fits-copy_to _ _ (omega arith))

  config_load_database_fits : (have : Bool) → Ensures (DbFits have) (config_load_database env have)
  unfolding config_load_database
  config_load_database_fits have =
      chosen DbFits
        (text_eq (env_or_default env (codes "DB_BACKEND") (codes "sqlite")) (codes "postgres")) have
        _ _ load_postgres_fits (Fits-copy_to _ _ (omega arith))

  -- A variable that is set, and not to the empty text.
  abbrev pub IsGiven : Text → Type 0
  IsGiven key = require_env env key ≢ none

  IsGiven-some : (key v : Text) → require_env env key ≡ some v → IsGiven key
  IsGiven-some key v e h = cc

  abbrev pub RequiredSet : Type 0
  RequiredSet =
      IsGiven (codes "TELEGRAM_TOKEN")
      × IsGiven (codes "GEMINI_API_KEY")
      × IsGiven (codes "ALLOWED_USER_IDS")

  ConfigFits-settings :
      (have : Bool) (token key : Text) (ids : List ℤ) (storage : StorageChoice)
      (database : DbChoice)
      → IdsFit ids
      → StorageFits have storage
      → DbFits have database
      → ConfigFits have (settings env token key ids storage database)
  unfolding settings
  ConfigFits-settings have token key ids storage database i s b = (
    Fits-copy_to _ _ (omega arith),
    Fits-copy_to _ _ (omega arith),
    Fits-copy_to _ _ (omega arith),
    Fits-copy_to _ _ (omega arith),
    Fits-copy_to _ _ (omega arith),
    Fits-copy_to _ _ (omega arith),
    Fits-copy_to _ _ (omega arith),
    i,
    s,
    b,
    read_models_pos _ _,
    read_models-Listed _ _,
  )

  config_load_fits :
      (have : Bool) → Ensures (λ cfg. RequiredSet × ConfigFits have cfg) (config_load env have)
  unfolding config_load
  config_load_fits have = Ensures-bind _ (require_env env (codes "TELEGRAM_TOKEN")) _ λ token e1.
      Ensures-bind _ (require_env env (codes "GEMINI_API_KEY")) _ λ key e2.
        Ensures-bind _ (require_env env (codes "ALLOWED_USER_IDS")) _ λ raw e3.
          Ensures-bind _ (at_least_one (parse_user_ids raw)) _ λ ids e4.
            Ensures-bind _ (config_load_storage env have) _ λ storage e5.
              Ensures-bind _ (config_load_database env have) _ λ database e6. (
                (IsGiven-some _ _ e1, IsGiven-some _ _ e2, IsGiven-some _ _ e3),
                ConfigFits-settings have token key ids storage database
                    (Ensures_of IdsFit _ ids e4 (IdsFit-parse_user_ids raw))
                    (Ensures_of (StorageFits have) _ storage e5 (config_load_storage_fits have))
                    (Ensures_of (DbFits have) _ database e6 (config_load_database_fits have)),
              )

-- When `config_load` returns 0, the three variables that it requires are set, and what it has
-- loaded fits: every text its buffer, 1 to 32 allowed users, 1 to 8 models that each fit, and no
-- backend that is not compiled in.
pub config_load-ConfigFits :
    (env : Environment) (have : Bool) (cfg : Config)
    → config_load env have ≡ some cfg
    → RequiredSet env × ConfigFits have cfg
config_load-ConfigFits env have cfg e =
    Ensures_of _ (config_load env have) cfg e (config_load_fits env have)
