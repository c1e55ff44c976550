-- ===== src/Config/Load.antt =====
-- `config_load` and what it uses, src/config.c.
pub mod Bounds
use kaufbot.Prelude.{
  ℕ, suc, ◌-◌, ◌*◌, ◌^◌, ◌%◌, Bool, true, false, ◌||◌, Option, none, some, List, [], ◌∷◌, ◌++◌, ℤ,
  pos, negsuc, if◌then◌else◌,
}
use kaufbot.CText.{Text, codes, copy_to, text_eq, has_prefix}
use kaufbot.CText.Decimal.{leading_number}
use kaufbot.Config.{
  Config, StorageChoice, local, supabase, DbChoice, sqlite, postgres, max_path_len, max_token_len,
  max_model_len, max_url_len, gemini_url_buf_len,
}
use kaufbot.Config.Users.{parse_user_ids}
use kaufbot.Config.Models.{read_models}

-- `getenv`
abbrev pub Environment : Type 0
Environment = Text → Option Text

-- The steps of a function that returns -1 where one of them fails.
infixl 5 ◌>>=◌
abbrev pub ◌>>=◌ : {A B : Type 0} → Option A → (A → Option B) → Option B
none >>= f = none
some a >>= f = f a

abbrev pub unless_empty : Option Text → Option Text
unless_empty none = none
unless_empty (some []) = none
unless_empty (some (c ∷ cs)) = some (c ∷ cs)

abbrev pub or_else : Option Text → Text → Text
or_else none default = default
or_else (some v) default = v

-- The ids, of which there must be one.
unfoldable pub at_least_one : Option (List ℤ) → Option (List ℤ)
at_least_one none = none
at_least_one (some []) = none
at_least_one (some (id ∷ ids)) = some (id ∷ ids)

-- `(size_t)(megabytes * 1024 * 1024)`
unfoldable pub bytes_of_megabytes : ℤ → ℕ
bytes_of_megabytes (pos n) = n * 1048576 % 2 ^ 64
bytes_of_megabytes (negsuc n) = (2 ^ 64 - suc n * 1048576 % 2 ^ 64) % 2 ^ 64

module _ (env : Environment) where
  -- `require_env`
  unfoldable pub require_env : Text → Option Text
  require_env key = unless_empty (env key)

  -- `env_or_default`
  unfoldable pub env_or_default : Text → Text → Text
  env_or_default key default = or_else (unless_empty (env key)) default

  with_scheme : Text → Text
  with_scheme url =
      if has_prefix url (codes "http://") || has_prefix url (codes "https://")
      then url
      else codes "https://" ++ url

  load_supabase : Option StorageChoice
  unfolding require_env env_or_default with_scheme
  load_supabase = do
    url ← require_env (codes "SUPABASE_URL")
    key ← require_env (codes "SUPABASE_ANON_KEY")
    some (
        supabase (copy_to max_url_len (with_scheme url)) (copy_to max_token_len key)
          (copy_to max_token_len (env_or_default (codes "SUPABASE_SERVICE_KEY") key))
          (copy_to max_path_len (env_or_default (codes "SUPABASE_BUCKET") (codes "receipts"))))

  load_postgres : Option DbChoice
  unfolding require_env env_or_default
  load_postgres = do
    host ← require_env (codes "POSTGRES_HOST")
    name ← require_env (codes "POSTGRES_DB")
    user ← require_env (codes "POSTGRES_USER")
    password ← require_env (codes "POSTGRES_PASSWORD")
    some (
        postgres (copy_to max_path_len host)
          (copy_to 16 (env_or_default (codes "POSTGRES_PORT") (codes "5432")))
          (copy_to max_path_len name) (copy_to max_path_len user) (copy_to max_token_len password)
          (copy_to 16 (env_or_default (codes "POSTGRES_SSL_MODE") (codes "require"))))

  -- `strtol(env_or_default(key, def), NULL, 10)`
  number_setting : Text → Text → ℤ
  unfolding env_or_default
  number_setting key default = leading_number (env_or_default key default)

  -- The settings, from the values that may fail to be read on.
  settings : Text → Text → List ℤ → StorageChoice → DbChoice → Config
  unfolding env_or_default number_setting
  settings token gemini_key ids storage database =
      let model =
        copy_to max_model_len (env_or_default (codes "GEMINI_MODEL") (codes "gemini-2.5-flash")) in
      let enabled = env_or_default (codes "GEMINI_FALLBACK_ENABLED") (codes "0") in
      record {
        telegram_token = copy_to max_token_len token;
        gemini_api_key = copy_to max_token_len gemini_key;
        gemini_model = model;
        gemini_fallback_model =
            copy_to max_model_len
              (env_or_default (codes "GEMINI_FALLBACK_MODEL") (codes "gemma-3-27b-it"));
        gemini_fallback_enabled = text_eq enabled (codes "1") || text_eq enabled (codes "true");
        storage = storage;
        database = database;
        allowed_users = ids;
        telegram_api_base =
            copy_to max_url_len
              (env_or_default (codes "TELEGRAM_API_BASE") (codes "https://api.telegram.org/bot"));
        telegram_file_base = copy_to max_url_len (
            env_or_default (codes "TELEGRAM_FILE_BASE")
              (codes "https://api.telegram.org/file/bot"));
        telegram_poll_timeout_secs = number_setting (codes "TELEGRAM_POLL_TIMEOUT") (codes "30");
        telegram_http_timeout_secs = number_setting (codes "TELEGRAM_HTTP_TIMEOUT") (codes "60");
        telegram_download_timeout_secs =
            number_setting (codes "TELEGRAM_DOWNLOAD_TIMEOUT") (codes "120");
        telegram_reconnect_delay_secs =
            number_setting (codes "TELEGRAM_RECONNECT_DELAY") (codes "5");
        telegram_retry_delay_secs = number_setting (codes "TELEGRAM_RETRY_DELAY") (codes "2");
        max_file_size_bytes =
            bytes_of_megabytes (number_setting (codes "MAX_FILE_MB") (codes "20"));
        gemini_api_base = copy_to gemini_url_buf_len (
            env_or_default (codes "GEMINI_API_BASE")
              (codes "https://generativelanguage.googleapis.com/v1beta/models"));
        gemini_http_timeout_secs = number_setting (codes "GEMINI_HTTP_TIMEOUT") (codes "600");
        gemini_connect_timeout_secs = number_setting (codes "GEMINI_CONNECT_TIMEOUT") (codes "15");
        gemini_models =
            read_models
              (env_or_default (codes "GEMINI_MODELS")
                (codes "gemma-3-12b-it,gemma-3-27b-it,gemini-2.0-flash,gemini-2.5-flash"))
              model;
      }

  -- `have_postgres` is the macro `HAVE_POSTGRES`, which also stands for Supabase.
  module _ (have_postgres : Bool) where
    -- `config_load_storage`
    unfoldable pub config_load_storage : Option StorageChoice
    unfolding env_or_default load_supabase
    config_load_storage =
        if text_eq (env_or_default (codes "STORAGE_BACKEND") (codes "local")) (codes "supabase")
        then if have_postgres then load_supabase else none
        else some (
            local
              (copy_to max_path_len (env_or_default (codes "STORAGE_PATH") (codes "/data/files"))))

    -- `config_load_database`
    unfoldable pub config_load_database : Option DbChoice
    unfolding env_or_default load_postgres
    config_load_database =
        if text_eq (env_or_default (codes "DB_BACKEND") (codes "sqlite")) (codes "postgres")
        then if have_postgres then load_postgres else none
        else some (
            sqlite (copy_to max_path_len (env_or_default (codes "DB_PATH") (codes "/data/bot.db"))))

    -- `config_load`; `none` is the return of -1.
    unfoldable pub config_load : Option Config
    unfolding require_env at_least_one config_load_storage config_load_database settings
    config_load = do
      token ← require_env (codes "TELEGRAM_TOKEN")
      gemini_key ← require_env (codes "GEMINI_API_KEY")
      users_raw ← require_env (codes "ALLOWED_USER_IDS")
      ids ← at_least_one (parse_user_ids users_raw)
      storage ← config_load_storage
      database ← config_load_database
      some (settings token gemini_key ids storage database)
