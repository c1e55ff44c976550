-- ===== src/Config.antt =====
-- src/config.c and src/config.h: the settings, read from the environment.
pub mod Users
pub mod Models
pub mod Load
use kaufbot.Prelude.{
  ℕ, ◌+◌, ◌<◌, Bool, true, false, Option, none, some, List, [], ◌∷◌, ℤ, eq_ℤ, ◌||◌,
}
use kaufbot.CText.{Text}

-- The array sizes of config.h.
abbrev pub max_allowed_users : ℕ
max_allowed_users = 32

abbrev pub max_path_len : ℕ
max_path_len = 512

abbrev pub max_token_len : ℕ
max_token_len = 256

abbrev pub max_model_len : ℕ
max_model_len = 128

abbrev pub max_url_len : ℕ
max_url_len = 1024

abbrev pub gemini_url_buf_len : ℕ
gemini_url_buf_len = 1024

abbrev pub gemini_max_model_len : ℕ
gemini_max_model_len = 128

abbrev pub max_gemini_models : ℕ
max_gemini_models = 8

abbrev pub gemini_models_buf : ℕ
gemini_models_buf = 512

-- The settings of the chosen backend: `StorageBackendType` and `DBBackendType`, each with the
-- fields that are set for it.
pub data StorageChoice : Type 0 where
  local : (path : Text) → StorageChoice
  supabase : (url anon_key service_key bucket : Text) → StorageChoice

pub data DbChoice : Type 0 where
  sqlite : (path : Text) → DbChoice
  postgres : (host port name user password ssl_mode : Text) → DbChoice

-- `Config`; the entries of `allowed_users` and `gemini_models` that are counted.
pub record Config : Type 0 where
  pub telegram_token : Text
  pub gemini_api_key : Text
  pub gemini_model : Text
  pub gemini_fallback_model : Text
  pub gemini_fallback_enabled : Bool
  pub storage : StorageChoice
  pub database : DbChoice
  pub allowed_users : List ℤ
  pub telegram_api_base : Text
  pub telegram_file_base : Text
  pub telegram_poll_timeout_secs : ℤ
  pub telegram_http_timeout_secs : ℤ
  pub telegram_download_timeout_secs : ℤ
  pub telegram_reconnect_delay_secs : ℤ
  pub telegram_retry_delay_secs : ℤ
  pub max_file_size_bytes : ℕ
  pub gemini_api_base : Text
  pub gemini_http_timeout_secs : ℤ
  pub gemini_connect_timeout_secs : ℤ
  pub gemini_models : List Text

-- The loop of `config_is_allowed`.
unfoldable pub contains_user : List ℤ → ℤ → Bool
contains_user [] user_id = false
contains_user (u ∷ us) user_id = eq_ℤ u user_id || contains_user us user_id

-- `config_is_allowed`
unfoldable pub is_allowed : Config → ℤ → Bool
is_allowed cfg user_id = contains_user cfg.allowed_users user_id
