-- ===== src/Http/Defs.antt =====
-- The types of src/infra/http_client.h, and libcurl as far as src/infra/http_client.c calls it.
use kaufbot.Prelude.{ℕ, Bool, Option, List, ℤ, Call}
use kaufbot.CText.{Text}
use kaufbot.Extern.{Doubles}
use kaufbot.Backend.{Bytes}

pub data HttpMethod : Type 0 where
  method_get method_post method_put method_delete method_head method_patch : HttpMethod

-- `HttpHeaders`: the headers in use, and how many there may be.
pub record HttpHeaders : Type 0 where
  pub headers : List (Text × Text)
  pub capacity : ℕ

-- `HttpRequest`, without the data of hooks.
pub record HttpRequest : Type 0 where
  pub method : HttpMethod
  pub url : Text
  pub body : Option Bytes
  pub body_len : ℕ
  pub headers : Option HttpHeaders
  pub timeout_secs : ℤ
  pub connect_timeout_secs : ℤ
  pub follow_redirects : Bool

-- `HttpResponse`, without the times, which are only logged. The length of the body is its own, and
-- a body that is NULL has none.
pub record HttpResponse : Type 0 where
  pub status_code : ℕ
  pub body : Option Bytes
  pub error : Text
  pub success : Bool

-- `HttpClientConfig`, without hooks and logging.
pub record HttpClientConfig (d : Doubles) : Type 0 where
  pub default_timeout_secs : ℤ
  pub default_connect_timeout_secs : ℤ
  pub max_retries : ℤ
  pub retry_base_delay_ms : d.Double
  pub follow_redirects : Bool

abbrev pub http_status_not_found : ℕ
http_status_not_found = 404

abbrev pub http_status_too_many_requests : ℕ
http_status_too_many_requests = 429

-- What `curl_easy_setopt` sets.
pub data CurlOption : Type 0 where
  opt_url : Text → CurlOption
  opt_timeout opt_connect_timeout : ℤ → CurlOption
  opt_follow_location : Bool → CurlOption
  opt_post_fields : Bytes → CurlOption
  opt_post_field_size : ℕ → CurlOption
  opt_custom_request : Text → CurlOption
  opt_no_body : CurlOption
  opt_http_header : List Text → CurlOption

-- The result of `curl_easy_perform`: whether it is `CURLE_OK` or else its text, the response code (0
-- without a response), and what the write callback gathered, if it was called.
pub record CurlResult : Type 0 where
  pub ok : Bool
  pub error : Text
  pub http_code : ℕ
  pub received : Option Bytes

-- libcurl, and `usleep`. `init` is whether a handle could be made.
pub record Curl (d : Doubles) (W : Type 0) : Type 0 where
  pub init : Call W Bool
  pub perform : List CurlOption → Call W CurlResult
  pub usleep : ℤ → Call W (Unit {0})
