-- ===== src/Http/Client.antt =====
-- `http_client_execute` and what it uses, src/infra/http_client.c.
pub mod Attempts
use kaufbot.Prelude.{
  ℕ, zero, suc, ◌+◌, ◌^◌, Bool, true, false, ◌&&◌, ◌||◌, Option, none, some, List, [], ◌∷◌, ◌++◌,
  length, leb, ltb, ◌==◌, if◌then◌else◌, ℤ, pos, pos_part, ltb_ℤ, leb_ℤ, Call, pure, ◌>>=◌, ◌>>◌,
}
use kaufbot.CText.{Text, codes, copy_to}
use kaufbot.Extern.{Doubles}
use kaufbot.Backend.{Bytes}
use kaufbot.Http.Defs.{
  HttpMethod, method_get, method_post, method_put, method_delete, method_head, method_patch,
  HttpHeaders, HttpRequest, HttpResponse, HttpClientConfig, http_status_too_many_requests,
  CurlOption, opt_url, opt_timeout, opt_connect_timeout, opt_follow_location, opt_post_fields,
  opt_post_field_size, opt_custom_request, opt_no_body, opt_http_header, CurlResult, Curl,
}

-- `http_is_retryable`
unfoldable pub http_is_retryable : ℕ → Bool
http_is_retryable code = leb 500 code || code == http_status_too_many_requests

-- `should_retry`
unfoldable pub should_retry : HttpResponse → ℕ → ℤ → Bool
unfolding http_is_retryable
should_retry resp attempt max_retries =
    if leb_ℤ max_retries (pos 0)
    then false
    else if leb_ℤ max_retries (pos attempt)
    then false
    else http_is_retryable resp.status_code

-- `http_headers_new`
abbrev pub http_headers_new : ℕ → HttpHeaders
http_headers_new capacity = record { headers = []; capacity = capacity }

-- `http_headers_add`; all callers ignore its result.
unfoldable pub http_headers_add : HttpHeaders → Text → Text → HttpHeaders
http_headers_add h key value =
    if leb h.capacity (length h.headers)
    then h
    else record h { headers = h.headers ++ (key, value) ∷ [] }

header_texts : List (Text × Text) → List Text
header_texts [] = []
header_texts ((key, value) ∷ rest) = copy_to 512 (key ++ (codes ": " ++ value)) ∷ header_texts rest

some_lines : List Text → List CurlOption
some_lines [] = []
some_lines (l ∷ ls) = opt_http_header (l ∷ ls) ∷ []

-- `build_curl_headers`, and the option that it is set by, if there are headers
unfoldable pub header_options : Option HttpHeaders → List CurlOption
unfolding header_texts some_lines
header_options none = []
header_options (some h) = some_lines (header_texts h.headers)

body_options : Option Bytes → ℕ → List CurlOption
body_options none n = []
body_options (some b) n = opt_post_fields b ∷ (if ltb 0 n then opt_post_field_size n ∷ [] else [])

-- The `switch` of `configure_curl`.
unfoldable pub method_options : HttpRequest → HttpMethod → List CurlOption
unfolding body_options
method_options req method_post = body_options req.body req.body_len
method_options req method_put = body_options req.body req.body_len
method_options req method_patch = body_options req.body req.body_len
method_options req method_delete = opt_custom_request (codes "DELETE") ∷ []
method_options req method_head = opt_no_body ∷ []
method_options req method_get = []

-- The response that one round of the loop fills in.
unfoldable pub response_of : CurlResult → HttpResponse
response_of r = record {
  status_code = r.http_code;
  body = r.received;
  error = if r.ok then [] else copy_to 256 (codes "curl error: " ++ r.error);
  success = r.ok && (leb 200 r.http_code && ltb r.http_code 300);
}

-- `memset(response, 0, sizeof(HttpResponse))`
abbrev pub no_response : HttpResponse
no_response = record { status_code = 0; body = none; error = []; success = false }

module _ {d : Doubles} where
  -- `configure_curl`: the options that it sets on the handle that it has reset.
  unfoldable pub configure_curl : HttpClientConfig d → HttpRequest → List CurlOption
  unfolding method_options header_options
  configure_curl config req =
      opt_url req.url
      ∷ opt_timeout
          (if ltb_ℤ (pos 0) req.timeout_secs then req.timeout_secs else config.default_timeout_secs)
      ∷ opt_connect_timeout (
          if ltb_ℤ (pos 0) req.connect_timeout_secs
          then req.connect_timeout_secs
          else config.default_connect_timeout_secs)
      ∷ opt_follow_location req.follow_redirects
      ∷ (method_options req req.method ++ header_options req.headers)

  module _ {W : Type 0} (curl : Curl d W) where
    -- `exponential_backoff`, in front of every round but the first
    unfoldable pub exponential_backoff : ℕ → d.Double → Call W (Unit {0})
    exponential_backoff zero base = pure tt
    exponential_backoff (suc n) base =
        let delay = d.mul_d base (d.of_size (2 ^ suc n)) in
        let capped = if d.lt_d (d.of_size 10000) delay then d.of_size 10000 else delay in
        curl.usleep (d.to_int64 (d.mul_d capped (d.of_size 1000)))

    -- One round of the loop.
    unfoldable pub attempt_once : HttpClientConfig d → HttpRequest → ℕ → Call W HttpResponse
    unfolding exponential_backoff configure_curl response_of header_options
    attempt_once config req attempt = do
      exponential_backoff attempt config.retry_base_delay_ms
      r ← curl.perform (configure_curl config req ++ header_options req.headers)
      pure (response_of r)

    unfoldable pub retry_or :
        Call W (Option HttpResponse) → Bool → HttpResponse → Call W (Option HttpResponse)
    retry_or again true resp = again
    retry_or again false resp = pure (some resp)

    -- The loop, for at most a number of rounds; `none` is a loop that is still running.
    unfoldable pub execute_loop :
        HttpClientConfig d → HttpRequest → ℕ → ℕ → Call W (Option HttpResponse)
    unfolding attempt_once retry_or
    execute_loop config req zero attempt = pure none
    execute_loop config req (suc rounds) attempt = do
      resp ← attempt_once config req attempt
      retry_or (execute_loop config req rounds (attempt + 1))
          (should_retry resp attempt config.max_retries) resp

    -- What the function returns behind the loop. A loop that is still running has no result: the
    -- first clause stands for none.
    unfoldable pub executed : Option HttpResponse → Bool × HttpResponse
    executed none = (false, no_response)
    executed (some resp) = (resp.success, resp)

    -- `http_client_execute`: `true` is the return of 0.
    unfoldable pub http_client_execute :
        HttpClientConfig d → HttpRequest → Call W (Bool × HttpResponse)
    unfolding execute_loop executed
    http_client_execute config req = do
      done ← execute_loop config req (pos_part config.max_retries + 1) 0
      pure (executed done)
