-- ===== src/Http/Calls.antt =====
-- `http_client_new` and the calls for each method, src/infra/http_client.c.
use kaufbot.Prelude.{Bool, true, false, Option, none, some, length, ℤ, pos, Call, pure, ◌>>=◌}
use kaufbot.CText.{Text, codes}
use kaufbot.Extern.{Doubles}
use kaufbot.Backend.{Bytes}
use kaufbot.Http.Defs.{
  HttpMethod, method_get, method_post, method_put, method_delete, method_head, HttpHeaders,
  HttpRequest, HttpResponse, HttpClientConfig, Curl,
}
use kaufbot.Http.Client.{http_headers_new, http_headers_add, http_client_execute}

-- A request with the fields that most calls leave at 0.
plain_request : HttpMethod → Text → Option HttpHeaders → ℤ → HttpRequest
plain_request method url headers timeout_secs = record {
  method = method;
  url = url;
  body = none;
  body_len = 0;
  headers = headers;
  timeout_secs = timeout_secs;
  connect_timeout_secs = pos 0;
  follow_redirects = false;
}

content_type_header : Option Text → Option HttpHeaders
content_type_header none = none
content_type_header (some t) = some (http_headers_add (http_headers_new 1) (codes "Content-Type") t)

module _ {d : Doubles} where
  -- The configuration of `http_client_new`.
  abbrev pub default_config : HttpClientConfig d
  default_config = record {
    default_timeout_secs = pos 60;
    default_connect_timeout_secs = pos 10;
    max_retries = pos 0;
    retry_base_delay_ms = d.of_size 100;
    follow_redirects = false;
  }

  module _ {W : Type 0} (curl : Curl d W) where
    -- `http_client_new`
    unfoldable pub http_client_new : Call W (Option (HttpClientConfig d))
    http_client_new = do
      made ← curl.init
      pure (elim made [ true ↦ some default_config | false ↦ none ])

    module _ (config : HttpClientConfig d) where
      -- `http_client_get_with_headers`, and `http_client_get` without headers
      unfoldable pub http_client_get_with_headers :
          Text → Option HttpHeaders → ℤ → Call W (Bool × HttpResponse)
      unfolding plain_request
      http_client_get_with_headers url headers timeout_secs =
          http_client_execute curl config
            (record (plain_request method_get url headers timeout_secs) {
              follow_redirects = config.follow_redirects;
            })

      unfoldable pub http_client_get : Text → ℤ → Call W (Bool × HttpResponse)
      unfolding http_client_get_with_headers
      http_client_get url timeout_secs = http_client_get_with_headers url none timeout_secs

      -- `http_client_post`
      unfoldable pub http_client_post : Text → Text → Option Text → Call W (Bool × HttpResponse)
      unfolding plain_request content_type_header
      http_client_post url body content_type =
          http_client_execute curl config
            (record (plain_request method_post url (content_type_header content_type) (pos 0)) {
              body = some body;
              body_len = length body;
            })

      -- `http_client_post_json`
      unfoldable pub http_client_post_json : Text → Text → Call W (Bool × HttpResponse)
      unfolding http_client_post
      http_client_post_json url json_body =
          http_client_post url json_body (some (codes "application/json"))

      -- `http_client_put` and `http_client_upload`
      sent_with : HttpMethod → Text → Option HttpHeaders → Bytes → Call W (Bool × HttpResponse)
      unfolding plain_request
      sent_with method url headers b =
          http_client_execute curl config (record (plain_request method url headers (pos 0)) {
            body = some b;
            body_len = length b;
          })

      unfoldable pub http_client_put :
          Text → Option HttpHeaders → Bytes → Call W (Bool × HttpResponse)
      unfolding sent_with
      http_client_put url headers b = sent_with method_put url headers b

      unfoldable pub http_client_upload :
          Text → Option HttpHeaders → Bytes → Call W (Bool × HttpResponse)
      unfolding sent_with
      http_client_upload url headers b = sent_with method_post url headers b

      -- `http_client_delete_with_headers`, and `http_client_delete` without headers
      unfoldable pub http_client_delete_with_headers :
          Text → Option HttpHeaders → Call W (Bool × HttpResponse)
      unfolding plain_request
      http_client_delete_with_headers url headers =
          http_client_execute curl config (plain_request method_delete url headers (pos 0))

      -- `http_client_head_with_headers`, and `http_client_head` without headers
      unfoldable pub http_client_head_with_headers :
          Text → Option HttpHeaders → ℤ → Call W (Bool × HttpResponse)
      unfolding plain_request
      http_client_head_with_headers url headers timeout_secs =
          http_client_execute curl config (plain_request method_head url headers timeout_secs)
