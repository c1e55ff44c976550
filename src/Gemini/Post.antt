-- ===== src/Gemini/Post.antt =====
-- `gemini_post_and_parse`, src/ocr/gemini.c.
pub mod Fallback
use kaufbot.Prelude.{
  ℕ, Bool, true, false, ◌&&◌, not, Option, none, some, [], ◌∷◌, ◌++◌, leb, ◌==◌, if◌then◌else◌,
  Call, pure, ◌>>=◌, ◌>>◌,
}
use kaufbot.CText.{Text, codes, copy_to}
use kaufbot.Extern.{Doubles, Cjson}
use kaufbot.Http.Defs.{HttpResponse, HttpClientConfig, http_status_too_many_requests}
use kaufbot.Http.Calls.{http_client_new, http_client_post_json}
use kaufbot.Gemini.Defs.{GeminiClient, GeminiEnv, beside}
use kaufbot.Gemini.Response.{gemini_parse_api_response, store_usage}

-- The model that a request is sent to.
unfoldable pub active_model : GeminiClient → Text
active_model c = if c.fallback_until == 0 then c.model else c.fallback_model

unfoldable pub request_url : GeminiClient → Text
unfolding active_model
request_url c =
    copy_to 2048 (
      c.api_base ++ (codes "/" ++ (active_model c ++ (codes ":generateContent?key=" ++ c.api_key))))

module _ {d : Doubles} (cj : Cjson d) {S : Type 0} (env : GeminiEnv d S) where
  -- The end of a fallback period that has expired.
  unfoldable pub revert_expired : Call (GeminiClient × S) (Unit {0})
  revert_expired (c, s) =
      let (now, s') = env.time s in
      if c.fallback_until == 0
      then (tt, (c, s))
      else (tt, ((if leb c.fallback_until now then record c { fallback_until = 0 } else c), s'))

  sent : Text → Text → Option (HttpClientConfig d) → Call S (Option (Bool × HttpResponse))
  sent url body none = pure none
  sent url body (some config) = do r ← http_client_post_json env.curl config url body; pure (some r)

  -- A new client and its request; `none` is a client that could not be made.
  unfoldable pub send_request : Text → Call (GeminiClient × S) (Option (Bool × HttpResponse))
  unfolding sent request_url
  send_request body (c, s) =
      beside (do config ← http_client_new env.curl; sent (request_url c) body config) (c, s)

  -- `client->fallback_until = next_midnight()`
  unfoldable pub start_fallback : Call (GeminiClient × S) (Unit {0})
  start_fallback (c, s) =
      let (now, s') = env.time s in (tt, (record c { fallback_until = env.midnight_after now }, s'))

  -- A successful response.
  unfoldable pub finish_post : Option Text → Call (GeminiClient × S) (Option Text)
  finish_post body (c, s) = (gemini_parse_api_response cj body, (store_usage cj body c, s))

  -- The branches behind the request; `retry` is the jump back, and `tried` is `tried_fallback`.
  unfoldable pub handle_response :
      Call (GeminiClient × S) (Option Text)
      → Bool
      → Option (Bool × HttpResponse)
      → Call (GeminiClient × S) (Option Text)
  unfolding start_fallback finish_post
  handle_response retry tried none w = (none, w)
  handle_response retry tried (some (false, resp)) w = (none, w)
  handle_response retry tried (some (true, resp)) (c, s) =
      if resp.status_code == http_status_too_many_requests && (not tried && c.fallback_enabled)
      then (start_fallback >> retry) (c, s)
      else if resp.success
      then finish_post resp.body (c, s)
      else (none, (c, s))

  -- From the label on.
  unfoldable pub post_round :
      Call (GeminiClient × S) (Option Text) → Bool → Text → Call (GeminiClient × S) (Option Text)
  unfolding revert_expired send_request handle_response
  post_round retry tried body = do
    revert_expired
    r ← send_request body
    handle_response retry tried r

  -- `gemini_post_and_parse`: the second round has tried the fallback, and does not jump.
  unfoldable pub gemini_post_and_parse : Text → Call (GeminiClient × S) (Option Text)
  unfolding post_round
  gemini_post_and_parse body = post_round (post_round (pure none) true body) false body
