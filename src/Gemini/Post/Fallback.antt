-- ===== src/Gemini/Post/Fallback.antt =====
-- What a request to the API leaves of the client, src/ocr/gemini.c over src/infra/http_client.c.
use kaufbot.Prelude.{
  ◌<◌, ◌≡◌, refl, Bool, true, false, Option, none, some, leb, ◌==◌, arith, Bool-cases, inl, inr,
  Call, pure, Keeps,
}
use kaufbot.CText.{Text}
use kaufbot.Extern.{Doubles, Cjson}
use kaufbot.Http.Defs.{HttpResponse, HttpClientConfig, http_status_too_many_requests}
use kaufbot.Http.Client.Attempts.{http_client_execute_ok}
use kaufbot.Http.Calls.{http_client_new, http_client_post, http_client_post_json}
use kaufbot.Gemini.Defs.{GeminiClient, GeminiEnv}
use kaufbot.Gemini.Response.{store_usage}
use kaufbot.Gemini.Post.{
  request_url, revert_expired, sent, send_request, finish_post, handle_response, post_round,
  gemini_post_and_parse,
}

-- A request that the caller takes for answered has a status of success.
abbrev Answered : Option (Bool × HttpResponse) → Type 0
Answered none = Unit
Answered (some (false, resp)) = Unit
Answered (some (true, resp)) = resp.status_code < 300

Answered-pair : (r : Bool × HttpResponse) → (r.0 ≡ true → r.1.status_code < 300) → Answered (some r)
Answered-pair (true, resp) h = h refl
Answered-pair (false, resp) h = tt

module _ {d : Doubles} (cj : Cjson d) {S : Type 0} (env : GeminiEnv d S) where
  sent-Answered :
      (url body : Text) (o : Option (HttpClientConfig d)) (s : S)
      → Answered (sent cj env url body o s).0
  unfolding sent http_client_post_json http_client_post
  sent-Answered url body none s = tt
  sent-Answered url body (some config) s =
      Answered-pair _ (λ ok. (http_client_execute_ok env.curl config _ s ok).1)

  send_request-Answered :
      (body : Text) (w : GeminiClient × S) → Answered (send_request cj env body w).0
  unfolding send_request
  send_request-Answered body (c, s) =
      let (config, s') = http_client_new env.curl s in sent-Answered (request_url c) body config s'

  module _ {Q : GeminiClient → Type 0}
      (reverted : (c : GeminiClient) → Q c → Q (record c { fallback_until = 0 }))
      (counted : (c : GeminiClient) (body : Option Text) → Q c → Q (store_usage cj body c)) where
    revert_expired-keeps : Keeps (λ (w : GeminiClient × S). Q w.0) (revert_expired cj env)
    unfolding revert_expired
    revert_expired-keeps (c, s) h = elim (Bool-cases (c.fallback_until == 0)) [
      | inl off ↦ rw off h
      | inr on ↦ elim (Bool-cases (leb c.fallback_until (env.time s).0)) [
        | inl over ↦ rw (on, over) (reverted c h)
        | inr still ↦ rw (on, still) h
      ]
    ]

    handle_response-keeps :
        (retry : Call (GeminiClient × S) (Option Text)) (tried : Bool)
        (r : Option (Bool × HttpResponse)) (w : GeminiClient × S)
        → Answered r
        → Q w.0
        → Q (handle_response cj env retry tried r w).1.0
    unfolding handle_response finish_post
    handle_response-keeps retry tried none w a h = h
    handle_response-keeps retry tried (some (false, resp)) w a h = h
    handle_response-keeps retry tried (some (true, resp)) (c, s) a h =
        let other : (resp.status_code == http_status_too_many_requests) ≡ false = ground arith in
        elim (Bool-cases resp.success) [
          | inl good ↦ rw (other, good) (counted c resp.body h)
          | inr bad ↦ rw (other, bad) h
        ]

    post_round-keeps :
        (retry : Call (GeminiClient × S) (Option Text)) (tried : Bool) (body : Text)
        → Keeps (λ w. Q w.0) (post_round cj env retry tried body)
    unfolding post_round
    post_round-keeps retry tried body w h =
        let (u, w₁) = revert_expired cj env w in
        let (r, w₂) = send_request cj env body w₁ in
        handle_response-keeps retry tried r w₂ (send_request-Answered body w₁)
          (unfold send_request in revert_expired-keeps w h)

    pub gemini_post_and_parse-keeps :
        (body : Text) → Keeps (λ w. Q w.0) (gemini_post_and_parse cj env body)
    unfolding gemini_post_and_parse
    gemini_post_and_parse-keeps body =
        post_round-keeps (post_round cj env (pure none) true body) false body
