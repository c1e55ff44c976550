-- ===== src/Http/Client/Attempts.antt =====
-- How often `http_client_execute` (src/infra/http_client.c) tries.
use kaufbot.Prelude.{
  ℕ, zero, suc, ◌+◌, ◌≤◌, ◌<◌, ◌≡◌, ◌∙◌, ◌⊎◌, sym, refl, true, false, some, ltb, ℤ, pos, pos_part,
  negsuc, arith, Bool-cases, inl, inr,
}
use kaufbot.Extern.{Doubles}
use kaufbot.Http.Defs.{HttpRequest, HttpResponse, HttpClientConfig, Curl}
use kaufbot.Http.Client.{
  http_is_retryable, should_retry, attempt_once, retry_or, execute_loop, executed,
  http_client_execute, response_of,
}

module _ {d : Doubles} {W : Type 0} (curl : Curl d W) (config : HttpClientConfig d)
    (req : HttpRequest) where
  -- A run from the attempt `k` on, with the world before it: `last` ends it, and each attempt that is
  -- tried again had a status that allows it.
  pub data Attempts : ℕ → W → ℕ → HttpResponse → W → Type 0 where
    last :
        (k : ℕ) (w : W)
        → Attempts k w k (attempt_once curl config req k w).0 (attempt_once curl config req k w).1
    again :
        {n : ℕ} {resp : HttpResponse} {w' : W} (k : ℕ) (w : W)
        → http_is_retryable (attempt_once curl config req k w).0.status_code ≡ true
        → Attempts (k + 1) (attempt_once curl config req k w).1 n resp w'
        → Attempts k w n resp w'

  -- The retries that are allowed.
  abbrev pub retries : ℕ
  retries = pos_part config.max_retries

  -- What `should_retry` says after an attempt, with all of its guards.
  should_retry_lem :
      (resp : HttpResponse) (max : ℤ) (k : ℕ)
      → ((should_retry resp k max ≡ true)
          × (k < pos_part max)
          × (http_is_retryable resp.status_code ≡ true))
        ⊎ ((should_retry resp k max ≡ false)
            × (k < pos_part max → http_is_retryable resp.status_code ≡ false))
  unfolding should_retry
  should_retry_lem resp (pos n) k = elim (Bool-cases (ltb k n)) [
    | inr ge ↦ inr (ground arith, λ h. absurd (ground arith))
    | inl lt ↦
        let same : should_retry resp k (pos n) ≡ http_is_retryable resp.status_code =
          ground arith in
        elim (Bool-cases (http_is_retryable resp.status_code)) [
          | inl yes_ ↦ inl (same ∙ yes_, ground arith, yes_)
          | inr no_ ↦ inr (same ∙ no_, λ h. no_)
        ]
  ]
  should_retry_lem resp (negsuc n) k = inr (ground arith, λ h. absurd (omega arith))

  -- What a run ends in: after an attempt that may be retried, none is left.
  abbrev pub Ended : ℕ → HttpResponse → Type 0
  Ended n resp = (n ≤ retries) × (http_is_retryable resp.status_code ≡ true → n ≡ retries)

  -- The loop from an attempt that is allowed on, with rounds enough to go beyond the last one that
  -- is, ends.
  execute_loop-Attempts :
      (rounds k : ℕ) (w : W)
      → k ≤ retries
      → retries < k + rounds
      → (n : ℕ) × (resp : HttpResponse) × ((execute_loop curl config req rounds k w).0 ≡ some resp)
        × Attempts k w n resp (execute_loop curl config req rounds k w).1
        × Ended n resp
  unfolding execute_loop
  execute_loop-Attempts zero k w allowed enough = absurd (omega arith)
  execute_loop-Attempts (suc rounds) k w allowed enough =
      let (resp, w') = attempt_once curl config req k w in
      elim (should_retry_lem resp config.max_retries k) [
        | inl (yes_, left, status) ↦
            let (n, r, e, run, ended) =
              execute_loop-Attempts rounds (k + 1) w' (omega arith) (omega arith) in
            rw (yes_, retry_or) (n, r, e, again k w status run, ended)
        | inr (no_, status) ↦
            rw (no_, retry_or) (k, resp, refl, last k w, (allowed, λ h. ground (arith, h, status)))
      ]

  -- The loop ends within `max_retries + 1` rounds, since `should_retry` refuses one more. A request
  -- is tried once and at most `max_retries` times more: again only after a status that allows it,
  -- and, for as long as a retry is left, always after such a status. The response is that of the
  -- last attempt, and the call returns 0 exactly where that one succeeded.
  pub http_client_execute-Attempts :
      (w : W)
      → let (rc, resp) = (http_client_execute curl config req w).0 in
        (n : ℕ) × Attempts 0 w n resp (http_client_execute curl config req w).1
        × Ended n resp
        × (rc ≡ resp.success)
        × ((execute_loop curl config req (retries + 1) 0 w).0 ≡ some resp)
  unfolding http_client_execute executed
  http_client_execute-Attempts w =
      let (n, resp, e, run, ended) =
        execute_loop-Attempts (retries + 1) 0 w (omega arith) (omega arith) in
      rw (e, executed) (n, run, ended, refl, refl)

  IsCoherent : HttpResponse → Type 0
  IsCoherent resp = resp.success ≡ true → (200 ≤ resp.status_code) × (resp.status_code < 300)

  attempt_once-IsCoherent : (k : ℕ) (w : W) → IsCoherent (attempt_once curl config req k w).0
  unfolding IsCoherent attempt_once response_of
  attempt_once-IsCoherent k w h = ground arith

  Attempts-IsCoherent :
      {k n : ℕ} {resp : HttpResponse} {w w' : W} → Attempts k w n resp w' → IsCoherent resp
  Attempts-IsCoherent (last k w) = attempt_once-IsCoherent k w
  Attempts-IsCoherent (again k w status run) = Attempts-IsCoherent run

  -- The call returns 0 only with a status of 200 to 299, so a response with another status is
  -- an error to a caller that looks at the return value first.
  pub http_client_execute_ok :
      (w : W)
      → (http_client_execute curl config req w).0.0 ≡ true
      → (200 ≤ (http_client_execute curl config req w).0.1.status_code)
        × ((http_client_execute curl config req w).0.1.status_code < 300)
  unfolding IsCoherent
  http_client_execute_ok w h =
      let (n, run, ended, same, done) = http_client_execute-Attempts w in
      Attempts-IsCoherent run (sym same ∙ h)

  pub http_client_execute_rc :
      (w : W)
      → (http_client_execute curl config req w).0.0
        ≡ (http_client_execute curl config req w).0.1.success
  http_client_execute_rc w = (http_client_execute-Attempts w).3
