-- ===== src/Storage/Supabase/Unreachable.antt =====
-- The returns of src/storage/storage_supabase.c for a file that is not there.
use kaufbot.Prelude.{
  ◌≡◌, refl, sym, ap, ◌⊎◌, ◌≤◌, ◌<◌, Bool, true, false, Option-cases, inl, inr, none, some, [],
  ◌==◌, arith, pos,
}
use kaufbot.CText.{Text}
use kaufbot.Extern.{Doubles}
use kaufbot.Http.Defs.{HttpRequest, HttpResponse, HttpClientConfig, Curl}
use kaufbot.Http.Client.{http_client_execute}
use kaufbot.Http.Client.Attempts.{http_client_execute_ok, http_client_execute_rc}
use kaufbot.Http.Calls.{
  http_client_new, http_client_head_with_headers, http_client_delete_with_headers,
}
use kaufbot.Storage.Supabase.{
  SupabaseStorage, deleted, not_deleted, existence_of, deletion_of, with_client, new_client,
  build_auth_headers, object_url, supabase_file_exists, supabase_delete_file,
}

-- What the HTTP client promises of a return value and a response.
abbrev Sound : Bool × HttpResponse → Type 0
Sound r = (r.0 ≡ r.1.success) × (r.0 ≡ true → (200 ≤ r.1.status_code) × (r.1.status_code < 300))

-- A function has returned `good` after a success, a response with a status of 200 to 299, and `bad`
-- after any other response.
unfoldable pub Answers : {A : Type 0} → HttpResponse → A → A → A → Type 0
Answers resp good bad result =
    ((resp.success ≡ true) × (200 ≤ resp.status_code) × (resp.status_code < 300) × (result ≡ good))
    ⊎ ((resp.success ≡ false) × (result ≡ bad))

existence_of-Answers :
    (r : Bool × HttpResponse) → Sound r → Answers r.1 (some true) none (existence_of r)
unfolding existence_of Answers
existence_of-Answers (true, resp) s =
    let (low, high) = s.1 refl in inl (sym s.0, low, high, ap some (sym s.0))
existence_of-Answers (false, resp) s = inr (sym s.0, refl)

deletion_of-Answers :
    (r : Bool × HttpResponse) → Sound r → Answers r.1 deleted not_deleted (deletion_of r)
unfolding deletion_of Answers
deletion_of-Answers (true, resp) s =
    let (low, high) = s.1 refl in
    let found_ : (resp.status_code == 404) ≡ false = ground arith in
    inl (sym s.0, low, high, rw (found_, sym s.0) refl)
deletion_of-Answers (false, resp) s = inr (sym s.0, refl)

module _ {d : Doubles} {W : Type 0} (curl : Curl d W) where
  Sound-http_client_execute :
      (config : HttpClientConfig d) (req : HttpRequest) (w : W)
      → Sound (http_client_execute curl config req w).0
  Sound-http_client_execute config req w =
      (http_client_execute_rc curl config req w, http_client_execute_ok curl config req w)

  -- The responses to the two requests, on a client that was made in a world.
  abbrev pub head_response : SupabaseStorage → Text → W → HttpClientConfig d → HttpResponse
  head_response st filename w http =
      (http_client_head_with_headers curl http (object_url st [] filename)
        (some (build_auth_headers st)) (pos 30) (http_client_new curl w).1).0.1

  abbrev pub delete_response : SupabaseStorage → Text → W → HttpClientConfig d → HttpResponse
  delete_response st filename w http =
      (http_client_delete_with_headers curl http (object_url st [] filename)
        (some (build_auth_headers st)) (http_client_new curl w).1).0.1

  -- `supabase_file_exists` returns 1 and `supabase_delete_file` returns 0 exactly where the server
  -- has answered their one request with success, a status of 200 to 299. After any other response,
  -- status 404 for a file that is not there included, and where no client can be made, both return
  -- -1.
  pub supabase_missing_lem :
      (st : SupabaseStorage) (filename : Text) (w : W)
      → let exists = (supabase_file_exists curl st filename w).0 in
        let deletion = (supabase_delete_file curl st filename w).0 in
        (((http_client_new curl w).0 ≡ none) × (exists ≡ none) × (deletion ≡ not_deleted))
        ⊎ ((http : HttpClientConfig d) × ((http_client_new curl w).0 ≡ some http)
            × Answers (head_response st filename w http) (some true) none exists
            × Answers (delete_response st filename w http) deleted not_deleted deletion)
  unfolding supabase_file_exists supabase_delete_file new_client with_client
      http_client_head_with_headers http_client_delete_with_headers
  supabase_missing_lem st filename w = elim (Option-cases (http_client_new curl w).0) [
    | inl e ↦ inl (e, rw (e, with_client) refl, rw (e, with_client) refl)
    | inr (http, e) ↦ inr (
      http,
      e,
      rw (e, with_client) (existence_of-Answers _ (Sound-http_client_execute http _ _)),
      rw (e, with_client) (deletion_of-Answers _ (Sound-http_client_execute http _ _)),
    )
  ]
