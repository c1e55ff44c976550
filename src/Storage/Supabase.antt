-- ===== src/Storage/Supabase.antt =====
-- src/storage/storage_supabase.c: the storage behind the HTTP interface of Supabase.
pub mod Unreachable
pub mod Signing
use kaufbot.Prelude.{
  ℕ, ◌+◌, Bool, true, false, ◌&&◌, Option, none, some, List, [], ◌∷◌, ◌++◌, ◌==◌, if◌then◌else◌, ℤ,
  pos, Call, pure, ◌>>=◌, ◌>>◌,
}
use kaufbot.CText.{Text, codes, copy_to}
use kaufbot.Extern.{
  Doubles, Cjson, item, string_of, json_number, json_object, no_fields, add_field, CjsonPrint,
}
use kaufbot.Backend.{Bytes, StorageBackend}
use kaufbot.Config.{max_url_len, max_path_len, max_token_len}
use kaufbot.Http.Defs.{HttpHeaders, HttpResponse, HttpClientConfig, http_status_not_found, Curl}
use kaufbot.Http.Client.{http_headers_new, http_headers_add}
use kaufbot.Http.Calls.{
  http_client_new, http_client_get_with_headers, http_client_post_json, http_client_upload,
  http_client_delete_with_headers, http_client_head_with_headers,
}

abbrev pub max_composed_url : ℕ
max_composed_url = max_url_len + max_path_len + max_path_len + 64

-- `SupabaseStorage`
pub record SupabaseStorage : Type 0 where
  pub base_url : Text
  pub anon_key : Text
  pub bucket : Text

-- `supabase_open`
unfoldable pub supabase_open : (url service_key bucket : Text) → SupabaseStorage
supabase_open url service_key bucket = record {
  base_url = copy_to max_url_len url;
  anon_key = copy_to max_token_len service_key;
  bucket = copy_to max_path_len bucket;
}

-- What `supabase_delete_file` returns: 0, 1 or -1.
pub data Deletion : Type 0 where
  deleted not_there not_deleted : Deletion

-- `build_auth_headers`
unfoldable pub build_auth_headers : SupabaseStorage → HttpHeaders
build_auth_headers st =
    let bearer = copy_to (max_token_len + 64) (codes "Bearer " ++ st.anon_key) in
    http_headers_add (http_headers_add (http_headers_new 4) (codes "Authorization") bearer)
      (codes "apikey") (copy_to (max_token_len + 64) st.anon_key)

-- `<base>/storage/v1/object/<kind><bucket>/<filename>`, where the kind is empty, `public/` or `sign/`
unfoldable pub object_url : SupabaseStorage → Text → Text → Text
object_url st kind filename = copy_to max_composed_url (
    st.base_url
    ++ (codes "/storage/v1/object/" ++ (kind ++ (st.bucket ++ (codes "/" ++ filename)))))

-- `supabase_public_url`
unfoldable pub supabase_public_url : SupabaseStorage → Text → Text
unfolding object_url
supabase_public_url st filename = object_url st (codes "public/") filename

-- The body of a response with which all went well.
unfoldable pub good_body : Bool × HttpResponse → Option Bytes
good_body (true, resp) = elim resp.success [ true ↦ resp.body | false ↦ none ]
good_body (false, resp) = none

unfoldable pub went_well : Bool × HttpResponse → Bool
went_well (ok, resp) = ok && resp.success

-- `none` is the return of -1.
unfoldable pub existence_of : Bool × HttpResponse → Option Bool
existence_of (true, resp) = some resp.success
existence_of (false, resp) = none

unfoldable pub deletion_of : Bool × HttpResponse → Deletion
deletion_of (false, resp) = not_deleted
deletion_of (true, resp) =
    if resp.status_code == http_status_not_found
    then not_there
    else if resp.success
    then deleted
    else not_deleted

module _ {d : Doubles} {W : Type 0} (curl : Curl d W) where
  -- A function behind `http_client_new`, and what it returns if that fails.
  unfoldable pub with_client :
      {A : Type 0} → A → (HttpClientConfig d → Call W A) → Option (HttpClientConfig d) → Call W A
  with_client failure body none = pure failure
  with_client failure body (some http) = body http

  unfoldable pub new_client : {A : Type 0} → A → (HttpClientConfig d → Call W A) → Call W A
  unfolding with_client
  new_client failure body = do http ← http_client_new curl; with_client failure body http

  module _ (st : SupabaseStorage) where
    -- `supabase_save_file`
    unfoldable pub supabase_save_file : Text → Bytes → Call W Bool
    unfolding new_client build_auth_headers object_url went_well
    supabase_save_file filename b = new_client false λ http.
        let headers =
          http_headers_add (build_auth_headers st) (codes "Content-Type")
            (codes "application/octet-stream") in
        (do
          r ←
              http_client_upload curl http (object_url st [] filename)
                (some (http_headers_add headers (codes "x-upsert") (codes "true"))) b
          pure (went_well r))

    -- `supabase_file_exists`
    unfoldable pub supabase_file_exists : Text → Call W (Option Bool)
    unfolding new_client build_auth_headers object_url existence_of
    supabase_file_exists filename = new_client none λ http. do
      r ←
          http_client_head_with_headers curl http (object_url st [] filename)
            (some (build_auth_headers st)) (pos 30)
      pure (existence_of r)

    -- `supabase_check_public_access`
    unfoldable pub supabase_check_public_access : Text → Call W Bool
    unfolding new_client build_auth_headers object_url went_well
    supabase_check_public_access filename = new_client false λ http. do
      r ←
          http_client_head_with_headers curl http (object_url st (codes "public/") filename)
            (some (build_auth_headers st)) (pos 30)
      pure (went_well r)

    -- `supabase_delete_file`
    unfoldable pub supabase_delete_file : Text → Call W Deletion
    unfolding new_client build_auth_headers object_url deletion_of
    supabase_delete_file filename = new_client not_deleted λ http. do
      r ←
          http_client_delete_with_headers curl http (object_url st [] filename)
            (some (build_auth_headers st))
      pure (deletion_of r)

    -- `supabase_read_text` and `supabase_read_binary`
    unfoldable pub supabase_read : Text → Call W (Option Bytes)
    unfolding new_client build_auth_headers object_url good_body
    supabase_read filename = new_client none λ http. do
      r ←
          http_client_get_with_headers curl http (object_url st [] filename)
            (some (build_auth_headers st)) (pos 120)
      pure (good_body r)

    module _ (cj : Cjson d) (print : CjsonPrint d) where
      signed_path : Option Text → Option Text
      signed_path none = none
      signed_path (some path) =
          some (copy_to max_composed_url (st.base_url ++ (codes "/storage/v1" ++ path)))

      -- From the body of the response on.
      signed_in : Option Text → Option Text
      unfolding signed_path
      signed_in none = none
      signed_in (some body) =
          signed_path (string_of cj (item cj (cj.parse body) (codes "signedURL")))

      ask_signed : Text → HttpClientConfig d → Option Text → Call W (Option Text)
      unfolding signed_in good_body object_url
      ask_signed filename http none = pure none
      ask_signed filename http (some body) = do
        r ← http_client_post_json curl http (object_url st (codes "sign/") filename) body
        pure (signed_in (good_body r))

      -- `supabase_signed_url`; the headers that it builds are not sent.
      unfoldable pub supabase_signed_url : Text → Call W (Option Text)
      unfolding new_client ask_signed
      supabase_signed_url filename = new_client none λ http. ask_signed filename http (
          print (
            json_object
              (add_field (codes "expiresIn") (json_number (d.of_int64 (pos 3600))) no_fields)))

      url_for : Text → Bool → Call W (Option Text)
      unfolding supabase_signed_url supabase_public_url
      url_for filename true = pure (some (supabase_public_url st filename))
      url_for filename false = supabase_signed_url filename

      -- `supabase_get_public_url`
      unfoldable pub supabase_get_public_url : Text → Call W (Option Text)
      unfolding supabase_check_public_access url_for
      supabase_get_public_url filename = do
        accessible ← supabase_check_public_access filename
        url_for filename accessible

      is_deleted : Deletion → Bool
      is_deleted deleted = true
      is_deleted not_there = false
      is_deleted not_deleted = false

      is_there : Option Bool → Bool
      is_there none = false
      is_there (some b) = b

      -- `supabase_ops`
      unfoldable pub supabase_ops : StorageBackend W
      unfolding supabase_save_file supabase_file_exists supabase_delete_file supabase_read
          supabase_get_public_url is_deleted is_there
      supabase_ops = record {
        save_file = supabase_save_file;
        save_text = supabase_save_file;
        file_exists = λ filename. do
          r ← supabase_file_exists filename
          pure (is_there r);
        delete_file = λ filename. do
          r ← supabase_delete_file filename
          pure (is_deleted r);
        read_text = supabase_read;
        read_binary = supabase_read;
        get_public_url = supabase_get_public_url;
      }
