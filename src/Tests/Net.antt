-- ===== src/Tests/Net.antt =====
-- Tests of Http, Gemini and the storage of Supabase, over a server that answers the first request
-- with status 503 and every other with 200.
use kaufbot.Prelude.{
  ℕ, ◌+◌, ◌≡◌, ◌⊎◌, refl, true, false, none, some, List, [], ◌∷◌, ◌++◌, ◌==◌, arith, if◌then◌else◌,
  pos, Call, pure,
}
use kaufbot.CText.{codes, skip_while}
use kaufbot.Http.Defs.{HttpRequest, HttpClientConfig, method_get, CurlOption, CurlResult, Curl}
use kaufbot.Http.Client.{
  http_is_retryable, should_retry, exponential_backoff, response_of, attempt_once, retry_or,
  execute_loop, executed, http_client_execute,
}
use kaufbot.Http.Client.Attempts.{retries, Attempts, Ended, http_client_execute-Attempts}
use kaufbot.Gemini.Defs.{GeminiClient, GeminiEnv}
use kaufbot.Gemini.Extract.{gemini_extract_text_with_model}
use kaufbot.Gemini.Extract.Swap.{calls_model}
use kaufbot.Gemini.Markdown.{is_json_space, strip_markdown_json}
use kaufbot.Gemini.Markdown.Fences.{fence, strip_markdown_json-fenced}
use kaufbot.Gemini.Service.{gemini_ocr}
use kaufbot.Gemini.Service.Fallback.{NoFallback, gemini_ocr-NoFallback}
use kaufbot.Storage.Supabase.{
  SupabaseStorage, deleted, not_deleted, supabase_file_exists, supabase_delete_file,
}
use kaufbot.Storage.Supabase.Unreachable.{
  Answers, head_response, delete_response, supabase_missing_lem,
}
use kaufbot.Http.Calls.{http_client_new}
use kaufbot.Tests.World.{doubles, cjson}

-- The world counts the requests.
abbrev serve : List CurlOption → Call ℕ CurlResult
serve options n = (
  record {
    ok = true;
    error = [];
    http_code = if n == 0 then 503 else 200;
    received = some (codes "{}");
  },
  n + 1,
)

abbrev net : Curl doubles ℕ
net = record { init = pure true; perform = serve; usleep = λ n. pure tt }

abbrev retrying : HttpClientConfig doubles
retrying = record {
  default_timeout_secs = pos 60;
  default_connect_timeout_secs = pos 10;
  max_retries = pos 3;
  retry_base_delay_ms = 100;
  follow_redirects = false;
}

abbrev request : HttpRequest
request = record {
  method = method_get;
  url = codes "http://t/";
  body = none;
  body_len = 0;
  headers = none;
  timeout_secs = pos 0;
  connect_timeout_secs = pos 0;
  follow_redirects = false;
}

retried : (http_client_execute net retrying request 0).1 ≡ 2
unfolding http_client_execute execute_loop executed attempt_once exponential_backoff response_of
    retry_or should_retry http_is_retryable
retried = refl

http_client_execute-Attempts_example :
    (n : ℕ) × Attempts net retrying request 0 0 n
      (http_client_execute net retrying request 0).0.1
      (http_client_execute net retrying request 0).1
    × Ended net retrying request n (http_client_execute net retrying request 0).0.1
    × ((http_client_execute net retrying request 0).0.0
        ≡ (http_client_execute net retrying request 0).0.1.success)
    × ((execute_loop net retrying request (retries net retrying request + 1) 0 0).0
        ≡ some (http_client_execute net retrying request 0).0.1)
http_client_execute-Attempts_example = http_client_execute-Attempts net retrying request 0

abbrev client : GeminiClient
client = record {
  api_key = codes "k";
  model = codes "gemini-2.5-flash";
  fallback_model = codes "gemma-3-27b-it";
  api_base = codes "http://g";
  http_timeout_secs = pos 600;
  fallback_enabled = true;
  fallback_until = 0;
  last_prompt_tokens = pos 0;
  last_completion_tokens = pos 0;
  last_total_tokens = pos 0;
}

abbrev gemini_env : GeminiEnv doubles ℕ
gemini_env = record {
  curl = net;
  time = pure 1000;
  midnight_after = λ t. t + 3600;
  print = λ json. some (codes "{}");
}

gemini_ocr-NoFallback_example :
    NoFallback
      ((gemini_ocr cjson gemini_env).extract_text (codes "JPEG") (codes "a.jpg") (client, 0)).1
gemini_ocr-NoFallback_example =
    (gemini_ocr-NoFallback cjson gemini_env).0 (codes "JPEG") (codes "a.jpg") (client, 0) refl

calls_model_example :
    (gemini_extract_text_with_model cjson gemini_env
      (codes "JPEG")
      (codes "a.jpg")
      (codes "gemma-3-12b-it")
      (client, 1)).1.0.model
    ≡ codes "gemini-2.5-flash"
calls_model_example =
    (calls_model cjson gemini_env client 1 (omega arith)).1 (codes "JPEG") (codes "a.jpg")
      (codes "gemma-3-12b-it")

abbrev supabase_storage : SupabaseStorage
supabase_storage = record {
  base_url = codes "https://s";
  anon_key = codes "key";
  bucket = codes "receipts";
}

supabase_missing_lem_example :
    let exists = (supabase_file_exists net supabase_storage (codes "a.jpg") 0).0 in
    let deletion = (supabase_delete_file net supabase_storage (codes "a.jpg") 0).0 in
    (((http_client_new net 0).0 ≡ none) × (exists ≡ none) × (deletion ≡ not_deleted))
    ⊎ ((http : HttpClientConfig doubles) × ((http_client_new net 0).0 ≡ some http)
        × Answers
            (head_response net supabase_storage (codes "a.jpg") 0 http)
            (some true)
            none
            exists
        × Answers
            (delete_response net supabase_storage (codes "a.jpg") 0 http)
            deleted
            not_deleted
            deletion)
supabase_missing_lem_example = supabase_missing_lem net supabase_storage (codes "a.jpg") 0

strip_markdown_json-fenced_example :
    strip_markdown_json
      (codes "```json" ++ b'\n' ∷ (codes "{}" ++ b'\n' ∷ (fence ++ codes " Done.")))
    ≡ codes "{}"
unfolding is_json_space skip_while
strip_markdown_json-fenced_example =
    strip_markdown_json-fenced b'{' (codes "}") (codes " Done.") refl refl (refl, (refl, tt))
