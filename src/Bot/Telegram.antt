-- ===== src/Bot/Telegram.antt =====
-- The requests to Telegram of src/telegram/bot.c. A reply to a request that sends is only checked
-- for the log.
use kaufbot.Prelude.{
  ℕ, Bool, true, false, Option, none, some, ◌∷◌, ◌++◌, ℤ, Call, pure, ◌>>=◌, ◌>>◌,
}
use kaufbot.CText.{Text, codes, copy_to}
use kaufbot.Utils.Percent.{percent_encode}
use kaufbot.Extern.{
  Doubles, Cjson, item, string_of, is_true_node, Json, JsonFields, json_number, json_string,
  json_array, json_object, no_items, add_item, no_fields, add_field, CjsonPrint,
}
use kaufbot.Backend.{Bytes}
use kaufbot.Config.{Config}
use kaufbot.Http.Defs.{HttpResponse, HttpClientConfig, Curl}
use kaufbot.Http.Calls.{http_client_new, http_client_get, http_client_post_json}
use kaufbot.Bot.Defs.{Telegram}
use kaufbot.Bot.Keyboard.{retry_data, delete_data}

abbrev pub bot_url_buf_len : ℕ
bot_url_buf_len = 2048

-- The body of a response that is a success.
abbrev body_of : Bool × HttpResponse → Option Bytes
body_of (true, resp) = elim resp.success [ true ↦ resp.body | false ↦ none ]
body_of (false, resp) = none

-- `snprintf(url, sizeof(url), "%s%s/<call>", telegram_api_base, telegram_token)`
unfoldable pub call_url : Config → Text → Text
call_url cfg call =
    copy_to bot_url_buf_len (cfg.telegram_api_base ++ (cfg.telegram_token ++ (codes "/" ++ call)))

module _ {d : Doubles} {W : Type 0} (curl : Curl d W) where
  got : Text → ℤ → Option (HttpClientConfig d) → Call W (Option Bytes)
  got url timeout_sec none = pure none
  got url timeout_sec (some config) = do
    r ← http_client_get curl config url timeout_sec
    pure (body_of r)

  -- `http_get`; `tg_download_file` makes the same request.
  unfoldable pub http_get : Text → ℤ → Call W (Option Bytes)
  unfolding got
  http_get url timeout_sec = do config ← http_client_new curl; got url timeout_sec config

  posted : Text → Text → Option (HttpClientConfig d) → Call W (Option Bytes)
  posted url json_body none = pure none
  posted url json_body (some config) = do
    r ← http_client_post_json curl config url json_body
    pure (body_of r)

  -- `http_post_json`
  unfoldable pub http_post_json : Text → Text → Call W (Option Bytes)
  unfolding posted
  http_post_json url json_body = do config ← http_client_new curl; posted url json_body config

module _ {d : Doubles} where
  -- The payloads of the requests.
  unfoldable pub message_payload : ℤ → Text → Json d
  message_payload chat_id text = json_object (
      add_field (codes "chat_id") (json_number (d.of_int64 chat_id))
        (add_field (codes "text") (json_string text) no_fields))

  keyboard_button : Text → Text → Json d
  keyboard_button label callback = json_object (
      add_field (codes "text") (json_string label)
        (add_field (codes "callback_data") (json_string callback) no_fields))

  -- The labels begin with the characters U+1F504, and U+1F5D1 with U+FE0F.
  reply_markup : ℤ → Json d
  unfolding keyboard_button
  reply_markup db_file_id =
      let retry_btn =
        keyboard_button (240 ∷ 159 ∷ 148 ∷ 132 ∷ codes " Retry OCR") (retry_data db_file_id) in
      let delete_btn =
        keyboard_button (240 ∷ 159 ∷ 151 ∷ 145 ∷ 239 ∷ 184 ∷ 143 ∷ codes " Delete")
          (delete_data db_file_id) in
      let row : Json d = json_array (add_item retry_btn (add_item delete_btn no_items)) in
      json_object
        (add_field (codes "inline_keyboard") (json_array (add_item row no_items)) no_fields)

  unfoldable pub keyboard_payload : ℤ → Text → ℤ → Json d
  unfolding reply_markup
  keyboard_payload chat_id text db_file_id = json_object (
      add_field (codes "chat_id") (json_number (d.of_int64 chat_id)) (
        add_field (codes "text") (json_string text) (
          add_field (codes "parse_mode") (json_string (codes "Markdown"))
            (add_field (codes "reply_markup") (reply_markup db_file_id) no_fields))))

  answer_text : Option Text → JsonFields d
  answer_text none = no_fields
  answer_text (some text) = add_field (codes "text") (json_string text) no_fields

  unfoldable pub answer_payload : Text → Option Text → Json d
  unfolding answer_text
  answer_payload query_id text =
      json_object (add_field (codes "callback_query_id") (json_string query_id) (answer_text text))

  unfoldable pub delete_payload : ℤ → ℤ → Json d
  delete_payload chat_id message_id = json_object (
      add_field (codes "chat_id") (json_number (d.of_int64 chat_id))
        (add_field (codes "message_id") (json_number (d.of_int64 message_id)) no_fields))

module _ {d : Doubles} (cj : Cjson d) where
  path_if_ok : cj.Node → Bool → Option Text
  path_if_ok json false = none
  path_if_ok json true =
      string_of cj (item cj (item cj (some json) (codes "result")) (codes "file_path"))

  path_in : Option cj.Node → Option Text
  unfolding path_if_ok
  path_in none = none
  path_in (some json) = path_if_ok json (is_true_node cj (item cj (some json) (codes "ok")))

  -- The path that the reply to `getFile` names.
  unfoldable pub file_path_of : Option Text → Option Text
  unfolding path_in
  file_path_of none = none
  file_path_of (some resp) = path_in (cj.parse resp)

  module _ (print : CjsonPrint d) {W : Type 0} (curl : Curl d W) (cfg : Config) where
    post_body : Text → Option Text → Call W (Unit {0})
    unfolding call_url
    post_body call none = pure tt
    post_body call (some body) = do http_post_json curl (call_url cfg call) body; pure tt

    -- The request of a payload that could be printed.
    unfoldable pub send_payload : Text → Json d → Call W (Unit {0})
    unfolding post_body
    send_payload call payload = post_body call (print payload)

    -- `tg_get_file_path`
    unfoldable pub tg_get_file_path : Text → Call W (Option Text)
    unfolding call_url file_path_of
    tg_get_file_path file_id = do
      resp ←
          http_get curl (call_url cfg (codes "getFile?file_id=" ++ percent_encode file_id))
            cfg.telegram_http_timeout_secs
      pure (file_path_of resp)

    -- `tg_download_file`
    unfoldable pub tg_download_file : Text → Call W (Option Bytes)
    tg_download_file file_path =
        http_get curl
          (copy_to bot_url_buf_len
            (cfg.telegram_file_base ++ (cfg.telegram_token ++ (codes "/" ++ file_path))))
          cfg.telegram_download_timeout_secs

    -- The functions of bot.h.
    unfoldable pub telegram_of : Telegram W
    unfolding send_payload message_payload keyboard_payload answer_payload delete_payload
    telegram_of = record {
      send_message =
          λ chat_id text. send_payload (codes "sendMessage") (message_payload chat_id text);
      send_message_with_keyboard = λ chat_id text db_file_id.
          send_payload (codes "sendMessage") (keyboard_payload chat_id text db_file_id);
      answer_callback_query = λ query_id text.
          send_payload (codes "answerCallbackQuery") (answer_payload query_id text);
      delete_message = λ chat_id message_id.
          send_payload (codes "deleteMessage") (delete_payload chat_id message_id);
      get_file_path = tg_get_file_path;
      download_file = tg_download_file;
    }
