-- ===== src/Tests/World.antt =====
-- A world for the tests: the repository in memory, a list of files, and the messages that were
-- sent. Doubles are natural numbers here, and documents a small data type.
use kaufbot.Prelude.{
  ℕ, ◌+◌, ◌-◌, ◌*◌, Bool, true, false, Option, none, some, List, [], ◌∷◌, ltb, if◌then◌else◌, ℤ,
  pos, pos_part, Call, pure, is_some,
}
use kaufbot.CText.{Text, codes, text_eq}
use kaufbot.CText.Decimal.{show_ℕ}
use kaufbot.Extern.{Doubles, Cjson}
use kaufbot.Backend.{
  Bytes, StorageBackend, DbBackend, OcrService, ocr_ok, FileRecord, RepoResult, repo_ok, repo_err,
  Found, found, missing,
}
use kaufbot.Repository.Memory.{
  MemoryRepository, new_memory, find_by_hash, find_by_id, mark_ocr_complete, mark_parsing_complete,
  delete_by_id,
}
use kaufbot.Repository.Memory.Table.{memory_table, on_repository}
use kaufbot.Processor.Defs.{Processor, notify_and_skip}
use kaufbot.Config.{Config, local, sqlite}
use kaufbot.Bot.Defs.{TgBot, Telegram}

abbrev pub doubles : Doubles
doubles = record {
  Double = ℕ;
  zero_d = 0;
  one_d = 1;
  half_cent = 0;
  cent_and_half = 0;
  just_over_one = 1;
  add_d = λ a b. a + b;
  sub_d = λ a b. a - b;
  mul_d = λ a b. a * b;
  neg_d = λ a. a;
  lt_d = ltb;
  show_2f = show_ℕ;
  to_int64 = pos;
  of_size = λ n. n;
  of_int64 = λ z. pos_part z;
}

mutual
  pub data Doc : Type 0 where
    str : Text → Doc
    num : ℕ → Doc
    obj : Fields → Doc

  pub data Fields : Type 0 where
    end : Fields
    field : Text → Doc → Fields → Fields

get_field : Fields → Text → Option Doc
unfolding text_eq
get_field end key = none
get_field (field k v rest) key = if text_eq k key then some v else get_field rest key

unfoldable pub object_item : Doc → Text → Option Doc
unfolding get_field
object_item (obj fs) key = get_field fs key
object_item (str t) key = none
object_item (num n) key = none

abbrev pub text_of : Doc → Option Text
text_of (str t) = some t
text_of (num n) = none
text_of (obj fs) = none

abbrev pub number_of : Doc → Option (ℕ × ℤ)
number_of (num n) = some (n, pos n)
number_of (str t) = none
number_of (obj fs) = none

abbrev pub cjson : Cjson doubles
cjson = record {
  Node = Doc;
  parse = λ t. some (obj end);
  get_object_item = object_item;
  array_items = λ n. [];
  is_array = λ n. false;
  string_value = text_of;
  number_value = number_of;
  is_false = λ n. false;
  is_true = λ n. true;
}

pub record Rest : Type 0 where
  pub files : List (Text × Bytes)
  pub sent : List (ℤ × Text)

abbrev pub World : Type 0
World = MemoryRepository × Rest

unfoldable pub get_file : List (Text × Bytes) → Text → Option Bytes
get_file [] name = none
get_file ((n, b) ∷ rest) name = if text_eq n name then some b else get_file rest name

unfoldable pub remove_file : List (Text × Bytes) → Text → List (Text × Bytes)
remove_file [] name = []
remove_file ((n, b) ∷ rest) name =
    let later = remove_file rest name in if text_eq n name then later else (n, b) ∷ later

abbrev save : Text → Bytes → Call World Bool
save name b (m, r) = (true, (m, record r { files = (name, b) ∷ r.files }))

abbrev pub storage : StorageBackend World
storage = record {
  save_file = save;
  save_text = save;
  file_exists = λ name. λ w. (is_some (get_file w.1.files name), w);
  delete_file = λ name (m, r). (true, (m, record r { files = remove_file r.files name }));
  read_text = λ name. λ w. (get_file w.1.files name, w);
  read_binary = λ name. λ w. (get_file w.1.files name, w);
  get_public_url = λ name. pure none;
}

abbrev pub ocr : OcrService World
ocr = record {
  extract_text = λ b name. pure (ocr_ok (codes "MILK 1.00"));
  extract_text_with_model = λ b name model. pure (ocr_ok (codes "MILK 1.00"));
  parse_receipt = λ text. pure (ocr_ok (codes "{}"));
  get_last_tokens = pure (pos 7);
}

abbrev pub processor : Processor World
processor = record {
  repo = memory_table (some storage);
  storage = storage;
  ocr = ocr;
  dup_strategy = notify_and_skip;
  local_time = pure (record { year = 2026; month = 1; day = 2; hour = 3; minute = 4; second = 5 });
}

abbrev as_found : RepoResult FileRecord → Found FileRecord
as_found (repo_ok r) = found r
as_found (repo_err e) = missing

abbrev as_done : RepoResult (Unit {0}) → Bool
as_done (repo_ok u) = true
as_done (repo_err e) = false

-- The same records behind the table of a database.
abbrev pub database : DbBackend World
database = record {
  find_by_hash = λ h w. let (r, w') = on_repository (find_by_hash h) w in (as_found r, w');
  find_by_id = λ id w. let (r, w') = on_repository (find_by_id id) w in (as_found r, w');
  insert = λ rec. pure none;
  mark_ocr_done =
      λ id name w. let (r, w') = on_repository (mark_ocr_complete id name) w in (as_done r, w');
  mark_parsing_done =
      λ id json w. let (r, w') = on_repository (mark_parsing_complete id json) w in (as_done r, w');
  get_parsed_receipt = λ id. pure missing;
  list = λ w. (w.0.records, w);
  get_prompts = pure ([], true);
  update_prompt = λ id content. pure false;
  delete_file = λ id w. let (r, w') = on_repository (delete_by_id id) w in (as_done r, w');
}

abbrev say : ℤ → Text → Call World (Unit {0})
say chat text (m, r) = (tt, (m, record r { sent = (chat, text) ∷ r.sent }))

abbrev pub telegram : Telegram World
telegram = record {
  send_message = say;
  send_message_with_keyboard = λ chat text id. say chat text;
  answer_callback_query = λ query text. say (pos 0) query;
  delete_message = λ chat id. pure tt;
  get_file_path = λ id. pure (some id);
  download_file = λ path. pure (some (codes "JPEG"));
}

abbrev pub cfg : Config
cfg = record {
  telegram_token = codes "t";
  gemini_api_key = codes "k";
  gemini_model = codes "m";
  gemini_fallback_model = codes "f";
  gemini_fallback_enabled = false;
  storage = local (codes "/data/files");
  database = sqlite (codes "/data/bot.db");
  allowed_users = pos 42 ∷ [];
  telegram_api_base = codes "http://t/";
  telegram_file_base = codes "http://f/";
  telegram_poll_timeout_secs = pos 30;
  telegram_http_timeout_secs = pos 60;
  telegram_download_timeout_secs = pos 120;
  telegram_reconnect_delay_secs = pos 5;
  telegram_retry_delay_secs = pos 2;
  max_file_size_bytes = 20971520;
  gemini_api_base = codes "http://g";
  gemini_http_timeout_secs = pos 600;
  gemini_connect_timeout_secs = pos 15;
  gemini_models = codes "gemini-2.5-flash" ∷ [];
}

abbrev pub bot : TgBot World
bot = record {
  cfg = cfg;
  processor = processor;
  db = database;
  storage = some storage;
  telegram = telegram;
}

abbrev pub start : World
start = (new_memory, record { files = []; sent = [] })

-- A repository with one record, whose receipt has been read, and its two files.
abbrev pub filled : World
filled = (
  record {
    records =
        record {
          id = pos 1;
          original_file_name = codes "a.jpg";
          file_size_bytes = pos 0;
          saved_file_name = codes "u.jpg";
          file_hash = codes "h";
          is_ocr_processed = true;
          ocr_file_name = codes "u.txt";
          created_at = [];
          updated_at = [];
        }
        ∷ [];
    receipts = [];
    next_id = 2;
    next_receipt_id = 1;
  },
  record { files = (codes "u.jpg", codes "JPEG") ∷ (codes "u.txt", codes "MILK") ∷ []; sent = [] },
)
