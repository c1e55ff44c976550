-- ===== src/Lib.antt =====
-- Kaufbot is a Telegram bot that scans receipts: a user sends a photo or a PDF, the bot stores the
-- file, has a model read its text and then its items, and answers with a summary. This library
-- models the C program in src and proves properties of it.
--
-- The parts, and the files that model them:
--   * src/processor.c, the pipeline: Processor and below. Upload is `processor_handle_file` with
--     its steps, Retry the two retries, Receipt what is read from the parsed JSON, Messages the
--     replies. It calls a repository, a storage, an OCR service and a clock, which Processor.Defs
--     holds in one record.
--   * src/telegram/reply_builder.c: Reply.Builder, on the buffer of Reply.Writer. The buffer keeps
--     the string that is inside it, the position, and whether a call was made behind its end.
--   * src/telegram/bot_commands.c: Bot and below. Dispatch is `bot_dispatch_update`, Commands
--     `handle_command`, Files the uploads, Delete `do_delete_file`, Listing `/list` and `/models`.
--   * src/telegram/bot.c: Bot.Telegram, its requests, which fill the record of calls that the rest
--     of Bot makes; Bot.Poll, the loop of `bot_start` and the notices; Bot.Keyboard, the callback
--     data of the buttons.
--   * src/infra/http_client.c: Http. Client is `http_client_execute` with what it sets and its
--     retries, Calls the functions for each method.
--   * src/ocr/gemini.c and src/ocr/ocr_service.c: Gemini. Post is `gemini_post_and_parse` with the
--     fallback, Extract the three requests, Response and Markdown what is read from a reply,
--     Prompts the two prompts, Service the table that the pipeline calls.
--   * src/ocr/prompt_fetcher.c: PromptFetcher, which Bot.Poll runs behind each batch of updates.
--   * src/db/db_sqlite.c: Sqlite, one record of the calls of SQLite and one module for each kind of
--     operation; Open has the table that fills the interface of src/db/db_backend.h.
--     src/db/db_postgres.c: Postgres, in the same way over libpq.
--   * src/infra/file_repository_memory.c and src/infra/file_repository.c: Repository.Memory and
--     Repository.Database, two tables for the interface of src/infra/file_repository.h.
--   * src/storage/storage_local.c: Storage.Local, and Storage.FileName and Storage.Sha256 for names,
--     MIME types and digests. src/storage/storage_supabase.c: Storage.Supabase, over Http. Both fill
--     the table of src/storage/storage_backend.h; Storage.Contents is what a client of the table may
--     ask of it, which DocumentStore takes as a hypothesis.
--   * src/infra/document_store.c: DocumentStore.
--   * src/config.h and src/config.c: Config. Load is `config_load`, Users and Models its two lists.
--   * src/utils.c: Utils, with Base64, percent-encoding and the growing buffer.
--   * src/infra/event_bus.c: EventBus.
--   * src/main.c: Main, the order in which the parts are made and freed.
--   * src/db/db.h, src/db/db_backend.h, src/storage/storage_backend.h and src/ocr/ocr_service.h:
--     Backend, one record for each table of functions.
-- CText has C strings and the calls of the C library that the program makes on them, Prelude the
-- shared names and lemmas, Tests the tests, in a world that Tests.World builds.
--
-- A call is a function from a world to a result and a world. The world is a parameter: it is
-- changed only by the functions of the records, so a theorem about a world states what it asks of
-- them. A NULL pointer is `none`. A `char *` is the list of its bytes up to the NUL, and `copy_to`
-- is what `snprintf` with `%s` leaves in a buffer. `int64_t` is ℤ, and words of SHA-256 and sizes of
-- the growing buffer wrap around as `% 2 ^ 32` and `% 2 ^ 64`.
--
-- What is not under src stays a parameter: `double` with the operations the program makes on it, and
-- cJSON with the calls the program makes of it (Extern), libcurl (`Curl`), SQLite (`Sqlite`),
-- libpq (`Libpq`), the calls of the file system (`FileSystem`), the environment, and the clocks.
--
-- Fuel: the digits of `n` are printed with `n + 1` rounds, which are more than it has digits; the
-- growing buffer has 64 rounds of doubling, which reach every size below 2 ^ 62. The loop of
-- `http_client_execute` has `max_retries + 1` rounds, and a loop that is still running behind them
-- has no result; they are enough since `should_retry` refuses one more. The two loops over rows of SQLite have a bound on the number of steps, and
-- `bot_start` the number of its rounds, since it runs until it is stopped. All other loops are
-- recursion on a list or on the places left in an array.
--
-- Not modelled: logging and allocation failures (except in the growing buffer, where it is an
-- argument); hooks, logging and times of the HTTP client; what an SQL statement does to the tables.
-- The vendored cJSON is a parameter. A body of HTTP that is read as a string is taken to hold no NUL.
-- Handlers of the event bus that change the bus while it calls them are left out.
mod Prelude
pub mod CText
pub mod Extern
pub mod Backend
pub mod Config
pub mod Storage
pub mod Http
pub mod Gemini
pub mod PromptFetcher
pub mod Sqlite
pub mod Postgres
pub mod DocumentStore
pub mod Main
pub mod Utils
pub mod EventBus
pub mod Reply
pub mod Processor
pub mod Repository
pub mod Bot
mod Tests
