-- ===== src/Processor/Defs.antt =====
-- `struct Processor` and the built-in duplicate strategy of src/processor.c.
use kaufbot.Prelude.{ℕ, Bool, false, Call}
use kaufbot.CText.{Text, copy_to}
use kaufbot.Storage.FileName.{LocalTime}
use kaufbot.Backend.{FileRecord, FileRepository, StorageBackend, OcrService}
use kaufbot.Processor.Messages.{duplicate_detected}

-- `DuplicateStrategyFn`: whether to go on, and what it writes to a buffer of the given size.
abbrev pub DuplicateStrategy : Type 0
DuplicateStrategy = FileRecord → ℕ → Bool × Text

-- `struct Processor`, with the clock that `storage_gen_filename` reads.
pub record Processor (W : Type 0) : Type 0 where
  pub repo : FileRepository W
  pub storage : StorageBackend W
  pub ocr : OcrService W
  pub dup_strategy : DuplicateStrategy
  pub local_time : Call W LocalTime

-- `strategy_notify_and_skip`
unfoldable pub notify_and_skip : DuplicateStrategy
notify_and_skip existing buf_len = (false, copy_to buf_len (duplicate_detected existing))

-- How a step of the pipeline ends: with a value to go on with, or with the reply.
pub data Step (A : Type 0) : Type 0 where
  proceed : A → Step A
  stop : Text → Step A
