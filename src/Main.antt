-- ===== src/Main.antt =====
-- src/main.c: the parts of the program, made in order and freed.
pub mod Freed
use kaufbot.Prelude.{ℕ, Bool, true, false, Call, pure, ◌>>=◌, ◌>>◌}

-- What the container holds.
pub data Part : Type 0 where
  part_storage part_db part_repo part_ocr part_processor part_bot : Part

-- `AppContainer`, without the configuration: which of its pointers are not NULL.
pub record AppContainer : Type 0 where
  pub storage : Bool
  pub db : Bool
  pub repo : Bool
  pub ocr : Bool
  pub processor : Bool
  pub bot : Bool

-- The functions of the parts: `make` is `storage_backend_open`, `db_backend_open`,
-- `file_repository_db_backend`, `ocr_service_gemini_new`, `processor_new` and `bot_new`, true for a
-- pointer that is not NULL, and `free` the ones that free what they make.
pub record Parts (W : Type 0) : Type 0 where
  pub config_load : Call W Bool
  pub ensure_dirs : Call W Bool
  pub make : Part → Call W Bool
  pub free : Part → Call W (Unit {0})
  pub bot_notify_startup : Call W (Unit {0})
  pub bot_start : Call W (Unit {0})

-- `memset(&container, 0, sizeof(container))`
abbrev pub empty_container : AppContainer
empty_container = record {
  storage = false;
  db = false;
  repo = false;
  ocr = false;
  processor = false;
  bot = false;
}

unfoldable pub with_part : Part → AppContainer → AppContainer
with_part part_storage c = record c { storage = true }
with_part part_db c = record c { db = true }
with_part part_repo c = record c { repo = true }
with_part part_ocr c = record c { ocr = true }
with_part part_processor c = record c { processor = true }
with_part part_bot c = record c { bot = true }

module _ {W : Type 0} (parts : Parts W) where
  unfoldable pub free_if : Bool → Part → Call W (Unit {0})
  free_if true p = parts.free p
  free_if false p = pure tt

  -- `container_destroy`
  unfoldable pub container_destroy : AppContainer → Call W (Unit {0})
  unfolding free_if
  container_destroy c = do
    free_if c.bot part_bot
    free_if c.processor part_processor
    free_if c.ocr part_ocr
    free_if c.repo part_repo
    free_if c.db part_db
    free_if c.storage part_storage

  -- A function that goes on where a call has returned 0 or a pointer.
  unfoldable pub go_on :
      (AppContainer → Call W (Bool × AppContainer))
      → AppContainer
      → AppContainer
      → Bool
      → Call W (Bool × AppContainer)
  go_on rest c c' true = rest c'
  go_on rest c c' false = pure (false, c)

  unfoldable pub make_part :
      Part
      → (AppContainer → Call W (Bool × AppContainer))
      → AppContainer
      → Call W (Bool × AppContainer)
  unfolding go_on with_part
  make_part p rest c = do ok ← parts.make p; go_on rest c (with_part p c) ok

  unfoldable pub checked_call :
      Call W Bool
      → (AppContainer → Call W (Bool × AppContainer))
      → AppContainer
      → Call W (Bool × AppContainer)
  unfolding go_on
  checked_call call rest c = do ok ← call; go_on rest c c ok

  -- `container_init_services`
  unfoldable pub container_init_services : AppContainer → Call W (Bool × AppContainer)
  unfolding make_part
  container_init_services =
      make_part part_repo
        (make_part part_ocr (make_part part_processor (make_part part_bot (λ c. pure (true, c)))))

  -- `container_init`, from the steps of `container_init_infra` on
  unfoldable pub container_init : AppContainer → Call W (Bool × AppContainer)
  unfolding checked_call make_part container_init_services
  container_init = checked_call parts.config_load (
      make_part part_storage
        (checked_call parts.ensure_dirs (make_part part_db container_init_services)))

  after_init : Bool × AppContainer → Call W Bool
  unfolding container_destroy
  after_init (false, c) = do container_destroy c; pure false
  after_init (true, c) = do
    parts.bot_notify_startup
    parts.bot_start
    container_destroy c
    pure true

  -- `main`; `true` is `EXIT_SUCCESS`. The signals only end `bot_start`.
  unfoldable pub main : Call W Bool
  unfolding container_init after_init
  main = do r ← container_init empty_container; after_init r
