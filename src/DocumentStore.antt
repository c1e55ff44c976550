-- ===== src/DocumentStore.antt =====
-- src/infra/document_store.c: documents in a storage, with texts beside them.
pub mod Texts
use kaufbot.Prelude.{
  ℕ, Bool, true, false, Option, none, some, List, [], ◌∷◌, ◌++◌, Call, pure, ◌>>=◌, ◌>>◌,
}
use kaufbot.CText.{Text, codes, copy_to}
use kaufbot.Backend.{Bytes, StorageBackend, max_filename}
use kaufbot.Storage.FileName.{LocalTime, extension, gen_filename}

-- The codes that the functions return, without `DOC_STORE_OK`.
pub data DocStoreError : Type 0 where
  doc_invalid_arg doc_storage : DocStoreError

pub data DocResult (A : Type 0) : Type 0 where
  doc_ok : A → DocResult A
  doc_err : DocStoreError → DocResult A

-- `snprintf(text_filename, sizeof(text_filename), "%s_%s.txt", doc_id, text_type)`
unfoldable pub text_filename : Text → Text → Text
text_filename doc_id text_type =
    copy_to max_filename (doc_id ++ (codes "_" ++ (text_type ++ codes ".txt")))

unfoldable pub stored : {A : Type 0} → A → Bool → DocResult A
stored result true = doc_ok result
stored result false = doc_err doc_storage

module _ {W : Type 0} (storage : StorageBackend W) where
  -- `storage_doc_store_document`; an argument that is NULL is `none`.
  unfoldable pub store_document :
      Call W LocalTime → Option Text → Option Bytes → ℕ → Call W (DocResult Text)
  unfolding stored extension
  store_document local_time (some original_name) (some b) doc_id_len = do
    now ← local_time
    let saved_name = gen_filename now (extension original_name) max_filename
    ok ← storage.save_file saved_name b
    pure (stored (copy_to doc_id_len saved_name) ok)
  store_document local_time _ _ doc_id_len = pure (doc_err doc_invalid_arg)

  -- `storage_doc_store_text`
  unfoldable pub store_text :
      Option Text → Option Text → Option Text → Call W (DocResult (Unit {0}))
  unfolding text_filename stored
  store_text (some doc_id) (some text_type) (some text) = do
    ok ← storage.save_text (text_filename doc_id text_type) text
    pure (stored tt ok)
  store_text _ _ _ = pure (doc_err doc_invalid_arg)

  -- `storage_doc_read_text`
  unfoldable pub doc_read_text : Option Text → Option Text → Call W (Option Text)
  unfolding text_filename
  doc_read_text (some doc_id) (some text_type) = storage.read_text (text_filename doc_id text_type)
  doc_read_text _ _ = pure none

  -- `storage_doc_delete`; the results of the storage are not read.
  unfoldable pub delete_document : Option Text → Call W (DocResult (Unit {0}))
  unfolding text_filename
  delete_document none = pure (doc_err doc_invalid_arg)
  delete_document (some doc_id) = do
    storage.delete_file doc_id
    storage.delete_file (text_filename doc_id (codes "ocr"))
    storage.delete_file (text_filename doc_id (codes "parsed"))
    pure (doc_ok tt)

  -- `storage_doc_exists`
  unfoldable pub doc_exists : Option Text → Call W Bool
  doc_exists none = pure false
  doc_exists (some doc_id) = storage.file_exists doc_id
