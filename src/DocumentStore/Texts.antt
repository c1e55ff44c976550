-- ===== src/DocumentStore/Texts.antt =====
-- A text of a document, src/infra/document_store.c, in a storage that holds files.
use kaufbot.Prelude.{
  ◌≡◌, ◌≢◌, ◌≤◌, ◌+◌, ◌⊎◌, inl, inr, refl, ap, sym, ◌∙◌, Bool, true, false, some, [], ◌++◌, arith,
  length, take, drop, take-append, drop-append, length-append, take-eq_of_le,
}
use kaufbot.CText.{Text, codes, copy_to, length-copy_to}
use kaufbot.Backend.{StorageBackend}
use kaufbot.Storage.Contents.{Contents, IsName, read-save, read-save_other}
use kaufbot.DocumentStore.{doc_ok, text_filename, stored, store_text, doc_read_text}

IsName-text_filename : (doc_id text_type : Text) → IsName (text_filename doc_id text_type)
unfolding text_filename
IsName-text_filename doc_id text_type =
    omega (arith, length-copy_to 256 (doc_id ++ (codes "_" ++ (text_type ++ codes ".txt"))))

stored-doc_ok : {A : Type 0} (a : A) (ok : Bool) → stored a ok ≡ doc_ok a → ok ≡ true
unfolding stored
stored-doc_ok a true h = refl
stored-doc_ok a false h = absurd (cc)

-- The name of a text is whole.
text_filename_lem :
    (doc_id text_type : Text)
    → length doc_id + length text_type ≤ 250
    → text_filename doc_id text_type ≡ doc_id ++ (codes "_" ++ (text_type ++ codes ".txt"))
unfolding text_filename copy_to
text_filename_lem doc_id text_type h =
    take-eq_of_le 255 (doc_id ++ (codes "_" ++ (text_type ++ codes ".txt"))) (
      omega (
        arith,
        length-append {0} doc_id (codes "_" ++ (text_type ++ codes ".txt")),
        length-append {0} text_type (codes ".txt"),
      ))

append_cancel_left : (a b c : Text) → a ++ b ≡ a ++ c → b ≡ c
append_cancel_left a b c e = sym (drop-append a b) ∙ ap (drop (length a)) e ∙ drop-append a c

append_cancel_right : (a b c : Text) → a ++ c ≡ b ++ c → a ≡ b
append_cancel_right a b c e =
    let same : length a ≡ length b =
      omega (arith, length-append {0} a c, length-append {0} b c, ap (length {0}) e) in
    sym (take-append a c)
    ∙ ap (take (length a)) e
    ∙ ap (λ n. take n (b ++ c)) same
    ∙ take-append b c

-- The name of another text: one of another type of the same document, or one of the same type of
-- another document.
unfoldable pub IsOther : (doc_id text_type other_id other_type : Text) → Type 0
IsOther doc_id text_type other_id other_type =
    ((other_id ≡ doc_id) × (other_type ≢ text_type))
    ⊎ ((other_type ≡ text_type) × (other_id ≢ doc_id))

text_filename-IsOther :
    (doc_id text_type other_id other_type : Text)
    → length doc_id + length text_type ≤ 250
    → length other_id + length other_type ≤ 250
    → IsOther doc_id text_type other_id other_type
    → text_filename other_id other_type ≢ text_filename doc_id text_type
unfolding IsOther
text_filename-IsOther doc_id text_type other_id other_type fits fits' other e =
    let txt = codes ".txt" in
    let whole : other_id ++ (codes "_" ++ (other_type ++ txt))
        ≡ doc_id ++ (codes "_" ++ (text_type ++ txt)) =
      sym (text_filename_lem other_id other_type fits')
      ∙ e
      ∙ text_filename_lem doc_id text_type fits in
    elim other [
      | inl (id, ne) ↦
          let rest =
            append_cancel_left doc_id (codes "_" ++ (other_type ++ txt))
              (codes "_" ++ (text_type ++ txt))
              (ap (λ i. i ++ (codes "_" ++ (other_type ++ txt))) (sym id) ∙ whole) in
          ne (
            append_cancel_right other_type text_type txt
              (append_cancel_left (codes "_") (other_type ++ txt) (text_type ++ txt) rest))
      | inr (type_, ne) ↦ ne (
          append_cancel_right other_id doc_id (codes "_" ++ (text_type ++ txt))
            (ap (λ t. other_id ++ (codes "_" ++ (t ++ txt))) (sym type_) ∙ whole))
    ]

-- In a storage that holds files by names and whose reads do not fail, a text that is not empty and
-- that was stored for a document is read back under the
-- same type, and what is read of another text, one of another type of the document or one of the
-- same type of another document, stays as it was: the two are different files. The names of the two
-- fit their buffers, with at most 250 bytes in the document's and the type's together.
pub doc_read_text-store_text :
    {W : Type 0} (storage : StorageBackend W) (c : Contents storage)
    (doc_id text_type other_id other_type text : Text) (w : W)
    → length doc_id + length text_type ≤ 250
    → length other_id + length other_type ≤ 250
    → IsOther doc_id text_type other_id other_type
    → text ≢ []
    → (store_text storage (some doc_id) (some text_type) (some text) w).0 ≡ doc_ok tt
    → let w' = (store_text storage (some doc_id) (some text_type) (some text) w).1 in
      ((doc_read_text storage (some doc_id) (some text_type) w').0 ≡ some text)
      × ((doc_read_text storage (some other_id) (some other_type) w').0
          ≡ (doc_read_text storage (some other_id) (some other_type) w).0)
unfolding store_text doc_read_text
doc_read_text-store_text storage c doc_id text_type other_id other_type text w fits fits' other full
      h =
    let name = text_filename doc_id text_type in
    let name' = text_filename other_id other_type in
    let ne = text_filename-IsOther doc_id text_type other_id other_type fits fits' other in
    let n = IsName-text_filename doc_id text_type in
    let n' = IsName-text_filename other_id other_type in
    let same = c.save_text_lem name text w in
    let saved = ap (λ r. r.0) (sym same) ∙ stored-doc_ok tt (storage.save_text name text w).0 h in
    (
      ap (λ r. (storage.read_text name r.1).0) same
          ∙ ap (λ r. r.0) (c.read_text_lem name (storage.save_file name text w).1)
          ∙ ap (λ r. r.0) (read-save c name text w n full saved),
      ap (λ r. (storage.read_text name' r.1).0) same
          ∙ ap (λ r. r.0) (c.read_text_lem name' (storage.save_file name text w).1)
          ∙ read-save_other c name name' text w n n' ne
          ∙ sym (ap (λ r. r.0) (c.read_text_lem name' w)),
    )
