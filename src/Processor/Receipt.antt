-- ===== src/Processor/Receipt.antt =====
-- `fill_receipt_data` and `processor_build_reply` of src/processor.c.
pub mod Keeps
use kaufbot.Prelude.{
  ℕ, Bool, true, false, Option, none, some, [], map, take, ℤ, negsuc, Call, pure, ◌>>=◌,
  if◌then◌else◌,
}
use kaufbot.CText.{Text, codes, copy_to}
use kaufbot.Extern.{Doubles, Cjson, item, string_of, double_of, int_of, array_of}
use kaufbot.Backend.{StorageBackend, get_public_url}
use kaufbot.Reply.Builder.{
  ReplyLineItem, ReceiptData, ReplyMessage, is_empty, format_receipt, max_reply_items,
  max_item_name_len, max_store_name_len, max_download_url,
}

abbrev get_or_else {ℓ} : {A : Type ℓ} → A → Option A → A
get_or_else a none = a
get_or_else a (some b) = b

-- A field of `size` bytes that is set from a string node, and stays empty without one.
abbrev text_field : ℕ → Option Text → Text
text_field size none = []
text_field size (some t) = copy_to size t

-- A flag that only a `false` node clears.
module _ {d : Doubles} (cj : Cjson d) where
  not_false : Option cj.Node → Bool
  not_false none = true
  not_false (some node) = if cj.is_false node then false else true

  -- One round of the loop over `line_items`.
  line_item : cj.Node → ReplyLineItem d
  line_item node = record {
    original_name =
        text_field max_item_name_len (string_of cj (item cj (some node) (codes "original_name")));
    english_translation =
        text_field max_item_name_len
          (string_of cj (item cj (some node) (codes "english_translation")));
    unit_of_measure = text_field 32 (string_of cj (item cj (some node) (codes "unit_of_measure")));
    category = text_field 64 (string_of cj (item cj (some node) (codes "category")));
    price = get_or_else d.zero_d (double_of cj (item cj (some node) (codes "price")));
    amount = get_or_else d.one_d (double_of cj (item cj (some node) (codes "amount")));
    discount = get_or_else d.zero_d (double_of cj (item cj (some node) (codes "discount")));
  }

  -- `fill_receipt_data` up to the download URLs
  pub read_receipt : cj.Node → ℤ → ℤ → ReceiptData d
  unfolding not_false line_item
  read_receipt json file_id tokens =
      let root : Option cj.Node = some json in
      record {
        store_name =
            text_field max_store_name_len
              (string_of cj (item cj (item cj root (codes "store_information")) (codes "name")));
        is_receipt = not_false (item cj root (codes "is_receipt"));
        image_quality = get_or_else (negsuc 0) (int_of cj (item cj root (codes "image_quality")));
        reported_item_count =
            get_or_else (negsuc 0) (int_of cj (item cj root (codes "reported_item_count")));
        total_sum = get_or_else d.zero_d (double_of cj (item cj root (codes "total_sum")));
        items = map line_item (
            take max_reply_items
              (get_or_else [] (array_of cj (item cj root (codes "line_items")))));
        file_id = file_id;
        tokens_used = tokens;
        original_url = [];
        ocr_url = [];
        json_url = [];
      }

  module _ {W : Type 0} where
    -- A download URL, asked for if there is a name.
    url_of : Option (StorageBackend W) → Text → Call W Text
    url_of storage name = do
      url ← (if is_empty name then pure none else get_public_url storage name)
      pure (text_field max_download_url url)

    pub fill_receipt_data :
        cj.Node → ℤ → ℤ → Option (StorageBackend W) → Text → Text → Call W (ReceiptData d)
    unfolding read_receipt url_of
    fill_receipt_data json file_id tokens storage saved_name ocr_name = do
      original_url ← url_of storage saved_name
      ocr_url ← url_of storage ocr_name
      pure (record (read_receipt json file_id tokens) {
        original_url = original_url;
        ocr_url = ocr_url;
      })

    -- `processor_build_reply`
    unfoldable pub build_reply :
        cj.Node → ℤ → ℤ → Option (StorageBackend W) → Text → Text → Call W ReplyMessage
    unfolding fill_receipt_data
    build_reply json file_id tokens storage saved_name ocr_name = do
      receipt ← fill_receipt_data json file_id tokens storage saved_name ocr_name
      pure (format_receipt d receipt)
