-- ===== src/Tests/Reply.antt =====
-- The theorems of the reply builder at concrete inputs.
use kaufbot.Prelude.{
  ℕ, zero, suc, ◌≤◌, ◌<◌, ◌≡◌, refl, true, false, List, [], ◌∷◌, length, pos, arith, ltb→lt,
}
use kaufbot.CText.{Text, codes}
use kaufbot.Reply.Builder.{
  ReceiptData, ReplyLineItem, max_reply_text_len, line_total, item_header, price_line, format_items,
  header_lines, footer_lines, format_receipt,
}
use kaufbot.Reply.Builder.Bounds.{
  listed, receipt_text, format_items_unwrapped, format_receipt_overflows, format_receipt_whole,
}
use kaufbot.Reply.Writer.{empty, append, append_all}
use kaufbot.Tests.World.{doubles}

abbrev copies : {A : Type 0} → ℕ → A → List A
copies zero x = []
copies (suc n) x = x ∷ copies n x

abbrev item_named : Text → ReplyLineItem doubles
item_named name = record {
  original_name = name;
  english_translation = [];
  unit_of_measure = [];
  category = codes "Food";
  price = 3;
  amount = 2;
  discount = 0;
}

abbrev receipt_of : List (ReplyLineItem doubles) → ReceiptData doubles
receipt_of items = record {
  store_name = codes "Store";
  is_receipt = true;
  image_quality = pos 90;
  reported_item_count = pos 1;
  total_sum = 6;
  items = items;
  file_id = pos 1;
  tokens_used = pos 7;
  original_url = [];
  ocr_url = [];
  json_url = [];
}

abbrev short : ReceiptData doubles
short = receipt_of (item_named (codes "MILK") ∷ [])

-- Thirty items, each with a name of 127 bytes: what the struct can hold.
abbrev long : ReceiptData doubles
long = receipt_of (copies 30 (item_named (copies 127 0x78)))

long_inside :
    (append_all max_reply_text_len empty (header_lines doubles long)).pos ≤ max_reply_text_len
unfolding append_all append header_lines kaufbot.CText.Decimal.show_ℤ
long_inside = omega (
  arith,
  ltb→lt (append_all max_reply_text_len empty (header_lines doubles long)).pos max_reply_text_len
      refl,
)

format_items_unwrapped_example : (listed doubles long).wrapped ≡ false
format_items_unwrapped_example = format_items_unwrapped doubles long long_inside

long-listed : max_reply_text_len < (listed doubles long).pos
unfolding format_items append_all append header_lines item_header price_line line_total
    kaufbot.CText.Decimal.show_ℤ
long-listed = ltb→lt max_reply_text_len (listed doubles long).pos refl

format_receipt_overflows_example : (format_receipt doubles long).out.wrapped ≡ true
format_receipt_overflows_example = format_receipt_overflows doubles long long-listed

short-receipt_text : length (receipt_text doubles short) < max_reply_text_len
unfolding header_lines item_header price_line line_total footer_lines kaufbot.CText.Decimal.show_ℤ
short-receipt_text = omega arith

format_receipt_whole_example :
    ((format_receipt doubles short).out.text ≡ receipt_text doubles short)
    × ((format_receipt doubles short).out.wrapped ≡ false)
format_receipt_whole_example = format_receipt_whole doubles short short-receipt_text
