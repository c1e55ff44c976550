-- ===== src/Reply/Builder.antt =====
-- `reply_builder_format_receipt`, over the `double`s that it prints and compares.
pub mod Bounds
use kaufbot.Prelude.{
  ℕ, ◌+◌, Bool, true, false, ◌&&◌, List, [], ◌∷◌, ◌++◌, length, leb, if◌then◌else◌, ℤ, pos, leb_ℤ,
  ltb_ℤ,
}
use kaufbot.CText.{Text, codes}
use kaufbot.CText.Decimal.{show_ℕ, show_ℤ}
use kaufbot.Extern.{Doubles}
use kaufbot.Reply.Writer.{Buffer, empty, append, append_all}

abbrev pub max_reply_items : ℕ
max_reply_items = 30

abbrev pub max_item_name_len : ℕ
max_item_name_len = 128

abbrev pub max_store_name_len : ℕ
max_store_name_len = 128

abbrev pub max_download_url : ℕ
max_download_url = 512

abbrev pub max_reply_text_len : ℕ
max_reply_text_len = 4096

-- `ReplyMessage`, with what the calls of `snprintf` did to its buffer.
pub record ReplyMessage : Type 0 where
  pub out : Buffer
  pub file_id : ℤ

abbrev pub is_empty : Text → Bool
is_empty [] = true
is_empty (c ∷ cs) = false

module _ (d : Doubles) where
  open d use {
    Double, zero_d, one_d, half_cent, cent_and_half, just_over_one, add_d, sub_d, mul_d, neg_d,
    lt_d, show_2f,
  }

  pub record ReplyLineItem : Type 0 where
    pub original_name : Text
    pub english_translation : Text
    pub unit_of_measure : Text
    pub category : Text
    pub price : Double
    pub amount : Double
    pub discount : Double

  -- The items in use stand in `items`, so `item_count` is their number.
  pub record ReceiptData : Type 0 where
    pub store_name : Text
    pub is_receipt : Bool
    pub image_quality : ℤ
    pub reported_item_count : ℤ
    pub total_sum : Double
    pub items : List ReplyLineItem
    pub file_id : ℤ
    pub tokens_used : ℤ
    pub original_url : Text
    pub ocr_url : Text
    pub json_url : Text

  -- `diff_is_significant`
  diff_is_significant : Double → Double → Bool
  diff_is_significant a b =
      let diff = sub_d a b in lt_d cent_and_half (if lt_d diff zero_d then neg_d diff else diff)

  -- `item->price * item->amount - item->discount`
  unfoldable pub line_total : ReplyLineItem → Double
  line_total item = sub_d (mul_d item.price item.amount) item.discount

  -- The header of the `i`-th item, from 0.
  unfoldable pub item_header : ℕ → ReplyLineItem → Text
  item_header i item =
      let name =
        if is_empty item.english_translation
        then item.original_name
        else item.english_translation in
      let start = codes "  `" ++ (show_ℕ (i + 1) ++ (codes ".` " ++ name)) in
      if is_empty item.category
      then start ++ codes "\n"
      else start ++ (codes " _" ++ (item.category ++ codes "_\n"))

  unfoldable pub price_line : ReplyLineItem → Text
  unfolding line_total
  price_line item =
      let uom = if is_empty item.unit_of_measure then codes "pcs" else item.unit_of_measure in
      let lt = show_2f (line_total item) in
      let price = show_2f item.price in
      let discount = show_2f item.discount in
      let times = codes "` x `" ++ (show_2f item.amount ++ (codes " " ++ uom)) in
      if lt_d half_cent item.discount && lt_d just_over_one item.amount
      then codes "      `"
        ++ (price
            ++ (times
                ++ (codes "` - `" ++ (discount ++ (codes "` = `" ++ (lt ++ codes " EUR`\n"))))))
      else if lt_d half_cent item.discount
      then codes "      `"
        ++ (price
            ++ (codes " EUR` - `" ++ (discount ++ (codes "` = `" ++ (lt ++ codes " EUR`\n")))))
      else if lt_d just_over_one item.amount
      then codes "      `" ++ (price ++ (times ++ (codes "` = `" ++ (lt ++ codes " EUR`\n"))))
      else codes "      `" ++ (lt ++ codes " EUR`\n")

  -- The loop over the items, which stops when `rem <= 0`, with `calculated_total`.
  unfoldable pub format_items : ℕ → Double → Buffer → List ReplyLineItem → Double × Buffer
  unfolding item_header price_line append
  format_items i total b [] = (total, b)
  format_items i total b (item ∷ rest) =
      let total' = add_d total (line_total item) in
      let b₁ = append max_reply_text_len b (item_header i item) in
      if leb max_reply_text_len b.pos
      then (total', b)
      else if leb max_reply_text_len b₁.pos
      then (total', b₁)
      else format_items (i + 1) total' (append max_reply_text_len b₁ (price_line item)) rest

  quality_line : ℤ → Text
  quality_line q =
      let mark : Text =
        0xF0
        ∷ 0x9F
        ∷ (if leb_ℤ (pos 80) q
            then 0x9F ∷ 0xA2 ∷ []
            else if leb_ℤ (pos 50) q
            then 0x9F ∷ 0xA1 ∷ []
            else 0x94 ∷ 0xB4 ∷ []) in
      mark ++ (codes " Quality: `" ++ (show_ℤ q ++ codes "%`\n"))

  -- The calls in front of the loop.
  unfoldable pub header_lines : ReceiptData → List Text
  unfolding quality_line
  header_lines r =
      let not_a_receipt : List Text =
        if r.is_receipt then [] else (0xE2 ∷ 0x9D ∷ 0x8C ∷ codes " *Not a receipt*\n\n") ∷ [] in
      let store = if is_empty r.store_name then codes "Unknown" else r.store_name in
      let store_line : Text = 0xF0 ∷ 0x9F ∷ 0x8F ∷ 0xAA ∷ (codes " *" ++ (store ++ codes "*\n")) in
      let quality : List Text =
        if leb_ℤ (pos 0) r.image_quality then quality_line r.image_quality ∷ [] else [] in
      let items_line : Text =
        0xF0 ∷ 0x9F ∷ 0x93 ∷ 0x8B ∷ (codes " Items: `" ++ show_ℕ (length r.items)) in
      let count : Text =
        if leb_ℤ (pos 0) r.reported_item_count
        then items_line
          ++ (codes "` (receipt says `" ++ (show_ℤ r.reported_item_count ++ codes "`)\n"))
        else items_line ++ codes "`\n" in
      not_a_receipt ++ (store_line ∷ (quality ++ (count ∷ codes "\n" ∷ [])))

  link : Text → Text → List Text
  link name url =
      if is_empty url
      then []
      else (codes "\n"
          ++ (0xF0
              ∷ 0x9F
              ∷ 0x93
              ∷ 0x84
              ∷ (codes " [" ++ (name ++ (codes "](" ++ (url ++ codes ")"))))))
        ∷ []

  -- The calls behind the loop.
  unfoldable pub footer_lines : ReceiptData → Double → List Text
  unfolding diff_is_significant link
  footer_lines r calculated =
      let total_line : Text =
        codes "\n"
        ++ (0xF0
            ∷ 0x9F
            ∷ 0x92
            ∷ 0xB0
            ∷ (codes " *Total:* `" ++ (show_2f r.total_sum ++ codes " EUR`"))) in
      let warning : List Text =
        if diff_is_significant calculated r.total_sum
        then (codes "\n"
            ++ (0xE2
                ∷ 0x9A
                ∷ 0xA0
                ∷ 0xEF
                ∷ 0xB8
                ∷ 0x8F
                ∷ (codes " Calculated `"
                    ++ (show_2f calculated
                        ++ (codes " EUR` " ++ (0xE2 ∷ 0x80 ∷ 0x94 ∷ codes " check totals"))))))
          ∷ []
        else [] in
      let tokens : List Text =
        if ltb_ℤ (pos 0) r.tokens_used
        then (codes "\n"
            ++ (0xE2 ∷ 0x9A ∷ 0xA1 ∷ (codes " Tokens: `" ++ (show_ℤ r.tokens_used ++ codes "`"))))
          ∷ []
        else [] in
      let links : List Text =
        if is_empty r.original_url && is_empty r.ocr_url && is_empty r.json_url
        then []
        else codes "\n"
          ∷ (link (codes "Original") r.original_url
              ++ (link (codes "OCR text") r.ocr_url ++ link (codes "JSON") r.json_url)) in
      total_line ∷ (warning ++ (tokens ++ links))

  -- `reply_builder_format_receipt`, on a message that could be allocated
  unfoldable pub format_receipt : ReceiptData → ReplyMessage
  unfolding header_lines format_items footer_lines append_all
  format_receipt r =
      let start = append_all max_reply_text_len empty (header_lines r) in
      let (calculated, listed) = format_items 0 zero_d start r.items in
      record {
        out = append_all max_reply_text_len listed (footer_lines r calculated);
        file_id = r.file_id;
      }
