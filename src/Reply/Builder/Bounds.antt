-- ===== src/Reply/Builder/Bounds.antt =====
-- When `reply_builder_format_receipt` (src/telegram/reply_builder.c) stays in its buffer.
use mathlib.Core.List.{append-nil, append_assoc}
use kaufbot.Prelude.{
  ℕ, ◌+◌, ◌≤◌, ◌<◌, ◌≡◌, refl, ap, sym, ◌∙◌, true, false, List, [], ◌∷◌, ◌++◌, length, arith, leb,
  length-append, Bool-cases, inl, inr,
}
use kaufbot.CText.{Text}
use kaufbot.Extern.{Doubles}
use kaufbot.Reply.Writer.{Buffer, empty, append, append_all}
use kaufbot.Reply.Writer.Bounds.{
  joined, IsWhole, append-IsWhole, append_all-IsWhole, pos-append, append_unwrapped,
  append_all_unwrapped, append_all_past,
}
use kaufbot.Reply.Builder.{
  ReceiptData, ReplyLineItem, max_reply_text_len, line_total, item_header, price_line, format_items,
  header_lines, footer_lines, format_receipt,
}

module _ (d : Doubles) where
  -- The buffer behind the loop over the items.
  abbrev pub listed : ReceiptData d → Buffer
  listed r =
      (format_items d 0 d.zero_d (append_all max_reply_text_len empty (header_lines d r)) r.items).1

  format_items_inside :
      (i : ℕ) (total : d.Double) (b : Buffer) (items : List (ReplyLineItem d))
      → b.wrapped ≡ false
      → (format_items d i total b items).1.wrapped ≡ false
  unfolding format_items
  format_items_inside i total b [] h = h
  format_items_inside i total b (item ∷ rest) h =
      let b₁ = append max_reply_text_len b (item_header d i item) in
      elim (Bool-cases (leb max_reply_text_len b.pos)) [
        | inl full ↦ rw full h
        | inr room ↦
            let h₁ : b₁.wrapped ≡ false =
              append_unwrapped max_reply_text_len b (item_header d i item) (ground arith) h in
            elim (Bool-cases (leb max_reply_text_len b₁.pos)) [
              | inl full ↦ rw (room, full) h₁
              | inr more ↦
                  rw (room, more)
                    (format_items_inside (i + 1) _
                      (append max_reply_text_len b₁ (price_line d item)) rest
                      (append_unwrapped max_reply_text_len b₁ (price_line d item) (ground arith)
                        h₁))
            ]
      ]

  -- However many items a receipt has and however long they are, no call of `snprintf` up to the end
  -- of the loop over the items goes behind the buffer, if the calls in front of the loop ask for no
  -- more than its 4096 bytes.
  pub format_items_unwrapped :
      (r : ReceiptData d)
      → (append_all max_reply_text_len empty (header_lines d r)).pos ≤ max_reply_text_len
      → (listed r).wrapped ≡ false
  format_items_unwrapped r inside =
      let start = append_all max_reply_text_len empty (header_lines d r) in
      format_items_inside 0 d.zero_d start r.items
        (append_all_unwrapped max_reply_text_len empty (header_lines d r) refl inside)

  -- A receipt whose header and items ask for more than the 4096 bytes of the buffer makes a call of
  -- `snprintf` behind the buffer, with a size that has wrapped around.
  pub format_receipt_overflows :
      (r : ReceiptData d)
      → max_reply_text_len < (listed r).pos
      → (format_receipt d r).out.wrapped ≡ true
  unfolding format_receipt
  format_receipt_overflows r past =
      let start = append_all max_reply_text_len empty (header_lines d r) in
      let calculated = (format_items d 0 d.zero_d start r.items).0 in
      append_all_past max_reply_text_len (listed r) (footer_lines d r calculated)
        (unfold footer_lines in refl) past

  -- The calls in the loop, if none is left out.
  abbrev pub item_segments : ℕ → List (ReplyLineItem d) → List Text
  item_segments i [] = []
  item_segments i (item ∷ rest) =
      item_header d i item ∷ price_line d item ∷ item_segments (i + 1) rest

  abbrev pub sum_of_lines : d.Double → List (ReplyLineItem d) → d.Double
  sum_of_lines total [] = total
  sum_of_lines total (item ∷ rest) = sum_of_lines (d.add_d total (line_total d item)) rest

  -- The whole reply: header, every item, and the footer with the sum of all lines.
  abbrev pub receipt_text : ReceiptData d → Text
  receipt_text r =
      joined (header_lines d r)
      ++ (joined (item_segments 0 r.items)
          ++ joined (footer_lines d r (sum_of_lines d.zero_d r.items)))

  format_items-IsWhole :
      (i : ℕ) (total : d.Double) (b : Buffer) (items : List (ReplyLineItem d))
      → IsWhole max_reply_text_len b
      → b.pos + length (joined (item_segments i items)) < max_reply_text_len
      → IsWhole max_reply_text_len (format_items d i total b items).1
        × ((format_items d i total b items).1.text ≡ b.text ++ joined (item_segments i items))
        × ((format_items d i total b items).0 ≡ sum_of_lines total items)
  unfolding format_items
  format_items-IsWhole i total b [] v fits = (v, sym (append-nil b.text), refl)
  format_items-IsWhole i total b (item ∷ rest) v fits =
      let h = item_header d i item in
      let p = price_line d item in
      let more = joined (item_segments (i + 1) rest) in
      let b₁ = append max_reply_text_len b h in
      let b₂ = append max_reply_text_len b₁ p in
      let sizes : b.pos + length h + length p + length more < max_reply_text_len =
        omega (arith, length-append h (p ++ more), length-append p more) in
      let at₁ : b₁.pos ≡ b.pos + length h = pos-append max_reply_text_len b h in
      let at₂ : b₂.pos ≡ b₁.pos + length p = pos-append max_reply_text_len b₁ p in
      let (v₁, e₁) = append-IsWhole max_reply_text_len b h v (omega arith) in
      let (v₂, e₂) = append-IsWhole max_reply_text_len b₁ p v₁ (omega arith) in
      let (v', e', s') =
        format_items-IsWhole (i + 1) (d.add_d total (line_total d item)) b₂ rest v₂ (omega arith) in
      let room : leb max_reply_text_len b.pos ≡ false = ground arith in
      let room₁ : leb max_reply_text_len b₁.pos ≡ false = ground arith in
      rw (room, room₁)
        (
          v',
          e'
              ∙ ap (λ t. t ++ more) (e₂ ∙ ap (λ t. t ++ p) e₁)
              ∙ append_assoc (b.text ++ h) p more
              ∙ append_assoc b.text h (p ++ more),
          s',
        )

  -- A receipt whose whole reply fits the buffer is printed whole, and no call goes behind it.
  pub format_receipt_whole :
      (r : ReceiptData d)
      → length (receipt_text r) < max_reply_text_len
      → ((format_receipt d r).out.text ≡ receipt_text r)
        × ((format_receipt d r).out.wrapped ≡ false)
  unfolding format_receipt
  format_receipt_whole r fits =
      let head = joined (header_lines d r) in
      let items = joined (item_segments 0 r.items) in
      let foot = joined (footer_lines d r (sum_of_lines d.zero_d r.items)) in
      let sizes : length head + length items + length foot < max_reply_text_len =
        omega (arith, length-append head (items ++ foot), length-append items foot) in
      let start = append_all max_reply_text_len empty (header_lines d r) in
      let empty_whole : IsWhole max_reply_text_len empty = record {
        at_end = refl;
        inside = omega arith;
        unwrapped = refl;
      } in
      let (v, e) =
        append_all-IsWhole max_reply_text_len empty (header_lines d r) empty_whole (omega arith) in
      let (v', e', s) =
        format_items-IsWhole 0 d.zero_d start r.items v (omega (arith, v.at_end, ap length e)) in
      let (v'', e'') =
        append_all-IsWhole max_reply_text_len (listed r)
          (footer_lines d r (sum_of_lines d.zero_d r.items)) v'
          (omega (arith, v'.at_end, ap length e', ap length e, length-append start.text items)) in
      rw s (
        e'' ∙ ap (λ t. t ++ foot) (e' ∙ ap (λ t. t ++ items) e) ∙ append_assoc head items foot,
        v''.unwrapped,
      )
