-- ===== src/Bot/Listing/Bounds.antt =====
-- The replies to `/list` and `/models` (src/telegram/bot_commands.c) stay in their buffers.
use mathlib.Core.List.{append-nil, append_assoc}
use kaufbot.Prelude.{
  ℕ, zero, suc, ◌+◌, ◌*◌, ◌-◌, ◌≤◌, ◌<◌, ◌≡◌, refl, ap, ◌∙◌, List, [], ◌∷◌, ◌++◌, true, false,
  length, take, length-append, length-take, arith, take-append_of_le, take-eq_of_le,
  take-append_take, sym, leb, ltb, Bool-cases, inl, inr,
}
use kaufbot.CText.{Text, codes}
use kaufbot.CText.Decimal.{show_ℕ}
use kaufbot.Backend.{FileRecord}
use kaufbot.Reply.Writer.{Buffer, empty, append}
use kaufbot.Reply.Writer.Bounds.{IsWhole, append-IsWhole, pos-append}
use kaufbot.Config.Models.{read_models}
use kaufbot.Config.Models.Bounds.{FitsModel, Listed, read_models-Listed}
use kaufbot.Bot.Defs.{max_reply_len}
use kaufbot.Bot.Listing.{
  max_list_entries, ListContext, list_entry, list_callback, list_all, list_reply, model_entry,
  list_models, first_model, models_usage, models_reply,
}

length-show_digit : (n : ℕ) → n < 10 → length (show_ℕ n) ≡ 1
unfolding show_ℕ
length-show_digit n small = ground arith

length-model_entry : (i : ℕ) (m : Text) → i < 9 → FitsModel m → length (model_entry i m) ≤ 135
unfolding model_entry
length-model_entry i m small fits = omega (
  arith,
  length-show_digit (i + 1) (omega arith),
  length-append (show_ℕ (i + 1)) (codes ". `" ++ (m ++ codes "`\n")),
  length-append m (codes "`\n"),
)

length-models_usage : (m : Text) → FitsModel m → length (models_usage m) ≤ 250
unfolding models_usage
length-models_usage m fits = omega (arith, length-append m (codes " <id>"))

list_models-IsWhole :
    (n i : ℕ) (b : Buffer) (ms : List Text)
    → i + n ≤ 8
    → Listed n ms
    → IsWhole max_reply_len b
    → b.pos + 135 * n < max_reply_len
    → IsWhole max_reply_len (list_models i b ms) × ((list_models i b ms).pos ≤ b.pos + 135 * n)
unfolding list_models
list_models-IsWhole n i b [] small l v room = (v, omega arith)
list_models-IsWhole zero i b (m ∷ ms) small l v room = absurd (omega (arith, l.0))
list_models-IsWhole (suc n) i b (m ∷ ms) small l v room =
    let b' = append max_reply_len b (model_entry i m) in
    let short = length-model_entry i m (omega arith) l.1.0 in
    let at : b'.pos ≡ b.pos + length (model_entry i m) =
      pos-append max_reply_len b (model_entry i m) in
    let v' = (append-IsWhole max_reply_len b (model_entry i m) v (omega arith)).0 in
    let (v'', far) =
      list_models-IsWhole n (i + 1) b' ms (omega arith) (omega (arith, l.0), l.1.1) v'
        (omega arith) in
    let open_ : leb max_reply_len b.pos ≡ false = ground (arith, v.inside) in
    rw open_ (v'', omega arith)

first_model-FitsModel : (ms : List Text) → Listed 8 ms → FitsModel (first_model ms)
first_model-FitsModel [] l = omega arith
first_model-FitsModel (m ∷ ms) l = l.1.0

models_reply-IsWhole : (ms : List Text) → Listed 8 ms → IsWhole max_reply_len (models_reply ms)
unfolding models_reply
models_reply-IsWhole ms l =
    let header = codes "Available Gemini models:\n\n" in
    let start = append max_reply_len empty header in
    let empty_whole : IsWhole max_reply_len empty = record {
      at_end = refl;
      inside = omega arith;
      unwrapped = refl;
    } in
    let begun = (append-IsWhole max_reply_len empty header empty_whole (omega arith)).0 in
    let at : start.pos ≡ 26 = pos-append max_reply_len empty header in
    let (v, far) = list_models-IsWhole 8 0 start ms (omega arith) l begun (omega arith) in
    (append-IsWhole max_reply_len (list_models 0 start ms) (models_usage (first_model ms)) v
      (omega (arith, length-models_usage (first_model ms) (first_model-FitsModel ms l)))).0

-- Whatever list of models the configuration holds, the reply to `/models` fits its buffer of 4096
-- bytes: no call is cut, and none goes behind the buffer.
pub models_reply-read_models :
    (csv model : Text) → IsWhole max_reply_len (models_reply (read_models csv model))
models_reply-read_models csv model =
    models_reply-IsWhole (read_models csv model) (read_models-Listed csv model)

-- The buffer of `list_cb`: what it holds, up to the position, is a string that fits.
abbrev IsOpen : ListContext → Type 0
IsOpen c = (c.pos ≡ length c.text) × (c.pos < c.size)

list_callback_text :
    (c : ListContext) (rec : FileRecord)
    → IsOpen c
    → c.count < max_list_entries
    → IsOpen (list_callback c rec)
      × ((list_callback c rec).text ≡ take (c.size - 1) (c.text ++ list_entry rec))
      × ((list_callback c rec).size ≡ c.size)
      × ((list_callback c rec).count ≡ c.count + 1)
unfolding list_callback
list_callback_text c rec (at, room) few =
    let line = list_entry rec in
    let more : leb max_list_entries c.count ≡ false = ground arith in
    let open_ : leb c.size c.pos ≡ false = ground arith in
    let cut : take (c.size - 1) (c.text ++ line) ≡ c.text ++ take (c.size - c.pos - 1) line =
      take-append_of_le (c.size - 1) c.text line (omega arith)
      ∙ ap (λ n. c.text ++ take n line) (omega arith) in
    let size' : length (c.text ++ take (c.size - c.pos - 1) line)
        ≡ length c.text + length (take (c.size - c.pos - 1) line) =
      length-append c.text (take (c.size - c.pos - 1) line) in
    let kept = length-take (c.size - c.pos - 1) line in
    elim (Bool-cases (ltb (length line) (c.size - c.pos))) [
      | inl fits ↦ rw (more, open_, fits) ((ground arith, ground arith), sym cut, refl, refl)
      | inr over ↦ rw (more, open_, over) ((ground arith, ground arith), sym cut, refl, refl)
    ]

-- The entries, one behind the other.
abbrev pub entries : List FileRecord → Text
entries [] = []
entries (rec ∷ rest) = list_entry rec ++ entries rest

list_callback_full :
    (c : ListContext) (rec : FileRecord) → max_list_entries ≤ c.count → list_callback c rec ≡ c
unfolding list_callback
list_callback_full c rec full =
    let e : leb max_list_entries c.count ≡ true = ground arith in rw e refl

IsOpen-whole : (c : ListContext) → IsOpen c → c.text ≡ take (c.size - 1) (c.text ++ [])
IsOpen-whole c (at, room) =
    sym
      (ap (take (c.size - 1)) (append-nil c.text) ∙ take-eq_of_le (c.size - 1) c.text (omega arith))

list_all_text :
    (left : ℕ) (c : ListContext) (recs : List FileRecord)
    → IsOpen c
    → c.count + left ≡ max_list_entries
    → (list_all c recs).text ≡ take (c.size - 1) (c.text ++ entries (take left recs))
unfolding list_all
list_all_text zero c [] h few = IsOpen-whole c h
list_all_text (suc left) c [] h few = IsOpen-whole c h
list_all_text zero c (rec ∷ rest) h few =
    ap (λ c'. (list_all c' rest).text) (list_callback_full c rec (omega arith))
    ∙ list_all_text zero c rest h few
list_all_text (suc left) c (rec ∷ rest) h few =
    let (h', text, size, count) = list_callback_text c rec h (omega arith) in
    let ih = list_all_text left (list_callback c rec) rest h' (omega arith) in
    let line = list_entry rec in
    let more = entries (take left rest) in
    ih
    ∙ ap (λ n. take (n - 1) ((list_callback c rec).text ++ more)) size
    ∙ ap (λ t. take (c.size - 1) (t ++ more)) text
    ∙ take-append_take (c.size - 1) (c.text ++ line) more
    ∙ ap (take (c.size - 1)) (append_assoc c.text line more)

-- The reply to `/list` is the header with the entries of the first ten records, cut to the 4095
-- bytes that its buffer holds.
pub list_reply_text :
    (recs : List FileRecord)
    → list_reply recs ≡ take 4095 (codes "Recent uploads:\n\n" ++ entries (take 10 recs))
unfolding list_reply
list_reply_text recs =
    list_all_text 10
      (record { text = codes "Recent uploads:\n\n"; pos = 17; size = max_reply_len; count = 0 })
      recs (refl, omega arith) refl
