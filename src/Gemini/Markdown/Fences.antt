-- ===== src/Gemini/Markdown/Fences.antt =====
-- What `strip_markdown_json` (src/ocr/gemini.c) takes off.
use mathlib.Core.List.{reverse, reverse-append, reverse-reverse, append_assoc}
use kaufbot.Prelude.{
  ℕ, ◌≡◌, refl, ap, sym, ◌∙◌, Bool, true, false, some, [], ◌∷◌, ◌++◌, ◌==◌, arith,
}
use kaufbot.CText.{Text, codes, has_prefix, skip_while}
use kaufbot.CText.Search.{strstr, Without}
use kaufbot.Gemini.Markdown.{
  is_line_end, is_json_space, after_fence, cut_at, before_fence, trim_json, strip_markdown_json,
}

abbrev pub fence : Text
fence = codes "```"

-- The text does not end with white space.
abbrev pub EndsInk : Text → Type 0
EndsInk t = skip_while is_json_space (reverse t) ≡ reverse t

strstr-fence :
    (t rest : Text) → Without b'`' t → strstr fence (t ++ (fence ++ rest)) ≡ some (t, fence ++ rest)
unfolding strstr has_prefix
strstr-fence [] rest h = refl
strstr-fence (x ∷ xs) rest h = rw (h.0) (rw (strstr-fence xs rest h.1) refl)

Without-append_one :
    (t : Text) (c : ℕ) → Without b'`' t → (c == b'`') ≡ false → Without b'`' (t ++ c ∷ [])
Without-append_one [] c h e = (e, tt)
Without-append_one (x ∷ xs) c h e = (h.0, Without-append_one xs c h.1 e)

line_end_lem : (c : ℕ) → is_json_space c ≡ false → is_line_end c ≡ false
unfolding is_json_space is_line_end
line_end_lem c h = ground (arith, h)

skip_while_stop :
    (p : ℕ → Bool) (c : ℕ) (rest : Text) → p c ≡ false → skip_while p (c ∷ rest) ≡ c ∷ rest
unfolding skip_while
skip_while_stop p c rest h = rw (h, skip_while) refl

skip_while_step :
    (p : ℕ → Bool) (c : ℕ) (rest : Text) → p c ≡ true → skip_while p (c ∷ rest) ≡ skip_while p rest
unfolding skip_while
skip_while_step p c rest h = rw (h, skip_while) refl

line_feed_lem : (is_line_end b'\n' ≡ true) × (is_json_space b'\n' ≡ true)
unfolding is_line_end is_json_space
line_feed_lem = (refl, refl)

after_fence_lem :
    (c : ℕ) (rest : Text)
    → is_json_space c ≡ false
    → after_fence (codes "```json" ++ b'\n' ∷ c ∷ rest) ≡ c ∷ rest
unfolding after_fence has_prefix
after_fence_lem c rest h =
    skip_while_step is_line_end b'\n' (c ∷ rest) line_feed_lem.0
    ∙ skip_while_stop is_line_end c rest (line_end_lem c h)

trim_json_lem :
    (c : ℕ) (cs : Text)
    → is_json_space c ≡ false
    → EndsInk (c ∷ cs)
    → trim_json ((c ∷ cs) ++ b'\n' ∷ []) ≡ c ∷ cs
unfolding trim_json
trim_json_lem c cs h ink =
    ap (λ t. reverse (skip_while is_json_space (reverse t)))
      (skip_while_stop is_json_space c (cs ++ b'\n' ∷ []) h)
    ∙ ap (λ t. reverse (skip_while is_json_space t)) (reverse-append (c ∷ cs) (b'\n' ∷ []))
    ∙ ap reverse (skip_while_step is_json_space b'\n' (reverse (c ∷ cs)) line_feed_lem.1 ∙ ink)
    ∙ reverse-reverse (c ∷ cs)

before_fence_lem :
    (t rest : Text) → Without b'`' t → before_fence (t ++ b'\n' ∷ (fence ++ rest)) ≡ t ++ b'\n' ∷ []
unfolding before_fence cut_at
before_fence_lem t rest h =
    ap before_fence (sym (append_assoc t (b'\n' ∷ []) (fence ++ rest)))
    ∙ ap (cut_at ((t ++ b'\n' ∷ []) ++ (fence ++ rest)))
        (strstr-fence (t ++ b'\n' ∷ []) rest (Without-append_one t b'\n' h refl))

-- A reply that is a text in a fence of Markdown, with the language and behind it anything, is taken
-- down to that text. The text has no backquote and begins and ends with ink.
pub strip_markdown_json-fenced :
    (c : ℕ) (cs rest : Text)
    → is_json_space c ≡ false
    → EndsInk (c ∷ cs)
    → Without b'`' (c ∷ cs)
    → strip_markdown_json (codes "```json" ++ b'\n' ∷ ((c ∷ cs) ++ b'\n' ∷ (fence ++ rest)))
      ≡ c ∷ cs
unfolding strip_markdown_json
strip_markdown_json-fenced c cs rest h ink plain =
    ap (λ t. trim_json (before_fence t)) (after_fence_lem c (cs ++ b'\n' ∷ (fence ++ rest)) h)
    ∙ ap trim_json (before_fence_lem (c ∷ cs) rest plain)
    ∙ trim_json_lem c cs h ink
