-- ===== src/Gemini/Markdown.antt =====
-- `strip_markdown_json`, src/ocr/gemini.c.
pub mod Fences
use mathlib.Core.List.{reverse}
use kaufbot.Prelude.{ℕ, Bool, ◌||◌, Option, none, some, drop, ◌==◌, if◌then◌else◌}
use kaufbot.CText.{Text, codes, has_prefix, skip_while}
use kaufbot.CText.Search.{strstr}

unfoldable pub is_line_end : ℕ → Bool
is_line_end c = c == b'\n' || c == b'\r'

unfoldable pub is_json_space : ℕ → Bool
is_json_space c = c == b' ' || (c == b'\t' || (c == b'\n' || c == b'\r'))

-- What follows the fence that the text may begin with.
unfoldable pub after_fence : Text → Text
unfolding skip_while is_line_end
after_fence raw =
    if has_prefix raw (codes "```json")
    then skip_while is_line_end (drop 7 raw)
    else if has_prefix raw (codes "```")
    then skip_while is_line_end (drop 3 raw)
    else raw

cut_at : Text → Option (Text × Text) → Text
cut_at text none = text
cut_at text (some (before, at)) = before

-- The text up to the next fence.
unfoldable pub before_fence : Text → Text
unfolding cut_at
before_fence text = cut_at text (strstr (codes "```") text)

-- The two loops that trim it.
unfoldable pub trim_json : Text → Text
unfolding is_json_space
trim_json text = reverse (skip_while is_json_space (reverse (skip_while is_json_space text)))

unfoldable pub strip_markdown_json : Text → Text
unfolding after_fence before_fence trim_json
strip_markdown_json raw = trim_json (before_fence (after_fence raw))
