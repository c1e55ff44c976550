-- ===== src/Utils/Percent.antt =====
-- `url_percent_encode`, src/utils.c.
pub mod RoundTrip
use kaufbot.Prelude.{
  ℕ, ◌+◌, ◌-◌, ◌/◌, ◌%◌, Bool, ◌&&◌, ◌||◌, [], ◌∷◌, ltb, leb, ◌==◌, if◌then◌else◌,
}
use kaufbot.CText.{Text}

-- `is_unreserved`
unfoldable pub is_unreserved : ℕ → Bool
is_unreserved c =
    (leb b'A' c && leb c b'Z')
    || ((leb b'a' c && leb c b'z')
        || ((leb b'0' c && leb c b'9') || (c == b'-' || (c == b'_' || (c == b'.' || c == b'~')))))

-- `"0123456789ABCDEF"[n]`
unfoldable pub upper_hex : ℕ → ℕ
upper_hex n = if ltb n 10 then b'0' + n else b'A' + n - 10

-- The loop of `url_percent_encode`, on a `src` that is not NULL.
unfoldable pub percent_encode : Text → Text
unfolding is_unreserved upper_hex
percent_encode [] = []
percent_encode (c ∷ cs) =
    let rest = percent_encode cs in
    if is_unreserved c then c ∷ rest else b'%' ∷ upper_hex (c / 16) ∷ upper_hex (c % 16) ∷ rest
