-- ===== src/Storage/FileName.antt =====
-- `storage_gen_filename`, `storage_ocr_filename` and `storage_mime_type` of
-- src/storage/storage_local.c.
use kaufbot.Prelude.{
  ℕ, zero, suc, ◌+◌, ◌-◌, ◌≡◌, refl, Bool, ◌&&◌, ◌||◌, none, some, [], ◌∷◌, ◌++◌, map, leb, length,
  if◌then◌else◌,
}
use kaufbot.CText.{Text, codes, text_eq, copy_to}
use kaufbot.CText.Search.{strrchr}
use kaufbot.CText.Decimal.{show_ℕ}

-- What `localtime(time(NULL))` gives, with the month and the year counted as people do.
pub record LocalTime : Type 0 where
  pub year : ℕ
  pub month : ℕ
  pub day : ℕ
  pub hour : ℕ
  pub minute : ℕ
  pub second : ℕ

zeros : ℕ → Text → Text
zeros zero text = text
zeros (suc n) text = b'0' ∷ zeros n text

-- `%0*d` of a number that is not negative
unfoldable pub show_padded : ℕ → ℕ → Text
unfolding zeros
show_padded width n = let text = show_ℕ n in zeros (width - length text) text

-- The name without its extension.
unfoldable pub upload_stem : LocalTime → Text
unfolding show_padded
upload_stem t =
    codes "upload_"
    ++ (show_padded 4 t.year
        ++ (codes "-"
            ++ (show_padded 2 t.month
                ++ (codes "-"
                    ++ (show_padded 2 t.day
                        ++ (codes "_"
                            ++ (show_padded 2 t.hour
                                ++ (codes "_"
                                    ++ (show_padded 2 t.minute
                                        ++ (codes "_" ++ show_padded 2 t.second))))))))))

-- `storage_gen_filename(ext, out, out_len)` at the given time
unfoldable pub gen_filename : LocalTime → Text → ℕ → Text
gen_filename t ext out_len = copy_to out_len (upload_stem t ++ ext)

-- `const char *ext = strrchr(name, '.')`, and `ext ? ext : ""`
unfoldable pub extension : Text → Text
extension name = elim (strrchr b'.' name) [ none ↦ [] | some (before, at) ↦ at ]

-- The part in front of the extension, as `storage_ocr_filename` measures it by `base_len`.
unfoldable pub stem : Text → Text
stem name = elim (strrchr b'.' name) [ none ↦ name | some (before, at) ↦ before ]

-- `storage_ocr_filename(saved_name, out, out_len)`
unfoldable pub ocr_filename : Text → ℕ → Text
unfolding stem
ocr_filename saved_name out_len = copy_to out_len (stem saved_name ++ codes "_ocr_result.txt")

-- `tolower` in the C locale
to_lower : ℕ → ℕ
to_lower c = if leb b'A' c && leb c b'Z' then c + 32 else c

-- `strcasecmp(a, b) == 0`
unfoldable pub case_eq : Text → Text → Bool
unfolding to_lower
case_eq a b = text_eq (map to_lower a) (map to_lower b)

-- The type for an extension that is there.
mime_of : Text → Text
unfolding case_eq
mime_of ext =
    if case_eq ext (codes ".jpg") || case_eq ext (codes ".jpeg")
    then codes "image/jpeg"
    else if case_eq ext (codes ".png")
    then codes "image/png"
    else if case_eq ext (codes ".gif")
    then codes "image/gif"
    else if case_eq ext (codes ".webp")
    then codes "image/webp"
    else if case_eq ext (codes ".bmp")
    then codes "image/bmp"
    else if case_eq ext (codes ".tiff") || case_eq ext (codes ".tif")
    then codes "image/tiff"
    else if case_eq ext (codes ".pdf")
    then codes "application/pdf"
    else codes "application/octet-stream"

-- `storage_mime_type(filename)`
unfoldable pub mime_type : Text → Text
unfolding mime_of
mime_type filename = elim (strrchr b'.' filename) [
  | none ↦ codes "application/octet-stream"
  | some (before, ext) ↦ mime_of ext
]

mime_type_test : mime_type (codes "scan.JPeG") ≡ codes "image/jpeg"
unfolding mime_type text_eq strrchr
mime_type_test = refl
