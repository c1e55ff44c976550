-- ===== src/Storage/Supabase/Signing.antt =====
-- The request for a signed URL of src/storage/storage_supabase.c.
use kaufbot.Prelude.{◌≡◌, refl}
use kaufbot.CText.{Text}
use kaufbot.Extern.{Doubles, Cjson, CjsonPrint}
use kaufbot.Http.Defs.{Curl}
use kaufbot.Storage.Supabase.{
  SupabaseStorage, object_url, ask_signed, signed_in, supabase_signed_url,
}

-- A signed URL is asked for in the same way with any key: neither the requests nor the answer
-- depend on it, since the headers that carry it are not sent.
pub supabase_signed_url-keyless :
    {d : Doubles} {W : Type 0} (curl : Curl d W) (cj : Cjson d) (print : CjsonPrint d)
    (st : SupabaseStorage) (key filename : Text) (w : W)
    → supabase_signed_url curl (record st { anon_key = key }) cj print filename w
      ≡ supabase_signed_url curl st cj print filename w
unfolding supabase_signed_url ask_signed signed_in object_url
supabase_signed_url-keyless curl cj print st key filename w = refl
