-- ===== src/Processor/Receipt/Keeps.antt =====
-- Building a reply (src/processor.c) asks the storage for URLs and changes nothing else.
use kaufbot.Prelude.{[], ◌∷◌, some, ℤ, Keeps}
use kaufbot.CText.{Text}
use kaufbot.Extern.{Doubles, Cjson}
use kaufbot.Backend.{get_public_url}
use kaufbot.Processor.Defs.{Processor}
use kaufbot.Processor.Frame.{KeptByReads}
use kaufbot.Processor.Receipt.{url_of, fill_receipt_data, build_reply}

module _ {d : Doubles} (cj : Cjson d) {W : Type 0} (p : Processor W) {P : W → Type 0}
    (k : KeptByReads p P) where
  url_of-keeps : (name : Text) → Keeps P (url_of cj (some p.storage) name)
  unfolding url_of get_public_url
  url_of-keeps [] w h = h
  url_of-keeps (c ∷ cs) w h = k.public_url (c ∷ cs) w h

  pub build_reply-keeps :
      (json : cj.Node) (id tokens : ℤ) (saved ocr : Text)
      → Keeps P (build_reply cj json id tokens (some p.storage) saved ocr)
  unfolding build_reply fill_receipt_data
  build_reply-keeps json id tokens saved ocr w h = url_of-keeps ocr _ (url_of-keeps saved w h)
