-- ===== src/Tests/Utils.antt =====
-- The theorems on the helpers, the event bus and the configuration at concrete inputs.
use kaufbot.Prelude.{
  ℕ, ◌≤◌, ◌<◌, ◌≡◌, refl, true, false, some, [], ◌∷◌, ◌++◌, ◌==◌, length, pos, negsuc, arith,
}
use kaufbot.CText.{codes}
use kaufbot.Config.Users.{parse_user_ids}
use kaufbot.Config.Users.RoundTrip.{comma_separated, parse_user_ids-comma_separated}
use kaufbot.Utils.Percent.{percent_encode}
use kaufbot.Utils.Percent.RoundTrip.{
  percent_decode, percent_decode-percent_encode, length-percent_encode,
}
use kaufbot.Utils.Base64.{base64_encode}
use kaufbot.Utils.Base64.RoundTrip.{
  base64_decode, base64_decode-base64_encode, length-base64_encode,
}
use kaufbot.Utils.GrowBuf.{GrowBuf, growbuf_write}
use kaufbot.Utils.GrowBuf.Room.{HasRoom, growbuf_write_appends}
use kaufbot.EventBus.{event_bus_new, subscribe, has_handler, unsubscribe, publish}
use kaufbot.EventBus.Order.{IsBus, calls-IsBus, publish-subscribe, unsubscribe-subscribe}

parse_user_ids-comma_separated_example :
    parse_user_ids (comma_separated (pos 42 ∷ negsuc 6 ∷ [])) ≡ some (pos 42 ∷ negsuc 6 ∷ [])
parse_user_ids-comma_separated_example =
    parse_user_ids-comma_separated (pos 42) (negsuc 6 ∷ []) (omega arith)
      (omega arith, (omega arith, tt))

percent_decode-percent_encode_example : percent_decode (percent_encode (codes "a b")) ≡ codes "a b"
percent_decode-percent_encode_example =
    percent_decode-percent_encode (codes "a b") (omega arith, (omega arith, (omega arith, tt)))

length-percent_encode_example : length (percent_encode (codes "a b")) ≤ 9
length-percent_encode_example = length-percent_encode (codes "a b")

base64_decode-base64_encode_example : base64_decode (base64_encode (codes "MILK")) ≡ codes "MILK"
base64_decode-base64_encode_example =
    base64_decode-base64_encode (codes "MILK")
      (omega arith, (omega arith, (omega arith, (omega arith, tt))))

length-base64_encode_example : length (base64_encode (codes "MILK")) ≡ 8
length-base64_encode_example = length-base64_encode (codes "MILK")

abbrev empty_buffer : GrowBuf
empty_buffer = record { data_bytes = []; cap_bytes = 0 }

growbuf_write_appends_example :
    (buf' : GrowBuf) × (growbuf_write 64 true (codes "ab") empty_buffer ≡ some (2, buf'))
    × (buf'.data_bytes ≡ codes "ab")
    × (length buf'.data_bytes < buf'.cap_bytes)
    × HasRoom buf'
growbuf_write_appends_example =
    growbuf_write_appends (codes "ab") empty_buffer
      (record { room = omega arith; small = omega arith }) (omega arith)

event_bus_new-IsBus : IsBus event_bus_new
unfolding event_bus_new
event_bus_new-IsBus = record {
  slots = refl;
  places = (omega arith, (omega arith, (omega arith, (omega arith, (omega arith, tt)))));
  active = (tt, (tt, (tt, (tt, (tt, tt)))));
}

calls-IsBus_example :
    ((event handler userdata : ℕ) → IsBus (subscribe event handler userdata event_bus_new).1)
    × ((event handler : ℕ) → IsBus (unsubscribe event handler event_bus_new).1)
calls-IsBus_example = calls-IsBus event_bus_new event_bus_new-IsBus

publish-subscribe_example :
    (publish 2 (subscribe 2 7 1 event_bus_new).1
      ≡ publish 2 event_bus_new ++ record { handler = 7; userdata = 1; active = true } ∷ [])
    × ((other : ℕ)
        → (2 == other) ≡ false
        → publish other (subscribe 2 7 1 event_bus_new).1 ≡ publish other event_bus_new)
unfolding subscribe event_bus_new
publish-subscribe_example = publish-subscribe 2 7 1 event_bus_new event_bus_new-IsBus refl

unsubscribe-subscribe_example :
    unsubscribe 2 7 (subscribe 2 7 1 event_bus_new).1 ≡ (true, event_bus_new)
unfolding subscribe event_bus_new publish has_handler
unsubscribe-subscribe_example =
    unsubscribe-subscribe 2 7 1 event_bus_new event_bus_new-IsBus refl refl
