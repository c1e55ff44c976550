-- ===== src/Tests/Bot.antt =====
-- The theorems of the bot in the test world.
use kaufbot.Prelude.{◌≡◌, refl, ◌++◌, take, pos, arith}
use kaufbot.CText.{Text, codes}
use kaufbot.Extern.{item, double_of, string_of}
use kaufbot.Config.{is_allowed, contains_user}
use kaufbot.Config.Models.{read_models}
use kaufbot.Reply.Writer.Bounds.{IsWhole}
use kaufbot.Bot.Defs.{max_reply_len}
use kaufbot.Bot.Keyboard.{delete_data, retry_data}
use kaufbot.Bot.Listing.{models_reply, list_reply}
use kaufbot.Bot.Listing.Bounds.{entries, models_reply-read_models, list_reply_text}
use kaufbot.Bot.Dispatch.{id_in, dispatch_update}
use kaufbot.Bot.Dispatch.Presses.{DeletePressed, RetryPressed}
use kaufbot.Bot.Dispatch.Buttons.{IsPress, dispatch_update-delete_data, dispatch_update-retry_data}
use kaufbot.Bot.Dispatch.Access.{dispatch_update-keeps}
use kaufbot.Tests.World.{
  World, Doc, str, num, obj, end, field, cjson, bot, start, filled, object_item,
}

-- A message of user 99, who is not in the list, that asks for a deletion.
abbrev unwanted : Doc
unwanted = obj (
    field (codes "message")
      (obj (
        field (codes "from") (obj (field (codes "id") (num 99) end)) (
          field (codes "chat") (obj (field (codes "id") (num 7) end))
            (field (codes "text") (str (codes "/delete 1")) end))))
      end)

abbrev Unchanged : World → Type 0
Unchanged w = w.0 ≡ start.0

dispatch_update-keeps_example : Unchanged (dispatch_update cjson bot unwanted start).1
unfolding object_item item id_in double_of is_allowed contains_user
dispatch_update-keeps_example =
    dispatch_update-keeps cjson bot {P = Unchanged} (λ chat text w h. h) (λ query text w h. h)
      unwanted refl start refl

models_reply-read_models_example :
    IsWhole max_reply_len (models_reply (read_models (codes "a,b") (codes "m")))
models_reply-read_models_example = models_reply-read_models (codes "a,b") (codes "m")

list_reply_text_example :
    list_reply start.0.records
    ≡ take 4095 (codes "Recent uploads:\n\n" ++ entries (take 10 start.0.records))
list_reply_text_example = list_reply_text start.0.records

-- The message under whose button user 42 presses.
abbrev pressed_message : Doc
pressed_message = obj (field (codes "chat") (obj (field (codes "id") (num 7) end)) end)

abbrev pressing : Doc
pressing = obj (field (codes "id") (num 42) end)

abbrev press_query : Text → Doc
press_query data_text = obj (
    field (codes "data") (str data_text) (
      field (codes "id") (str (codes "q"))
        (field (codes "from") pressing (field (codes "message") pressed_message end))))

abbrev press : Text → Doc
press data_text = obj (field (codes "callback_query") (press_query data_text) end)

press-IsPress :
    (data_text : Text)
    → IsPress cjson bot (press data_text) data_text (codes "q") pressed_message 42
unfolding object_item item id_in double_of string_of
press-IsPress data_text = record {
  node = press_query data_text;
  from = pressing;
  is_query = refl;
  has_data = refl;
  has_id = refl;
  has_from = refl;
  has_message = refl;
  has_user = refl;
}

dispatch_update-delete_data_example :
    DeletePressed cjson bot
      (codes "q")
      pressed_message
      (pos 1)
      filled
      (dispatch_update cjson bot (press (delete_data (pos 1))) filled).1
unfolding is_allowed contains_user
dispatch_update-delete_data_example =
    dispatch_update-delete_data cjson bot (press (delete_data (pos 1))) (pos 1) (codes "q")
      pressed_message 42 filled (omega arith) (press-IsPress (delete_data (pos 1))) refl

dispatch_update-retry_data_example :
    RetryPressed cjson bot
      (codes "q")
      pressed_message
      (pos 1)
      filled
      (dispatch_update cjson bot (press (retry_data (pos 1))) filled).1
unfolding is_allowed contains_user
dispatch_update-retry_data_example =
    dispatch_update-retry_data cjson bot (press (retry_data (pos 1))) (pos 1) (codes "q")
      pressed_message 42 filled (omega arith) (press-IsPress (retry_data (pos 1))) refl
