-- ===== src/Bot/Dispatch/Buttons.antt =====
-- The buttons of a message (src/telegram/bot.c) and the queries that pressing them sends
-- (src/telegram/bot_commands.c).
use mathlib.Core.List.{append-nil}
use kaufbot.Prelude.{◌≡◌, refl, ap, sym, true, some, [], ◌++◌, take-eq_of_le, arith, ℤ}
use kaufbot.CText.{Text, codes, copy_to, has_prefix}
use kaufbot.CText.Decimal.{leading_number, show_ℤ, starts_with_digit}
use kaufbot.CText.Decimal.RoundTrip.{InInt64, strtoll-show_ℤ}
use kaufbot.CText.Decimal.Length.{length-show_ℤ}
use kaufbot.Extern.{Doubles, Cjson, item, string_of}
use kaufbot.Config.{is_allowed}
use kaufbot.Bot.Defs.{TgBot}
use kaufbot.Bot.Keyboard.{retry_data, delete_data}
use kaufbot.Bot.Dispatch.Presses.{
  DeletePressed, RetryPressed, callback_delete-DeletePressed, callback_retry-RetryPressed,
}
use kaufbot.Bot.Dispatch.{
  id_in, callback_delete, callback_retry, callback_action, callback_from, callback_checked,
  dispatch_callback, dispatch_query, dispatch_update,
}

leading_number-show_ℤ : (id : ℤ) → InInt64 id → leading_number (show_ℤ id) ≡ id
unfolding leading_number starts_with_digit
leading_number-show_ℤ id h = rw (sym (append-nil (show_ℤ id)), strtoll-show_ℤ id [] h refl) refl

retry_data_whole : (id : ℤ) → InInt64 id → retry_data id ≡ codes "retry:" ++ show_ℤ id
unfolding retry_data copy_to
retry_data_whole id h =
    take-eq_of_le 63 (codes "retry:" ++ show_ℤ id) (omega (arith, length-show_ℤ id h))

delete_data_whole : (id : ℤ) → InInt64 id → delete_data id ≡ codes "delete:" ++ show_ℤ id
unfolding delete_data copy_to
delete_data_whole id h =
    take-eq_of_le 63 (codes "delete:" ++ show_ℤ id) (omega (arith, length-show_ℤ id h))

module _ {d : Doubles} (cj : Cjson d) {W : Type 0} (bot : TgBot W) where
  -- The update is the query `query` with the data `data_text`, from the user `user`, on a button
  -- under `message`.
  pub record IsPress (update : cj.Node) (data_text query : Text) (message : cj.Node)
      (user : d.Double) : Type 0 where
    pub node : cj.Node
    pub from : cj.Node
    pub is_query : item cj (some update) (codes "callback_query") ≡ some node
    pub has_data : string_of cj (item cj (some node) (codes "data")) ≡ some data_text
    pub has_id : string_of cj (item cj (some node) (codes "id")) ≡ some query
    pub has_from : item cj (some node) (codes "from") ≡ some from
    pub has_message : item cj (some node) (codes "message") ≡ some message
    pub has_user : id_in cj (some from) ≡ some user

  dispatch_update-IsPress :
      (update : cj.Node) (data_text query : Text) (message : cj.Node) (user : d.Double)
      → IsPress update data_text query message user
      → is_allowed bot.cfg (d.to_int64 user) ≡ true
      → dispatch_update cj bot update ≡ callback_action cj bot data_text query message
  unfolding dispatch_update dispatch_query dispatch_callback callback_checked callback_from
  dispatch_update-IsPress update data_text query message user press ok =
      rw
        (
          press.is_query, dispatch_query, dispatch_callback, press.has_data, press.has_id,
          press.has_from, press.has_message, callback_checked, press.has_user, callback_from, ok,
        )
        refl

  callback_action-delete_data :
      (id : ℤ) (query : Text) (message : cj.Node)
      → InInt64 id
      → callback_action cj bot (delete_data id) query message
        ≡ callback_delete cj bot query message id
  unfolding callback_action has_prefix
  callback_action-delete_data id query message h =
      rw (delete_data_whole id h)
        (ap (callback_delete cj bot query message) (leading_number-show_ℤ id h))

  callback_action-retry_data :
      (id : ℤ) (query : Text) (message : cj.Node)
      → InInt64 id
      → callback_action cj bot (retry_data id) query message
        ≡ callback_retry cj bot query message id
  unfolding callback_action has_prefix
  callback_action-retry_data id query message h =
      rw (retry_data_whole id h)
        (ap (callback_retry cj bot query message) (leading_number-show_ℤ id h))

  -- A press of the delete button by an allowed user looks up the id, an `int64_t`, that the button
  -- was made for. Where there is a record, the storage, if there is one, is asked to delete the files
  -- that it names, and then the database to delete its row. Where the row was deleted, the message is
  -- deleted, if it and its chat have numbers, and the query answered with success; where it was not,
  -- or where there is no record, an answer says so.
  pub dispatch_update-delete_data :
      (update : cj.Node) (id : ℤ) (query : Text) (message : cj.Node) (user : d.Double) (w : W)
      → InInt64 id
      → IsPress update (delete_data id) query message user
      → is_allowed bot.cfg (d.to_int64 user) ≡ true
      → DeletePressed cj bot query message id w (dispatch_update cj bot update w).1
  dispatch_update-delete_data update id query message user w h press ok =
      rw
        (
          dispatch_update-IsPress update (delete_data id) query message user press ok,
          callback_action-delete_data id query message h,
        )
        (callback_delete-DeletePressed cj bot query message id w)

  -- A press of the retry button by an allowed user answers the query. Then, where the message has a
  -- chat whose id is not 0, the receipt of the id, an `int64_t`, that the button was made for is
  -- parsed again by `processor_retry_ocr`, and its reply is sent to the chat, with the buttons only
  -- where the retry succeeded; without such a chat nothing follows the answer.
  pub dispatch_update-retry_data :
      (update : cj.Node) (id : ℤ) (query : Text) (message : cj.Node) (user : d.Double) (w : W)
      → InInt64 id
      → IsPress update (retry_data id) query message user
      → is_allowed bot.cfg (d.to_int64 user) ≡ true
      → RetryPressed cj bot query message id w (dispatch_update cj bot update w).1
  dispatch_update-retry_data update id query message user w h press ok =
      rw
        (
          dispatch_update-IsPress update (retry_data id) query message user press ok,
          callback_action-retry_data id query message h,
        )
        (callback_retry-RetryPressed cj bot query message id w)
