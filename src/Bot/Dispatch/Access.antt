-- ===== src/Bot/Dispatch/Access.antt =====
-- Who may make the bot act: the access check of src/telegram/bot_commands.c.
use kaufbot.Prelude.{false, Option, none, some, ◌≡◌, ℤ, Keeps}
use kaufbot.CText.{Text, codes}
use kaufbot.Extern.{Doubles, Cjson, item}
use kaufbot.Config.{is_allowed}
use kaufbot.Bot.Defs.{TgBot}
use kaufbot.Bot.Dispatch.{
  id_in, callback_from, callback_checked, dispatch_callback, refuse_user, dispatch_from,
  dispatch_message, dispatch_query, dispatch_update,
}

module _ {d : Doubles} (cj : Cjson d) {W : Type 0} (bot : TgBot W) where
  -- The sender of an update is no allowed user: the `from` of its query, or else of its message.
  abbrev pub Stranger : Option d.Double → Type 0
  Stranger none = Unit
  Stranger (some user) = is_allowed bot.cfg (d.to_int64 user) ≡ false

  abbrev pub sender : cj.Node → Option cj.Node → Option d.Double
  sender update (some query) = id_in cj (item cj (some query) (codes "from"))
  sender update none = id_in cj (item cj (item cj (some update) (codes "message")) (codes "from"))

  module _ {P : W → Type 0}
      (sends : (chat : ℤ) (text : Text) → Keeps P (bot.telegram.send_message chat text))
      (answers : (query : Text) (text : Option Text)
        → Keeps P (bot.telegram.answer_callback_query query text)) where
    callback_from-keeps :
        (data_text query : Text) (message : cj.Node) (user : Option d.Double)
        → Stranger user
        → Keeps P (callback_from cj bot data_text query message user)
    unfolding callback_from
    callback_from-keeps data_text query message none s w h = h
    callback_from-keeps data_text query message (some user) s w h = rw s (answers query _ w h)

    callback_checked-keeps :
        (data_text query : Option Text) (from message : Option cj.Node)
        → Stranger (id_in cj from)
        → Keeps P (callback_checked cj bot data_text query from message)
    unfolding callback_checked
    callback_checked-keeps (some data_text) (some query) (some from) (some message) s w h =
        callback_from-keeps data_text query message (id_in cj (some from)) s w h
    callback_checked-keeps _ _ _ _ s w h = h

    refuse_user-keeps : (chat : Option d.Double) → Keeps P (refuse_user cj bot chat)
    unfolding refuse_user
    refuse_user-keeps none w h = h
    refuse_user-keeps (some chat) w h = sends _ _ w h

    dispatch_from-keeps :
        (message : cj.Node) (user : Option d.Double)
        → Stranger user
        → Keeps P (dispatch_from cj bot message user)
    unfolding dispatch_from
    dispatch_from-keeps message none s w h = h
    dispatch_from-keeps message (some user) s w h = rw s (refuse_user-keeps _ w h)

    dispatch_message-keeps :
        (message : Option cj.Node)
        → Stranger (id_in cj (item cj message (codes "from")))
        → Keeps P (dispatch_message cj bot message)
    unfolding dispatch_message
    dispatch_message-keeps none s w h = h
    dispatch_message-keeps (some message) s w h = dispatch_from-keeps message _ s w h

    dispatch_query-keeps :
        (update : cj.Node) (query : Option cj.Node)
        → Stranger (sender update query)
        → Keeps P (dispatch_query cj bot update query)
    unfolding dispatch_query dispatch_callback
    dispatch_query-keeps update (some query) s w h = callback_checked-keeps _ _ _ _ s w h
    dispatch_query-keeps update none s w h = dispatch_message-keeps _ s w h

    -- An update whose sender is not in the list of allowed users, or has no id, keeps every predicate
    -- of the world that sending a message and answering a query keep, whatever the update holds.
    pub dispatch_update-keeps :
        (update : cj.Node)
        → Stranger (sender update (item cj (some update) (codes "callback_query")))
        → Keeps P (dispatch_update cj bot update)
    unfolding dispatch_update
    dispatch_update-keeps update s w h = dispatch_query-keeps update _ s w h
