-- ===== src/Bot/Poll.antt =====
-- `bot_new`, `bot_start`, `bot_notify_startup` and `bot_notify_prompt_change`, src/telegram/bot.c.
pub mod Order
use kaufbot.Prelude.{
  ℕ, zero, suc, Bool, true, false, Option, none, some, List, [], ◌∷◌, ◌++◌, ℤ, pos, suc_ℤ, Call,
  pure, ◌>>=◌, ◌>>◌,
}
use kaufbot.CText.{Text, codes, copy_to}
use kaufbot.CText.Decimal.{show_ℤ}
use kaufbot.Extern.{Doubles, Cjson, item, double_of, array_of, is_true_node}
use kaufbot.Config.{Config}
use kaufbot.Http.Defs.{Curl}
use kaufbot.PromptFetcher.{PromptFetcher, prompt_fetcher_new, prompt_fetcher_tick}
use kaufbot.Bot.Defs.{TgBot, max_reply_len}
use kaufbot.Bot.Dispatch.{dispatch_update}
use kaufbot.Bot.Telegram.{http_get, call_url}

-- The fields of `TgBot` that the loop changes.
pub record PollState : Type 0 where
  pub offset : ℤ
  pub prompt_fetcher : Option PromptFetcher

-- `bot_new`
abbrev pub poll_start : PollState
unfolding prompt_fetcher_new
poll_start = record { offset = pos 0; prompt_fetcher = prompt_fetcher_new (pos 300) }

-- What stands beside the loop: the clock, `sleep`, the flag that `bot_stop` clears, and
-- `difftime(now, last_poll) >= interval_secs`.
pub record PollEnv (W : Type 0) : Type 0 where
  pub time : Call W ℤ
  pub sleep : ℤ → Call W (Unit {0})
  pub running : Call W Bool
  pub elapsed : ℤ → ℤ → ℤ → Bool

-- What a round of the loop makes of the reply to `getUpdates`.
pub data Reply (A : Type 0) : Type 0 where
  unreachable unparsed refused : Reply A
  updates : List A → Reply A

or_nothing {ℓ} : {A : Type ℓ} → Option (List A) → List A
or_nothing none = []
or_nothing (some xs) = xs

module _ {d : Doubles} (cj : Cjson d) where
  reply_if_ok : cj.Node → Bool → Reply cj.Node
  unfolding or_nothing
  reply_if_ok json false = refused
  reply_if_ok json true = updates (or_nothing (array_of cj (item cj (some json) (codes "result"))))

  reply_in : Option cj.Node → Reply cj.Node
  unfolding reply_if_ok
  reply_in none = unparsed
  reply_in (some json) = reply_if_ok json (is_true_node cj (item cj (some json) (codes "ok")))

  unfoldable pub reply_of : Option Text → Reply cj.Node
  unfolding reply_in
  reply_of none = unreachable
  reply_of (some body) = reply_in (cj.parse body)

  -- `update_id`, if it is a number
  unfoldable pub update_id : cj.Node → Option ℤ
  update_id update = elim (double_of cj (item cj (some update) (codes "update_id"))) [
    | none ↦ none
    | some x ↦ some (d.to_int64 x)
  ]

  unfoldable pub updates_call : ℤ → ℤ → Text
  updates_call offset timeout =
      codes "getUpdates?offset="
      ++ (show_ℤ offset
          ++ (codes "&timeout="
              ++ (show_ℤ timeout ++ codes "&allowed_updates=[\"message\",\"callback_query\"]")))

  module _ {W : Type 0} (bot : TgBot W) where
    -- The sends of a notice, one for each user that is allowed.
    unfoldable pub send_to : List ℤ → Text → Call W (Unit {0})
    send_to [] text = pure tt
    send_to (user ∷ users) text = do bot.telegram.send_message user text; send_to users text

    -- `bot_notify_startup`
    unfoldable pub notify_startup : Call W (Unit {0})
    unfolding send_to
    notify_startup = send_to bot.cfg.allowed_users (
        codes "Kaufbot is running"
        ++ (10
            ∷ 10
            ∷ (codes "Send me a receipt photo to scan it." ++ (10 ∷ codes "/help for commands"))))

    -- `bot_notify_prompt_change`, which `on_prompt_change` calls
    unfoldable pub notify_prompt_change : Text → Text → Call W (Unit {0})
    unfolding send_to
    notify_prompt_change prompt_name new_content = send_to bot.cfg.allowed_users (
        copy_to max_reply_len
          (codes "Prompt updated: " ++ (prompt_name ++ (10 ∷ 10 ∷ new_content))))

    -- One update of a batch: the offset behind it.
    take_update : cj.Node → Option ℤ → ℤ → Call W ℤ
    take_update update none offset = pure offset
    take_update update (some id) offset = do dispatch_update cj bot update; pure (suc_ℤ id)

    -- The loop over a batch.
    unfoldable pub dispatch_all : List cj.Node → ℤ → Call W ℤ
    unfolding take_update update_id
    dispatch_all [] offset = pure offset
    dispatch_all (u ∷ us) offset = do
      offset' ← take_update u (update_id u) offset
      dispatch_all us offset'

    module _ (env : PollEnv W) where
      unfoldable pub tick : Option PromptFetcher → Call W (Option PromptFetcher)
      unfolding notify_prompt_change
      tick none = pure none
      tick (some pf) = do
        r ← prompt_fetcher_tick notify_prompt_change bot.db env.time env.elapsed pf
        pure (some r.1)

      -- The rest of a round behind the reply.
      unfoldable pub handle_reply : PollState → Reply cj.Node → Call W PollState
      unfolding dispatch_all tick
      handle_reply s unreachable = do env.sleep bot.cfg.telegram_reconnect_delay_secs; pure s
      handle_reply s unparsed = do env.sleep bot.cfg.telegram_retry_delay_secs; pure s
      handle_reply s refused = do env.sleep bot.cfg.telegram_reconnect_delay_secs; pure s
      handle_reply s (updates us) = do
        offset ← dispatch_all us s.offset
        fetcher ← tick s.prompt_fetcher
        pure (record { offset = offset; prompt_fetcher = fetcher })

      module _ (curl : Curl d W) where
        -- `getUpdates` from an offset on
        unfoldable pub get_updates : ℤ → Call W (Reply cj.Node)
        unfolding updates_call reply_of
        get_updates offset = do
          body ←
              http_get curl
                (call_url bot.cfg (updates_call offset bot.cfg.telegram_poll_timeout_secs))
                bot.cfg.telegram_poll_timeout_secs
          pure (reply_of body)

        -- One round of `bot_start`.
        unfoldable pub poll_round : PollState → Call W PollState
        unfolding get_updates handle_reply
        poll_round s = do reply ← get_updates s.offset; handle_reply s reply

        again : (PollState → Call W PollState) → PollState → Bool → Call W PollState
        unfolding poll_round
        again rest s true = do s' ← poll_round s; rest s'
        again rest s false = pure s

        -- `bot_start`, for a number of rounds.
        unfoldable pub bot_start : ℕ → PollState → Call W PollState
        unfolding again
        bot_start zero s = pure s
        bot_start (suc rounds) s = do more ← env.running; again (bot_start rounds) s more
