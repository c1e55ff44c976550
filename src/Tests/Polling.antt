-- ===== src/Tests/Polling.antt =====
-- Tests of the poll loop, over a Telegram that has two updates.
use kaufbot.Prelude.{ℕ, ◌≡◌, refl, sym, ap, ◌∙◌, subst, true, none, some, [], ◌∷◌, ◌++◌, pos, pure}
use kaufbot.CText.{codes, text_eq}
use kaufbot.Extern.{Cjson, item, double_of, array_of, is_true_node}
use kaufbot.Http.Defs.{Curl}
use kaufbot.Http.Client.{
  http_client_execute, execute_loop, executed, should_retry, attempt_once, exponential_backoff,
  response_of,
}
use kaufbot.Http.Calls.{http_client_new, http_client_get, http_client_get_with_headers}
use kaufbot.Bot.Telegram.{http_get}
use kaufbot.Bot.Poll.{PollState, PollEnv, reply_of, update_id, get_updates, poll_round}
use kaufbot.Bot.Poll.Order.{
  ids_of, with_ids, updates_in, reply_at, History, Rounds, stop, round, Ascending, Rounds-History,
}
use kaufbot.Tests.World.{World, start, bot, doubles, cjson, Doc, num, obj, end, field, object_item}

abbrev update : ℕ → Doc
update id = obj (field (codes "update_id") (num id) end)

abbrev two_updates : Cjson doubles
two_updates = record cjson {
  parse = λ t. some (obj (field (codes "ok") (num 1) (field (codes "result") (num 0) end)));
  is_array = λ n. true;
  array_items = λ n. update 7 ∷ update 8 ∷ [];
}

abbrev answering : Curl doubles World
answering = record {
  init = pure true;
  perform = λ options.
      pure (record { ok = true; error = []; http_code = 200; received = some (codes "{}") });
  usleep = λ n. pure tt;
}

abbrev poll_env : PollEnv World
poll_env = record {
  time = pure (pos 0);
  sleep = λ n. pure tt;
  running = pure true;
  elapsed = λ a b c. true;
}

abbrev from_five : PollState
from_five = record { offset = pos 5; prompt_fetcher = none }

updates_at_five :
    updates_in two_updates (reply_at two_updates bot poll_env answering from_five start)
    ≡ update 7 ∷ update 8 ∷ []
unfolding get_updates reply_of http_get http_client_new http_client_get http_client_get_with_headers
    http_client_execute execute_loop executed should_retry attempt_once exponential_backoff
    response_of item array_of is_true_node object_item text_eq
updates_at_five = refl

ascending : Ascending (pos 5) (ids_of two_updates (update 7 ∷ update 8 ∷ []))
unfolding ids_of update_id item double_of object_item text_eq
ascending = (refl, (refl, tt))

both : with_ids two_updates (update 7 ∷ update 8 ∷ []) ++ [] ≡ update 7 ∷ update 8 ∷ []
unfolding with_ids update_id item double_of object_item text_eq
both = refl

-- The world behind one round.
abbrev later : World
later = (poll_round two_updates bot poll_env answering from_five start).1

one_round :
    Rounds two_updates bot poll_env answering from_five start (update 7 ∷ update 8 ∷ []) later
one_round =
    let in_order =
      subst (λ us. Ascending (pos 5) (ids_of two_updates us)) (sym updates_at_five) ascending in
    subst (λ us. Rounds two_updates bot poll_env answering from_five start us later)
      (ap (λ us. with_ids two_updates us ++ []) updates_at_five ∙ both) (round refl in_order stop)

Rounds-History_example :
    History two_updates bot poll_env answering (pos 5) start (update 7 ∷ update 8 ∷ []) later
Rounds-History_example =
    Rounds-History two_updates bot poll_env answering from_five start later
      (update 7 ∷ update 8 ∷ []) one_round
