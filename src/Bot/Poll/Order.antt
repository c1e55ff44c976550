-- ===== src/Bot/Poll/Order.antt =====
-- In which order the loop of `bot_start` (src/telegram/bot.c) dispatches updates.
use kaufbot.Prelude.{
  ◌≡◌, refl, subst, true, Option, none, some, List, [], ◌∷◌, ◌++◌, ℤ, suc_ℤ, leb_ℤ,
}
use kaufbot.Extern.{Doubles, Cjson}
use kaufbot.Http.Defs.{Curl}
use kaufbot.PromptFetcher.{PromptFetcher}
use kaufbot.Bot.Defs.{TgBot}
use kaufbot.Bot.Dispatch.{dispatch_update}
use kaufbot.Bot.Poll.{
  PollState, PollEnv, Reply, unreachable, unparsed, refused, updates, update_id, take_update,
  dispatch_all, tick, handle_reply, get_updates, poll_round,
}

-- Each number is above the one before, and the first is at least `from`.
abbrev pub Ascending : ℤ → List ℤ → Type 0
Ascending from [] = Unit
Ascending from (i ∷ is) = (leb_ℤ from i ≡ true) × Ascending (suc_ℤ i) is

module _ {d : Doubles} (cj : Cjson d) where
  with_id : {A : Type 0} → (ℤ → A) → Option ℤ → List A → List A
  with_id f none rest = rest
  with_id f (some id) rest = f id ∷ rest

  -- The ids of the updates that have one, in their order.
  unfoldable pub ids_of : List cj.Node → List ℤ
  unfolding with_id
  ids_of [] = []
  ids_of (u ∷ us) = with_id (λ id. id) (update_id cj u) (ids_of us)

  -- The updates that have an id, in their order.
  unfoldable pub with_ids : List cj.Node → List cj.Node
  unfolding with_id
  with_ids [] = []
  with_ids (u ∷ us) = with_id (λ id. u) (update_id cj u) (with_ids us)

  abbrev pub updates_in : Reply cj.Node → List cj.Node
  updates_in unreachable = []
  updates_in unparsed = []
  updates_in refused = []
  updates_in (updates us) = us

  module _ {W : Type 0} (bot : TgBot W) (env : PollEnv W) (curl : Curl d W) where
    -- What the loop has made of the world, call by call, from an offset on: each request is for the
    -- offset, and each update of the list is dispatched by one call, in the order of the list. Its id
    -- is at least the offset, which it puts behind itself.
    pub data History : ℤ → W → List cj.Node → W → Type 0 where
      finished : {offset : ℤ} {w : W} → History offset w [] w
      woken :
          {offset : ℤ} {w w' : W} {us : List cj.Node}
          → History offset (env.running w).1 us w'
          → History offset w us w'
      asked :
          {offset : ℤ} {w w' : W} {us : List cj.Node}
          → History offset (get_updates cj bot env curl offset w).1 us w'
          → History offset w us w'
      slept :
          {offset : ℤ} {w w' : W} {us : List cj.Node} (secs : ℤ)
          → History offset (env.sleep secs w).1 us w'
          → History offset w us w'
      ticked :
          {offset : ℤ} {w w' : W} {us : List cj.Node} (fetcher : Option PromptFetcher)
          → History offset (tick cj bot env fetcher w).1 us w'
          → History offset w us w'
      dispatched :
          {offset : ℤ} {w w' : W} {us : List cj.Node} (u : cj.Node) (id : ℤ)
          → update_id cj u ≡ some id
          → leb_ℤ offset id ≡ true
          → History (suc_ℤ id) (dispatch_update cj bot u w).1 us w'
          → History offset w (u ∷ us) w'

    take_update-History :
        (u : cj.Node) (o : Option ℤ) (us rest : List cj.Node) (offset : ℤ) (w w' : W)
        → update_id cj u ≡ o
        → Ascending offset (with_id (λ id. id) o (ids_of us))
        → ((from : ℤ) (v : W)
            → Ascending from (ids_of us)
            → (take_update cj bot u o offset w) ≡ (from, v)
            → History from v (with_ids us ++ rest) w')
        → History offset w (with_id (λ id. u) o (with_ids us) ++ rest) w'
    unfolding take_update with_id
    take_update-History u none us rest offset w w' e order later = later offset w order refl
    take_update-History u (some id) us rest offset w w' e order later =
        dispatched u id e order.0 (later (suc_ℤ id) (dispatch_update cj bot u w).1 order.1 refl)

    dispatch_all-History :
        (us rest : List cj.Node) (offset : ℤ) (w w' : W)
        → Ascending offset (ids_of us)
        → History (dispatch_all cj bot us offset w).0 (dispatch_all cj bot us offset w).1 rest w'
        → History offset w (with_ids us ++ rest) w'
    unfolding dispatch_all ids_of with_ids
    dispatch_all-History [] rest offset w w' order later = later
    dispatch_all-History (u ∷ us) rest offset w w' order later =
        take_update-History u (update_id cj u) us rest offset w w' refl order (λ from v a e.
          dispatch_all-History us rest from v w' a (
            subst
              (λ r.
                History (dispatch_all cj bot us r.0 r.1).0 (dispatch_all cj bot us r.0 r.1).1 rest
                  w')
              e later))

    handle_reply-History :
        (s : PollState) (r : Reply cj.Node) (rest : List cj.Node) (w w' : W)
        → Ascending s.offset (ids_of (updates_in r))
        → History (handle_reply cj bot env s r w).0.offset (handle_reply cj bot env s r w).1 rest w'
        → History s.offset w (with_ids (updates_in r) ++ rest) w'
    unfolding handle_reply with_ids
    handle_reply-History s unreachable rest w w' order later = slept _ later
    handle_reply-History s unparsed rest w w' order later = slept _ later
    handle_reply-History s refused rest w w' order later = slept _ later
    handle_reply-History s (updates us) rest w w' order later =
        dispatch_all-History us rest s.offset w w' order (ticked s.prompt_fetcher later)

    -- The reply that the round in a state gets.
    abbrev pub reply_at : PollState → W → Reply cj.Node
    reply_at s w = (get_updates cj bot env curl s.offset w).0

    -- The world behind the test of the flag.
    abbrev pub awake : W → W
    awake w = (env.running w).1

    -- Rounds of the loop from a state on, with those updates of the replies that have an id, and the
    -- world that the rounds end in. As Telegram promises, a reply holds updates from the offset on,
    -- in ascending order.
    pub data Rounds : PollState → W → List cj.Node → W → Type 0 where
      stop : {s : PollState} {w : W} → Rounds s w [] w
      round :
          {s : PollState} {w w' : W} {us : List cj.Node}
          → (env.running w).0 ≡ true
          → Ascending s.offset (ids_of (updates_in (reply_at s (awake w))))
          → Rounds
              (poll_round cj bot env curl s (awake w)).0
              (poll_round cj bot env curl s (awake w)).1
              us
              w'
          → Rounds s w (with_ids (updates_in (reply_at s (awake w))) ++ us) w'

    -- Whatever the rounds are, also those whose request fails, all that they have made of the world
    -- is a history of the updates with an id that the replies held: each of them is dispatched by
    -- exactly one call, in strictly ascending order of the ids from the offset on, and each request
    -- is for the offset behind the last update that was dispatched.
    pub Rounds-History :
        (s : PollState) (w w' : W) (us : List cj.Node) → Rounds s w us w' → History s.offset w us w'
    unfolding poll_round
    Rounds-History s w _ _ stop = finished
    Rounds-History s w w' _ (round {us} more answer rest) = woken (
        asked (
          handle_reply-History s (reply_at s (awake w)) us
            (get_updates cj bot env curl s.offset (awake w)).1 w' answer
            (Rounds-History _ _ w' us rest)))
