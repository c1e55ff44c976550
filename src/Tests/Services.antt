-- ===== src/Tests/Services.antt =====
-- Tests of the configuration, the prompt fetcher, the poll loop, SQLite, the local storage and the
-- document store.
use kaufbot.Prelude.{
  ℕ, ◌-◌, ◌+◌, ◌<◌, ◌==◌, Bool-cases, inl, inr, subst, ◌≡◌, refl, true, false, Option, none, some,
  List, [], ◌∷◌, arith, if◌then◌else◌, pos, Call, pure,
}
use kaufbot.CText.{Text, codes, text_eq, skip_while, skip_spaces, copy_to}
use kaufbot.CText.Decimal.{strtoll, read_digits, is_digit, is_space, clamp_pos, starts_with_digit}
use kaufbot.CText.Tokens.{tokens, split_at, push_token}
use kaufbot.Backend.{Prompt, DbBackend}
use kaufbot.Config.{Config}
use kaufbot.Config.Users.{parse_user_ids}
use kaufbot.Config.Load.{
  Environment, require_env, at_least_one, config_load_storage, config_load_database, config_load,
}
use kaufbot.Config.Load.Bounds.{RequiredSet, ConfigFits, config_load-ConfigFits}
use kaufbot.PromptFetcher.{PromptFetcher, prompt_fetcher_poll}
use kaufbot.PromptFetcher.Settled.{prompt_fetcher_poll_again}
use kaufbot.Main.{Part, part_db, Parts, main}
use kaufbot.Main.Freed.{rank, same, Lifetimes, main_frees}
use kaufbot.Tests.World.{World, start, cfg, database}

abbrev environment : Environment
unfolding text_eq
environment key =
    if text_eq key (codes "TELEGRAM_TOKEN")
    then some (codes "t")
    else if text_eq key (codes "GEMINI_API_KEY")
    then some (codes "k")
    else if text_eq key (codes "ALLOWED_USER_IDS")
    then some (codes "42, 43")
    else none

abbrev or_cfg : Option Config → Config
or_cfg none = cfg
or_cfg (some c) = c

abbrev loaded : Config
loaded = or_cfg (config_load environment false)

loads : config_load environment false ≡ some loaded
unfolding config_load require_env at_least_one config_load_storage config_load_database
    parse_user_ids tokens split_at push_token copy_to skip_spaces skip_while strtoll read_digits
    is_digit is_space clamp_pos starts_with_digit text_eq
loads = refl

config_load-ConfigFits_example : RequiredSet environment × ConfigFits false loaded
config_load-ConfigFits_example = config_load-ConfigFits environment false loaded loads

abbrev prompts : List Prompt
prompts =
    record {
      id = pos 1;
      name = codes "ocr";
      content = codes "Read.";
      created_at = [];
      updated_at = [];
    }
    ∷ record {
      id = pos 2;
      name = codes "parser";
      content = codes "Parse.";
      created_at = [];
      updated_at = [];
    }
    ∷ []

abbrev with_prompts : DbBackend World
with_prompts = record database { get_prompts = pure (prompts, true) }

abbrev fetcher : PromptFetcher
fetcher = record { interval_secs = pos 300; cache = []; initialized = true; last_poll = pos 0 }

abbrev ignore_change : Text → Text → Call World (Unit {0})
ignore_change name content = pure tt

prompt_fetcher_poll_again_example :
    let first = prompt_fetcher_poll ignore_change with_prompts (pure (pos 300)) fetcher start in
    prompt_fetcher_poll ignore_change with_prompts (pure (pos 300)) first.0.1 first.1
    ≡ ((some 0, record first.0.1 { last_poll = pos 300 }), first.1)
prompt_fetcher_poll_again_example =
    let first = prompt_fetcher_poll ignore_change with_prompts (pure (pos 300)) fetcher start in
    prompt_fetcher_poll_again ignore_change with_prompts (pure (pos 300)) prompts fetcher start
      start first.1 (omega arith, (omega arith, tt)) (((λ e. absurd (cc)), tt), (tt, tt))
      (omega arith) refl refl

-- The world counts the parts by their ranks.
abbrev Counts : Type 0
Counts = ℕ → ℕ

abbrev made : Part → Counts → Counts
made p w n = (if rank p == n then 1 else 0) + w n

abbrev freed : Part → Counts → Counts
freed p w n = w n - (if rank p == n then 1 else 0)

-- A start whose bot cannot be made.
abbrev no_bot : Parts Counts
no_bot = record {
  config_load = pure true;
  ensure_dirs = pure true;
  make = λ p w. if rank p == 5 then (false, w) else (true, made p w);
  free = λ p w. (tt, freed p w);
  bot_notify_startup = pure tt;
  bot_start = pure tt;
}

no_bot_made :
    (p q : Part) (w : Counts)
    → (no_bot.make p w).0 ≡ true
    → (no_bot.make p w).1 (rank q) ≡ same p q + w (rank q)
unfolding same
no_bot_made p q w h = elim (Bool-cases (rank p == 5)) [
  | inl e ↦ absurd (ground (arith, e, h))
  | inr e ↦ rw e refl
]

no_bot_failed :
    (p q : Part) (w : Counts)
    → (no_bot.make p w).0 ≡ false
    → (no_bot.make p w).1 (rank q) ≡ w (rank q)
no_bot_failed p q w h = elim (Bool-cases (rank p == 5)) [
  | inl e ↦ rw e refl
  | inr e ↦ absurd (ground (arith, e, h))
]

no_bot_free :
    (p q : Part) (w : Counts) → 0 < w (rank p) → w (rank q) ≡ same p q + freed p w (rank q)
unfolding same
no_bot_free p q w h = elim (Bool-cases (rank p == rank q)) [
  | inl e ↦
      let ranks : rank p ≡ rank q = ground arith in
      let alive : 0 < w (rank q) = subst (λ n. 0 < w n) ranks h in rw e (omega arith)
  | inr e ↦ rw e (omega arith)
]

no_bot-Lifetimes : Lifetimes no_bot
no_bot-Lifetimes = record {
  live = λ q w. w (rank q);
  live_config = λ q w. refl;
  live_dirs = λ q w. refl;
  live_made = no_bot_made;
  live_failed = no_bot_failed;
  live_free = no_bot_free;
  live_notify = λ q w. refl;
  live_bot = λ q w. refl;
}

-- Three parts of each kind from elsewhere.
abbrev three : Counts
three n = 3

main_frees_example : (main no_bot three).1 (rank part_db) ≡ 3
unfolding no_bot-Lifetimes
main_frees_example = main_frees no_bot no_bot-Lifetimes part_db three
