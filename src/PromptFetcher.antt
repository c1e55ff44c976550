-- ===== src/PromptFetcher.antt =====
-- src/ocr/prompt_fetcher.c: the prompts of the database, watched for changes.
pub mod Cache
pub mod Settled
use kaufbot.Prelude.{
  ℕ, zero, suc, ◌+◌, Bool, true, false, not, ◌||◌, Option, none, some, List, [], ◌∷◌, ◌++◌, map,
  length, take, ltb, ℤ, pos, ltb_ℤ, Call, pure, ◌>>=◌, ◌>>◌, if◌then◌else◌,
}
use kaufbot.CText.{Text, copy_to, text_eq}
use kaufbot.Backend.{Prompt, DbBackend, db_prompt_name_len, db_prompt_content_len}

abbrev pub max_cached_prompts : ℕ
max_cached_prompts = 64

pub record CachedPrompt : Type 0 where
  pub name : Text
  pub content : Text

-- `PromptFetcher`, without its database and its callback; the entries of `cache` that are counted.
pub record PromptFetcher : Type 0 where
  pub interval_secs : ℤ
  pub cache : List CachedPrompt
  pub initialized : Bool
  pub last_poll : ℤ

-- `prompt_fetcher_new`, with a database
unfoldable pub prompt_fetcher_new : ℤ → Option PromptFetcher
prompt_fetcher_new interval_secs =
    if ltb_ℤ (pos 0) interval_secs
    then some (record {
      interval_secs = interval_secs;
      cache = [];
      initialized = false;
      last_poll = pos 0;
    })
    else none

-- `collect_cb` over the prompts of the database
abbrev pub collected : List Prompt → List Prompt
collected prompts = take max_cached_prompts prompts

unfoldable pub cached : Prompt → CachedPrompt
cached p = record {
  name = copy_to db_prompt_name_len p.name;
  content = copy_to db_prompt_content_len p.content;
}

-- The content of the entry that the search for a name finds.
unfoldable pub cached_content : List CachedPrompt → Text → Option Text
cached_content [] name = none
cached_content (c ∷ cs) name =
    if text_eq name c.name then some c.content else cached_content cs name

-- That entry with another content.
unfoldable pub set_content : List CachedPrompt → Text → Text → List CachedPrompt
set_content [] name content = []
set_content (c ∷ cs) name content =
    if text_eq name c.name
    then record c { content = content } ∷ cs
    else c ∷ set_content cs name content

-- A new prompt, for which there may be no place.
add_prompt : List CachedPrompt → Prompt → List CachedPrompt
unfolding cached
add_prompt cache p = if ltb (length cache) max_cached_prompts then cache ++ cached p ∷ [] else cache

noted : List CachedPrompt → Prompt → Option Text → Option (List CachedPrompt)
unfolding set_content add_prompt
noted cache p none = some (add_prompt cache p)
noted cache p (some content) =
    if text_eq p.content content
    then none
    else some (set_content cache p.name (copy_to db_prompt_content_len p.content))

-- The cache after a prompt that is new or has changed; `none` for one that has not.
unfoldable pub note_prompt : List CachedPrompt → Prompt → Option (List CachedPrompt)
unfolding noted cached_content
note_prompt cache p = noted cache p (cached_content cache p.name)

module _ {W : Type 0} (on_change : Text → Text → Call W (Unit {0})) where
  -- The rest of the loop behind one prompt, with the number of changes.
  report :
      Prompt
      → (List CachedPrompt → Call W (ℕ × List CachedPrompt))
      → List CachedPrompt
      → Option (List CachedPrompt)
      → Call W (ℕ × List CachedPrompt)
  report p rest cache none = rest cache
  report p rest cache (some cache') = do
    on_change p.name p.content
    r ← rest cache'
    pure (suc r.0, r.1)

  -- The loop over the collected prompts.
  unfoldable pub sync_prompts : List Prompt → List CachedPrompt → Call W (ℕ × List CachedPrompt)
  unfolding report note_prompt
  sync_prompts [] cache = pure (0, cache)
  sync_prompts (p ∷ ps) cache = report p (sync_prompts ps) cache (note_prompt cache p)

  module _ (db : DbBackend W) (time : Call W ℤ) where
    -- The first poll fills the cache, and any other compares with it.
    compared : Bool → List Prompt → List CachedPrompt → Call W (ℕ × List CachedPrompt)
    unfolding sync_prompts cached
    compared true prompts cache = sync_prompts prompts cache
    compared false prompts cache = pure (0, map cached prompts)

    -- A poll that has fetched the prompts: the fetcher after it and what it returns.
    unfoldable pub poll_fetched :
        PromptFetcher → List Prompt → Bool → Call W (Option ℕ × PromptFetcher)
    unfolding compared
    poll_fetched pf prompts false = pure (none, pf)
    poll_fetched pf prompts true = do
      r ← compared pf.initialized prompts pf.cache
      now ← time
      pure (some r.0, record pf { cache = r.1; initialized = true; last_poll = now })

    -- `prompt_fetcher_poll`; `none` is the return of -1.
    unfoldable pub prompt_fetcher_poll : PromptFetcher → Call W (Option ℕ × PromptFetcher)
    unfolding poll_fetched
    prompt_fetcher_poll pf = do
      fetched ← db.get_prompts
      poll_fetched pf (collected fetched.0) fetched.1

    -- `prompt_fetcher_tick`; `elapsed` is `difftime(now, last_poll) >= interval_secs`.
    unfoldable pub prompt_fetcher_tick :
        (elapsed : ℤ → ℤ → ℤ → Bool) → PromptFetcher → Call W (Option ℕ × PromptFetcher)
    unfolding prompt_fetcher_poll
    prompt_fetcher_tick elapsed pf = do
      now ← time
      if not pf.initialized || elapsed now pf.last_poll pf.interval_secs
          then prompt_fetcher_poll pf
          else pure (some 0, pf)
