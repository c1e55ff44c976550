-- ===== src/PromptFetcher/Settled.antt =====
-- A second poll of src/ocr/prompt_fetcher.c finds no change that the first one has reported.
use kaufbot.Prelude.{
  ℕ, ◌+◌, ◌≤◌, ◌≡◌, ◌≢◌, refl, sym, ◌∙◌, Bool, true, false, Option, none, some, List, [], ◌∷◌, map,
  length, take-eq_of_le, All, arith, ℤ, Call,
}
use kaufbot.CText.{Text, copy_to}
use kaufbot.Backend.{Prompt, DbBackend}
use kaufbot.PromptFetcher.{
  CachedPrompt, PromptFetcher, cached, cached_content, noted, note_prompt, report, sync_prompts,
  compared, poll_fetched, prompt_fetcher_poll,
}
use kaufbot.PromptFetcher.Cache.{
  FitsPrompt, text_eq_refl, text_eq_of_ne, cache_or, step, step_same, step_other, length-step,
}

-- The cache that the loop leaves.
unfoldable settle : List Prompt → List CachedPrompt → List CachedPrompt
unfolding step
settle [] cache = cache
settle (p ∷ ps) cache = settle ps (step cache p)

-- The names differ, as the column `name` of the table promises.
abbrev pub NamesDiffer : List Prompt → Type 0
NamesDiffer [] = Unit
NamesDiffer (p ∷ ps) = All (λ q. p.name ≢ q.name) ps × NamesDiffer ps

settle_other :
    (ps : List Prompt) (c : List CachedPrompt) (n : Text)
    → All FitsPrompt ps
    → All (λ q. n ≢ q.name) ps
    → cached_content (settle ps c) n ≡ cached_content c n
unfolding settle
settle_other [] c n f h = refl
settle_other (p ∷ ps) c n f h = settle_other ps (step c p) n f.1 h.1 ∙ step_other c p n f.0 h.0

-- The cache holds the content of the prompt.
abbrev Holds : List CachedPrompt → Prompt → Type 0
Holds c p = cached_content c p.name ≡ some p.content

Holds-settle :
    (ps : List Prompt) (c : List CachedPrompt)
    → All FitsPrompt ps
    → NamesDiffer ps
    → length c + length ps ≤ 64
    → All (Holds (settle ps c)) ps
unfolding settle
Holds-settle [] c f d room = tt
Holds-settle (p ∷ ps) c f d room = (
  settle_other ps (step c p) p.name f.1 d.0 ∙ step_same c p f.0 (omega arith),
  Holds-settle ps (step c p) f.1 d.1 (omega (arith, length-step c p)),
)

note_prompt-Holds : (c : List CachedPrompt) (p : Prompt) → Holds c p → note_prompt c p ≡ none
unfolding note_prompt noted
note_prompt-Holds c p h = rw h (rw (text_eq_refl p.content) refl)

module _ {W : Type 0} (on_change : Text → Text → Call W (Unit {0})) where
  report_cache :
      (p : Prompt) (rest : List CachedPrompt → Call W (ℕ × List CachedPrompt))
      (after : List CachedPrompt → List CachedPrompt) (c : List CachedPrompt)
      (o : Option (List CachedPrompt))
      → ((c : List CachedPrompt) (w : W) → (rest c w).0.1 ≡ after c)
      → (w : W) → (report on_change p rest c o w).0.1 ≡ after (cache_or c o)
  unfolding report
  report_cache p rest after c none h w = h c w
  report_cache p rest after c (some c') h w = h c' (on_change p.name p.content w).1

  sync_prompts-settle :
      (ps : List Prompt) (c : List CachedPrompt) (w : W)
      → (sync_prompts on_change ps c w).0.1 ≡ settle ps c
  unfolding sync_prompts settle step
  sync_prompts-settle [] c w = refl
  sync_prompts-settle (p ∷ ps) c w =
      report_cache p (sync_prompts on_change ps) (settle ps) c (note_prompt c p)
        (sync_prompts-settle ps) w

  sync_prompts_quiet :
      (ps : List Prompt) (c : List CachedPrompt) (w : W)
      → All (Holds c) ps
      → sync_prompts on_change ps c w ≡ ((0, c), w)
  unfolding sync_prompts report
  sync_prompts_quiet [] c w h = refl
  sync_prompts_quiet (p ∷ ps) c w h = rw (note_prompt-Holds c p h.0) (sync_prompts_quiet ps c w h.1)

Holds-cons :
    (p : Prompt) (c : List CachedPrompt) (ps : List Prompt)
    → FitsPrompt p
    → All (λ q. p.name ≢ q.name) ps
    → All (Holds c) ps
    → All (Holds (cached p ∷ c)) ps
unfolding cached_content cached copy_to
Holds-cons p c [] f d h = tt
Holds-cons p c (q ∷ qs) f d h = (
  rw (take-eq_of_le 127 p.name f.0) (rw (text_eq_of_ne q.name p.name (λ e. d.0 (sym e))) h.0),
  Holds-cons p c qs f d.1 h.1,
)

Holds-map : (ps : List Prompt) → All FitsPrompt ps → NamesDiffer ps → All (Holds (map cached ps)) ps
unfolding cached_content cached copy_to
Holds-map [] f d = tt
Holds-map (p ∷ ps) f d = (
  rw (take-eq_of_le 127 p.name f.0.0, take-eq_of_le 65535 p.content f.0.1)
      (rw (text_eq_refl p.name) refl),
  Holds-cons p (map cached ps) ps f.0 d.0 (Holds-map ps f.1 d.1),
)

module _ {W : Type 0} (on_change : Text → Text → Call W (Unit {0})) (db : DbBackend W)
    (time : Call W ℤ) (ps : List Prompt) where
  -- The fetcher has polled, and its cache holds every prompt of `ps`.
  abbrev Knows : PromptFetcher → Type 0
  Knows pf = (pf.initialized ≡ true) × All (Holds pf.cache) ps

  Holds-compared :
      (b : Bool) (c : List CachedPrompt) (w : W)
      → All FitsPrompt ps
      → NamesDiffer ps
      → length c + length ps ≤ 64
      → All (Holds (compared on_change db time b ps c w).0.1) ps
  unfolding compared
  Holds-compared true c w f d room =
      rw (sync_prompts-settle on_change ps c w) (Holds-settle ps c f d room)
  Holds-compared false c w f d room = Holds-map ps f d

  Knows-prompt_fetcher_poll :
      (pf : PromptFetcher) (w w1 : W)
      → db.get_prompts w ≡ ((ps, true), w1)
      → All FitsPrompt ps
      → NamesDiffer ps
      → length pf.cache + length ps ≤ 64
      → Knows (prompt_fetcher_poll on_change db time pf w).0.1
  unfolding prompt_fetcher_poll poll_fetched
  Knows-prompt_fetcher_poll pf w w1 e f d room = rw e (
      rw (take-eq_of_le 64 ps (omega arith))
        (refl, Holds-compared pf.initialized pf.cache w1 f d room))

  prompt_fetcher_poll_known :
      (pf : PromptFetcher) (w w1 : W)
      → Knows pf
      → length ps ≤ 64
      → db.get_prompts w ≡ ((ps, true), w1)
      → prompt_fetcher_poll on_change db time pf w
        ≡ ((some 0, record pf { last_poll = (time w1).0 }), (time w1).1)
  unfolding prompt_fetcher_poll poll_fetched compared
  prompt_fetcher_poll_known pf w w1 (i, h) few e = rw e (
      rw (take-eq_of_le 64 ps few) (rw i (rw (sync_prompts_quiet on_change ps pf.cache w1 h) refl)))

-- After a poll that has fetched some prompts, a poll that fetches the same ones again reports no
-- change, calls no callback and changes nothing but the time of the last poll. The prompts have
-- different names, fit their buffers, and fit the cache together with what it held.
pub prompt_fetcher_poll_again :
    {W : Type 0} (on_change : Text → Text → Call W (Unit {0})) (db : DbBackend W) (time : Call W ℤ)
    (ps : List Prompt) (pf : PromptFetcher) (w w1 w2 : W)
    → All FitsPrompt ps
    → NamesDiffer ps
    → length pf.cache + length ps ≤ 64
    → db.get_prompts w ≡ ((ps, true), w1)
    → let first = prompt_fetcher_poll on_change db time pf w in
      db.get_prompts first.1 ≡ ((ps, true), w2)
      → prompt_fetcher_poll on_change db time first.0.1 first.1
        ≡ ((some 0, record first.0.1 { last_poll = (time w2).0 }), (time w2).1)
prompt_fetcher_poll_again on_change db time ps pf w w1 w2 f d room e1 e2 =
    let first = prompt_fetcher_poll on_change db time pf w in
    prompt_fetcher_poll_known on_change db time ps first.0.1 first.1 w2
      (Knows-prompt_fetcher_poll on_change db time ps pf w w1 e1 f d room) (omega arith) e2
