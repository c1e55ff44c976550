-- ===== src/PromptFetcher/Cache.antt =====
-- The cache of src/ocr/prompt_fetcher.c behind one prompt.
use kaufbot.Prelude.{
  suc, ◌≤◌, ◌<◌, ◌≡◌, ◌≢◌, refl, sym, ap, ◌∙◌, true, false, Bool-cases, inl, inr, Option, none,
  some, List, [], ◌∷◌, ◌++◌, length, length-append, take, take-eq_of_le, arith, ltb,
}
use kaufbot.CText.{Text, copy_to, text_eq, text_eq_iff}
use kaufbot.Backend.{Prompt, db_prompt_content_len}
use kaufbot.PromptFetcher.{
  CachedPrompt, cached, cached_content, set_content, add_prompt, noted, note_prompt,
}

pub text_eq_refl : (a : Text) → text_eq a a ≡ true
text_eq_refl a = (text_eq_iff a a).1 refl

-- Two names that `text_eq` tells apart, from two that differ.
pub text_eq_of_ne : (a b : Text) → a ≢ b → text_eq a b ≡ false
text_eq_of_ne a b h = elim (Bool-cases (text_eq a b)) [
  | inl e ↦ absurd (h ((text_eq_iff a b).0 e))
  | inr e ↦ e
]

cached_content-append_ne :
    (cs : List CachedPrompt) (c : CachedPrompt) (n : Text)
    → text_eq n c.name ≡ false
    → cached_content (cs ++ c ∷ []) n ≡ cached_content cs n
unfolding cached_content
cached_content-append_ne [] c n h = rw h refl
cached_content-append_ne (x ∷ xs) c n h = elim (Bool-cases (text_eq n x.name)) [
  | inl e ↦ rw e refl
  | inr e ↦ rw e (cached_content-append_ne xs c n h)
]

cached_content-append :
    (cs : List CachedPrompt) (c : CachedPrompt)
    → cached_content cs c.name ≡ none
    → cached_content (cs ++ c ∷ []) c.name ≡ some c.content
unfolding cached_content
cached_content-append [] c h = rw (text_eq_refl c.name) refl
cached_content-append (x ∷ xs) c h = elim (Bool-cases (text_eq c.name x.name)) [
  | inl e ↦ absurd (ground (arith, h, e))
  | inr e ↦ rw e (cached_content-append xs c (ground (arith, h, e)))
]

cached_content-set_content_ne :
    (cs : List CachedPrompt) (m n content : Text)
    → n ≢ m
    → cached_content (set_content cs m content) n ≡ cached_content cs n
unfolding cached_content set_content
cached_content-set_content_ne [] m n content h = refl
cached_content-set_content_ne (x ∷ xs) m n content h = elim (Bool-cases (text_eq m x.name)) [
  | inl e ↦ rw e (rw (text_eq_of_ne n x.name (λ k. h (k ∙ sym ((text_eq_iff m x.name).0 e)))) refl)
  | inr e ↦ rw e (elim (Bool-cases (text_eq n x.name)) [
    | inl k ↦ rw k refl
    | inr k ↦ rw k (cached_content-set_content_ne xs m n content h)
  ])
]

cached_content-set_content :
    (cs : List CachedPrompt) (m content old : Text)
    → cached_content cs m ≡ some old
    → cached_content (set_content cs m content) m ≡ some content
unfolding cached_content set_content
cached_content-set_content [] m content old h = absurd (cc)
cached_content-set_content (x ∷ xs) m content old h = elim (Bool-cases (text_eq m x.name)) [
  | inl e ↦ rw e (rw e refl)
  | inr e ↦ rw e (rw e (cached_content-set_content xs m content old (ground (arith, h, e))))
]

length-set_content :
    (cs : List CachedPrompt) (m content : Text) → length (set_content cs m content) ≡ length cs
unfolding set_content
length-set_content [] m content = refl
length-set_content (x ∷ xs) m content = elim (Bool-cases (text_eq m x.name)) [
  | inl e ↦ rw e refl
  | inr e ↦ rw e (ap suc (length-set_content xs m content))
]

-- The cache after a prompt, changed or not.
abbrev pub cache_or : List CachedPrompt → Option (List CachedPrompt) → List CachedPrompt
cache_or cache none = cache
cache_or cache (some cache') = cache'

unfoldable pub step : List CachedPrompt → Prompt → List CachedPrompt
step cache p = cache_or cache (note_prompt cache p)

-- A prompt that the database's columns and the buffers hold whole.
abbrev pub FitsPrompt : Prompt → Type 0
FitsPrompt p = (length p.name ≤ 127) × (length p.content ≤ 65535)

pub step_same :
    (c : List CachedPrompt) (p : Prompt)
    → FitsPrompt p
    → length c < 64
    → cached_content (step c p) p.name ≡ some p.content
unfolding step note_prompt noted add_prompt cached copy_to
step_same c p (n, t) room =
    elim (cached_content c p.name)
        as (λ o.
          cached_content c p.name ≡ o
          → cached_content (cache_or c (noted c p o)) p.name ≡ some p.content) [
            | none ↦ λ e.
                let has_room : ltb (length c) 64 ≡ true = ground (arith, room) in
                rw has_room (
                  rw (take-eq_of_le 127 p.name n, take-eq_of_le 65535 p.content t)
                    (cached_content-append c (record { name = p.name; content = p.content }) e))
            | some old ↦ λ e. elim (Bool-cases (text_eq p.content old)) [
              | inl same ↦ rw same (e ∙ ap some (sym ((text_eq_iff p.content old).0 same)))
              | inr new ↦ rw new (
                  rw (take-eq_of_le 65535 p.content t)
                    (cached_content-set_content c p.name p.content old e))
            ]
          ]
      refl

pub step_other :
    (c : List CachedPrompt) (p : Prompt) (n : Text)
    → FitsPrompt p
    → n ≢ p.name
    → cached_content (step c p) n ≡ cached_content c n
unfolding step note_prompt noted add_prompt cached copy_to
step_other c p n (f, t) h =
    elim (cached_content c p.name)
      as (λ o. cached_content (cache_or c (noted c p o)) n ≡ cached_content c n) [
        | none ↦ elim (Bool-cases (ltb (length c) 64)) [
          | inl e ↦ rw e (
              cached_content-append_ne c
                (record { name = take 127 p.name; content = take 65535 p.content }) n
                (rw (take-eq_of_le 127 p.name f) (text_eq_of_ne n p.name h)))
          | inr e ↦ rw e refl
        ]
        | some old ↦ elim (Bool-cases (text_eq p.content old)) [
          | inl same ↦ rw same refl
          | inr new ↦ rw new (cached_content-set_content_ne c p.name n (take 65535 p.content) h)
        ]
      ]

pub length-step : (c : List CachedPrompt) (p : Prompt) → length (step c p) ≤ suc (length c)
unfolding step note_prompt noted add_prompt
length-step c p =
    elim (cached_content c p.name) as (λ o. length (cache_or c (noted c p o)) ≤ suc (length c)) [
      | none ↦ elim (Bool-cases (ltb (length c) 64)) [
        | inl e ↦ rw e (omega (arith, length-append {0} c (cached p ∷ [])))
        | inr e ↦ rw e (omega arith)
      ]
      | some old ↦ elim (Bool-cases (text_eq p.content old)) [
        | inl same ↦ rw same (omega arith)
        | inr new ↦
            rw new
              (omega (arith, length-set_content c p.name (copy_to db_prompt_content_len p.content)))
      ]
    ]
