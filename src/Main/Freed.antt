-- ===== src/Main/Freed.antt =====
-- `main` (src/main.c) frees each part that it has made, wherever the start fails.
use kaufbot.Prelude.{
  ℕ, if◌then◌else◌, ◌==◌, ◌+◌, ◌<◌, ◌≡◌, refl, ◌∙◌, Bool, true, false, arith, Call, pure,
}
use kaufbot.Main.{
  Part, part_storage, part_db, part_repo, part_ocr, part_processor, part_bot, AppContainer, Parts,
  empty_container, with_part, free_if, container_destroy, go_on, make_part, checked_call,
  container_init_services, container_init, after_init, main,
}

unfoldable pub rank : Part → ℕ
rank part_storage = 0
rank part_db = 1
rank part_repo = 2
rank part_ocr = 3
rank part_processor = 4
rank part_bot = 5

-- 1 for a part and itself, and 0 for two different ones.
unfoldable pub same : Part → Part → ℕ
unfolding rank
same p q = if rank p == rank q then 1 else 0

same_self : (p : Part) → same p p ≡ 1
unfolding same
same_self p = ground arith

-- How many of each part the calls leave alive: making a part that succeeds makes one of it and none
-- of another, freeing a part that is alive ends one of it and none of another, and the other calls
-- change none.
pub record Lifetimes {W : Type 0} (parts : Parts W) : Type 0 where
  pub live : Part → W → ℕ
  pub live_config : (q : Part) (w : W) → live q (parts.config_load w).1 ≡ live q w
  pub live_dirs : (q : Part) (w : W) → live q (parts.ensure_dirs w).1 ≡ live q w
  pub live_made :
      (p q : Part) (w : W)
      → (parts.make p w).0 ≡ true
      → live q (parts.make p w).1 ≡ same p q + live q w
  pub live_failed :
      (p q : Part) (w : W) → (parts.make p w).0 ≡ false → live q (parts.make p w).1 ≡ live q w
  pub live_free :
      (p q : Part) (w : W) → 0 < live p w → live q w ≡ same p q + live q (parts.free p w).1
  pub live_notify : (q : Part) (w : W) → live q (parts.bot_notify_startup w).1 ≡ live q w
  pub live_bot : (q : Part) (w : W) → live q (parts.bot_start w).1 ≡ live q w

-- How many of the part `q` a pointer to the part `p` holds.
abbrev held_by : Bool → Part → Part → ℕ
held_by true p q = same p q
held_by false p q = 0

-- How many of the part `q` the container holds.
abbrev held : Part → AppContainer → ℕ
held q c =
    held_by c.storage part_storage q
    + (held_by c.db part_db q
        + (held_by c.repo part_repo q
            + (held_by c.ocr part_ocr q
                + (held_by c.processor part_processor q + held_by c.bot part_bot q))))

module _ {W : Type 0} (parts : Parts W) (l : Lifetimes parts) (base : Part → ℕ) where
  free_if_lem :
      (b : Bool) (p : Part) (n : Part → ℕ) (w : W)
      → ((q : Part) → l.live q w ≡ n q + held_by b p q)
      → (q : Part) → l.live q (free_if parts b p w).1 ≡ n q
  unfolding free_if
  free_if_lem true p n w h q =
      let alive : 0 < l.live p w = omega (arith, h p, same_self p) in
      omega (arith, l.live_free p q w alive, h q)
  free_if_lem false p n w h q = omega (arith, h q)

  container_destroy_lem :
      (c : AppContainer) (w : W)
      → ((q : Part) → l.live q w ≡ base q + held q c)
      → (q : Part) → l.live q (container_destroy parts c w).1 ≡ base q
  unfolding container_destroy
  container_destroy_lem c w h =
      let n1 : Part → ℕ = λ q. base q + held_by c.storage part_storage q in
      let n2 : Part → ℕ = λ q. n1 q + held_by c.db part_db q in
      let n3 : Part → ℕ = λ q. n2 q + held_by c.repo part_repo q in
      let n4 : Part → ℕ = λ q. n3 q + held_by c.ocr part_ocr q in
      let n5 : Part → ℕ = λ q. n4 q + held_by c.processor part_processor q in
      free_if_lem c.storage part_storage base _ (
        free_if_lem c.db part_db n1 _ (
          free_if_lem c.repo part_repo n2 _ (
            free_if_lem c.ocr part_ocr n3 _ (
              free_if_lem c.processor part_processor n4 _
                (free_if_lem c.bot part_bot n5 w (λ q. omega (arith, h q)))))))

  -- The container holds what was made.
  abbrev Accounts : AppContainer → W → Type 0
  Accounts c w = (q : Part) → l.live q w ≡ base q + held q c

  abbrev Init : (AppContainer → Call W (Bool × AppContainer)) → AppContainer → Type 0
  Init m c = (w : W) → Accounts c w → Accounts (m c w).0.1 (m c w).1

  go_on_lem :
      (rest : AppContainer → Call W (Bool × AppContainer)) (c c' : AppContainer) (b : Bool) (w : W)
      → (b ≡ true → Accounts c' w)
      → (b ≡ false → Accounts c w)
      → Init rest c'
      → Accounts (go_on parts rest c c' b w).0.1 (go_on parts rest c c' b w).1
  unfolding go_on
  go_on_lem rest c c' true w t f h = h w (t refl)
  go_on_lem rest c c' false w t f h = f refl

  make_part_lem :
      (p : Part) (rest : AppContainer → Call W (Bool × AppContainer)) (c : AppContainer)
      → ((q : Part) → held q (with_part p c) ≡ same p q + held q c)
      → Init rest (with_part p c)
      → Init (make_part parts p rest) c
  unfolding make_part
  make_part_lem p rest c e h w a =
      go_on_lem rest c (with_part p c) (parts.make p w).0 (parts.make p w).1
        (λ t q. omega (arith, l.live_made p q w t, a q, e q)) (λ f q. l.live_failed p q w f ∙ a q) h

  checked_call_lem :
      (call : Call W Bool) (rest : AppContainer → Call W (Bool × AppContainer)) (c : AppContainer)
      → ((q : Part) (w : W) → l.live q (call w).1 ≡ l.live q w)
      → Init rest c
      → Init (checked_call parts call rest) c
  unfolding checked_call
  checked_call_lem call rest c e h w a =
      go_on_lem rest c c (call w).0 (call w).1 (λ t q. e q w ∙ a q) (λ f q. e q w ∙ a q) h

  abbrev Rest : Type 0
  Rest = AppContainer → Call W (Bool × AppContainer)

  container_init_lem : Init (container_init parts) empty_container
  unfolding container_init container_init_services with_part
  container_init_lem =
      let c1 : AppContainer = with_part part_storage empty_container in
      let c2 : AppContainer = with_part part_db c1 in
      let c3 : AppContainer = with_part part_repo c2 in
      let c4 : AppContainer = with_part part_ocr c3 in
      let c5 : AppContainer = with_part part_processor c4 in
      let done : Rest = λ c. pure (true, c) in
      let bot : Rest = make_part parts part_bot done in
      let processor : Rest = make_part parts part_processor bot in
      let ocr : Rest = make_part parts part_ocr processor in
      let services : Rest = container_init_services parts in
      let db : Rest = make_part parts part_db services in
      let dirs : Rest = checked_call parts parts.ensure_dirs db in
      let storage : Rest = make_part parts part_storage dirs in
      checked_call_lem parts.config_load storage empty_container l.live_config (
        make_part_lem part_storage dirs empty_container (λ q. omega arith)
          (checked_call_lem parts.ensure_dirs db c1 l.live_dirs (
            make_part_lem part_db services c1 (λ q. omega arith)
              (make_part_lem part_repo ocr c2 (λ q. omega arith)
                (make_part_lem part_ocr processor c3 (λ q. omega arith)
                  (make_part_lem part_processor bot c4 (λ q. omega arith)
                    (make_part_lem part_bot done c5 (λ q. omega arith) (λ w a. a))))))))

  after_init_lem :
      (r : Bool × AppContainer) (w : W)
      → Accounts r.1 w
      → (q : Part) → l.live q (after_init parts r w).1 ≡ base q
  unfolding after_init
  after_init_lem (false, c) w a = container_destroy_lem c w a
  after_init_lem (true, c) w a =
      container_destroy_lem c _
        (λ q. l.live_bot q (parts.bot_notify_startup w).1 ∙ l.live_notify q w ∙ a q)

-- Whether the start fails at any of its steps or the bot has run and ended, `main` leaves as many of
-- each single part alive as it finds: a part that was made is freed, and none is freed twice or
-- without having been made. Making and freeing a part is taken to change no other.
pub main_frees :
    {W : Type 0} (parts : Parts W) (l : Lifetimes parts) (part : Part) (w : W)
    → l.live part (main parts w).1 ≡ l.live part w
unfolding main
main_frees parts l part w =
    let r = container_init parts empty_container w in
    let before : Part → ℕ = λ q. l.live q w in
    after_init_lem parts l before r.0 r.1 (container_init_lem parts l before w (λ q. omega arith))
      part
