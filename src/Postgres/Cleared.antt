-- ===== src/Postgres/Cleared.antt =====
-- Every operation of src/db/db_postgres.c clears the result that it is given.
use kaufbot.Prelude.{ℕ, suc, ◌<◌, ◌≡◌, ap, ◌∙◌, Bool, true, false, List, [], ◌∷◌, ℤ, arith, Call}
use kaufbot.CText.{Text}
use kaufbot.Backend.{FileRecord}
use kaufbot.Backend.Balance.{Balanced, AllBalanced}
use kaufbot.Postgres.Defs.{Libpq, id_str, file_tuple, then_clear, select_one, select_all, command}
use kaufbot.Postgres.Queries.{
  receipt_tuple, prompt_tuple, postgres_find_by_hash, postgres_find_by_id,
  postgres_get_parsed_receipt, postgres_list, postgres_get_prompts,
}
use kaufbot.Postgres.Changes.{
  postgres_insert, postgres_mark_ocr_done, postgres_mark_parsing_done, postgres_update_prompt,
  postgres_delete_file,
}
use kaufbot.Postgres.Open.{
  seed_ocr, seed_parser, pg_exec, pg_schema, after_schema, after_connect, conninfo, postgres_open,
  postgres_ops,
}

-- How many results a call of libpq leaves alive: a result lives from the statement that returns it to
-- the call that clears it.
pub record Results {W : Type 0} (pq : Libpq W) : Type 0 where
  pub live : W → ℕ
  pub live_exec :
      (sql : Text) (params : List Text) (w : W)
      → live (pq.exec_params sql params w).1 ≡ suc (live w)
  pub live_clear : (res : pq.Res) (w : W) → 0 < live w → live w ≡ suc (live (pq.clear res w).1)
  pub live_now : (w : W) → live (pq.now_iso8601 w).1 ≡ live w
  pub live_connect : (conninfo : Text) (w : W) → live (pq.connect conninfo w).1 ≡ live w

module _ {W : Type 0} (pq : Libpq W) (l : Results pq) where
  -- A statement whose result is cleared.
  exec_then_clear :
      (sql : Text) (params : List Text) (w : W)
      → l.live (pq.clear (pq.exec_params sql params w).0 (pq.exec_params sql params w).1).1
        ≡ l.live w
  exec_then_clear sql params w =
      let r = pq.exec_params sql params w in
      omega (
        arith,
        l.live_exec sql params w,
        l.live_clear r.0 r.1 (omega (arith, l.live_exec sql params w)),
      )

  select_one-Balanced :
      {A : Type 0} (sql : Text) (params : List Text) (row : pq.Res → ℕ → W → A)
      → Balanced l.live (select_one pq sql params row)
  unfolding select_one then_clear
  select_one-Balanced sql params row w = exec_then_clear sql params w

  select_all-Balanced :
      {A : Type 0} (sql : Text) (row : pq.Res → ℕ → W → A) → Balanced l.live (select_all pq sql row)
  unfolding select_all then_clear
  select_all-Balanced sql row w = exec_then_clear sql [] w

  command-Balanced : (sql : Text) (params : List Text) → Balanced l.live (command pq sql params)
  unfolding command then_clear
  command-Balanced sql params w = exec_then_clear sql params w

  postgres_insert-Balanced : (rec : FileRecord) → Balanced l.live (postgres_insert pq rec)
  unfolding postgres_insert then_clear
  postgres_insert-Balanced rec w = exec_then_clear _ _ (pq.now_iso8601 w).1 ∙ l.live_now w

  postgres_delete_file-Balanced : (id : ℤ) → Balanced l.live (postgres_delete_file pq id)
  unfolding postgres_delete_file then_clear
  postgres_delete_file-Balanced id w = exec_then_clear _ _ w

-- Each of the ten operations of the PostgreSQL backend clears, on all of its branches, the result that
-- it is given, and so leaves as many alive as it finds.
pub postgres_ops-AllBalanced :
    {W : Type 0} (pq : Libpq W) (l : Results pq) → AllBalanced l.live (postgres_ops pq)
unfolding postgres_ops postgres_find_by_hash postgres_find_by_id postgres_mark_ocr_done
    postgres_mark_parsing_done postgres_get_parsed_receipt postgres_list postgres_get_prompts
    postgres_update_prompt
postgres_ops-AllBalanced pq l = (
  λ hash w. select_one-Balanced pq l _ (hash ∷ []) (file_tuple pq) w,
  λ id w. select_one-Balanced pq l _ (id_str id ∷ []) (file_tuple pq) w,
  λ rec w. postgres_insert-Balanced pq l rec w,
  λ id name w. command-Balanced pq l _ _ w,
  λ id json w. command-Balanced pq l _ _ w,
  λ id w. select_one-Balanced pq l _ (id_str id ∷ []) (receipt_tuple pq) w,
  λ w. select_all-Balanced pq l _ (file_tuple pq) w,
  λ w. select_all-Balanced pq l _ (prompt_tuple pq) w,
  λ id content w. command-Balanced pq l _ _ w,
  λ id w. postgres_delete_file-Balanced pq l id w,
)

module _ {W : Type 0} (pq : Libpq W) (l : Results pq) where
  -- A call that ends well leaves two more alive.
  abbrev pub Leaks : Call W Bool → Type 0
  Leaks m = (w : W) → (m w).0 ≡ true → l.live (m w).1 ≡ suc (suc (l.live w))

  after_schema-Leaks : (ok : Bool) → Leaks (after_schema pq ok)
  unfolding after_schema
  after_schema-Leaks false w h = absurd (cc)
  after_schema-Leaks true w h =
      l.live_exec seed_parser [] (pq.exec_params seed_ocr [] w).1
      ∙ ap suc (l.live_exec seed_ocr [] w)

  pg_exec-Balanced : (sql : Text) → Balanced l.live (pg_exec pq sql)
  unfolding pg_exec then_clear
  pg_exec-Balanced sql w = exec_then_clear pq l sql [] w

  after_connect-Leaks : (ok : Bool) → Leaks (after_connect pq ok)
  unfolding after_connect
  after_connect-Leaks false w h = absurd (cc)
  after_connect-Leaks true w h =
      let r = pg_exec pq pg_schema w in
      after_schema-Leaks r.0 r.1 h ∙ ap (λ n. suc (suc n)) (pg_exec-Balanced pg_schema w)

  -- A backend that was opened has left the results of its two prompts alive.
  pub postgres_open-Leaks :
      (host port name user password ssl_mode : Text)
      → Leaks (postgres_open pq host port name user password ssl_mode)
  unfolding postgres_open
  postgres_open-Leaks host port name user password ssl_mode w h =
      let c = pq.connect (conninfo host port name user password ssl_mode) w in
      after_connect-Leaks c.0 c.1 h ∙ ap (λ n. suc (suc n)) (l.live_connect _ w)
