-- ===== src/Sqlite/Finalized.antt =====
-- Every function of src/db/db_sqlite.c finalizes the statement that it prepares.
use kaufbot.Prelude.{
  ℕ, zero, suc, ◌<◌, ◌≡◌, refl, ◌∙◌, Bool, true, false, Option, none, some, List, [], ◌∷◌, ℤ, arith,
  Call,
}
use kaufbot.CText.{Text}
use kaufbot.Backend.{FileRecord}
use kaufbot.Backend.Balance.{Balanced, AllBalanced}
use kaufbot.Sqlite.Defs.{
  Sqlite, Stepped, step_row, step_done, step_error, Bound, bound_text, bound_int, with_stmt,
  prepared, bind_one, bind_from, bind_all, file_row, first_row, query_one, run_once,
}
use kaufbot.Sqlite.Queries.{sqlite_find_by_hash, sqlite_find_by_id}
use kaufbot.Sqlite.Changes.{
  inserted, any_changes, sqlite_insert, sqlite_mark_ocr_done, sqlite_update_prompt,
  sqlite_delete_file,
}
use kaufbot.Sqlite.Receipts.{
  sqlite_check_parsed_exists, sqlite_update_parsed, sqlite_insert_parsed, store_parsed,
  sqlite_mark_parsing_done, receipt_row, sqlite_get_parsed_receipt,
}
use kaufbot.Sqlite.Lists.{
  prompt_row, row_behind, fetch_rows, query_all, sqlite_list, sqlite_get_prompts,
}
use kaufbot.Sqlite.Open.{sqlite_ops}

-- How many statements a call of SQLite leaves alive: a statement lives from the call that prepares
-- it to the one that finalizes it.
pub record Statements {W : Type 0} (sq : Sqlite W) : Type 0 where
  pub live : W → ℕ
  pub live_bind_text :
      (s : sq.Stmt) (n : ℕ) (t : Text) (w : W) → live (sq.bind_text s n t w).1 ≡ live w
  pub live_bind_int64 :
      (s : sq.Stmt) (n : ℕ) (z : ℤ) (w : W) → live (sq.bind_int64 s n z w).1 ≡ live w
  pub live_step : (s : sq.Stmt) (w : W) → live (sq.step s w).1 ≡ live w
  pub live_now : (w : W) → live (sq.now_iso8601 w).1 ≡ live w
  pub live_failed :
      (sql : Text) (w : W) → (sq.prepare sql w).0 ≡ none → live (sq.prepare sql w).1 ≡ live w
  pub live_prepared :
      (sql : Text) (s : sq.Stmt) (w : W)
      → (sq.prepare sql w).0 ≡ some s
      → live (sq.prepare sql w).1 ≡ suc (live w)
  pub live_finalize : (s : sq.Stmt) (w : W) → 0 < live w → live w ≡ suc (live (sq.finalize s w).1)

module _ {W : Type 0} (sq : Sqlite W) (l : Statements sq) where
  -- A call with a statement in hand finalizes it.
  abbrev Finalizes : {A : Type 0} → Call W A → Type 0
  Finalizes m = (n : ℕ) (w : W) → l.live w ≡ suc n → l.live (m w).1 ≡ n

  finalize_lem : (s : sq.Stmt) → Finalizes (sq.finalize s)
  finalize_lem s n w h = omega (arith, l.live_finalize s w (omega arith))

  prepared-Balanced :
      {A : Type 0} (sql : Text) (failure : A) (body : sq.Stmt → Call W A)
      → ((s : sq.Stmt) → Finalizes (body s))
      → Balanced l.live (prepared sq sql failure body)
  unfolding prepared with_stmt
  prepared-Balanced sql failure body h w =
      elim (sq.prepare sql w).0
          as (λ o.
            (sq.prepare sql w).0 ≡ o
            → l.live (with_stmt sq failure body o (sq.prepare sql w).1).1 ≡ l.live w) [
              | none ↦ λ e. l.live_failed sql w e
              | some s ↦ λ e. h s (l.live w) (sq.prepare sql w).1 (l.live_prepared sql s w e)
            ]
        refl

  bind_one-Balanced : (s : sq.Stmt) (n : ℕ) (b : Bound) → Balanced l.live (bind_one sq s n b)
  unfolding bind_one
  bind_one-Balanced s n (bound_text t) w = l.live_bind_text s n t w
  bind_one-Balanced s n (bound_int z) w = l.live_bind_int64 s n z w

  bind_from-Balanced :
      (s : sq.Stmt) (n : ℕ) (bs : List Bound) → Balanced l.live (bind_from sq s n bs)
  unfolding bind_from
  bind_from-Balanced s n [] w = refl
  bind_from-Balanced s n (b ∷ bs) w =
      bind_from-Balanced s (suc n) bs (bind_one sq s n b w).1 ∙ bind_one-Balanced s n b w

  -- The binds and the step.
  step_live :
      (s : sq.Stmt) (bs : List Bound) (w : W)
      → l.live (sq.step s (bind_all sq s bs w).1).1 ≡ l.live w
  unfolding bind_all
  step_live s bs w = l.live_step s (bind_from sq s 1 bs w).1 ∙ bind_from-Balanced s 1 bs w

  first_row-Finalizes :
      {A : Type 0} (row : sq.Stmt → W → A) (s : sq.Stmt) (rc : Stepped)
      → Finalizes (first_row sq row s rc)
  unfolding first_row
  first_row-Finalizes row s step_row n w h = finalize_lem s n w h
  first_row-Finalizes row s step_done n w h = finalize_lem s n w h
  first_row-Finalizes row s step_error n w h = finalize_lem s n w h

  query_one-Balanced :
      {A : Type 0} (sql : Text) (bs : List Bound) (row : sq.Stmt → W → A)
      → Balanced l.live (query_one sq sql bs row)
  unfolding query_one
  query_one-Balanced sql bs row = prepared-Balanced sql _ _ λ s n w h.
      first_row-Finalizes row s _ n (sq.step s (bind_all sq s bs w).1).1 (step_live s bs w ∙ h)

  run_once-Balanced : (sql : Text) (bs : List Bound) → Balanced l.live (run_once sq sql bs)
  unfolding run_once
  run_once-Balanced sql bs =
      prepared-Balanced sql _ _
        λ s n w h. finalize_lem s n (sq.step s (bind_all sq s bs w).1).1 (step_live s bs w ∙ h)

  row_behind-Balanced :
      {A : Type 0} (row : sq.Stmt → W → A) (rest : Call W (List A × Stepped)) (s : sq.Stmt)
      (rc : Stepped)
      → Balanced l.live rest
      → Balanced l.live (row_behind sq row rest s rc)
  unfolding row_behind
  row_behind-Balanced row rest s step_row h w = h w
  row_behind-Balanced row rest s step_done h w = refl
  row_behind-Balanced row rest s step_error h w = refl

  fetch_rows-Balanced :
      {A : Type 0} (fuel : ℕ) (row : sq.Stmt → W → A) (s : sq.Stmt)
      → Balanced l.live (fetch_rows sq fuel row s)
  unfolding fetch_rows
  fetch_rows-Balanced zero row s w = refl
  fetch_rows-Balanced (suc fuel) row s w =
      row_behind-Balanced row (fetch_rows sq fuel row s) s (sq.step s w).0
        (fetch_rows-Balanced fuel row s) (sq.step s w).1
      ∙ l.live_step s w

  query_all-Balanced :
      {A : Type 0} (fuel : ℕ) (sql : Text) (row : sq.Stmt → W → A)
      → Balanced l.live (query_all sq fuel sql row)
  unfolding query_all
  query_all-Balanced fuel sql row = prepared-Balanced sql _ _ λ s n w h.
      finalize_lem s n (fetch_rows sq fuel row s w).1 (fetch_rows-Balanced fuel row s w ∙ h)

  inserted-Balanced :
      (rec : FileRecord) (now : Text) (ok : Bool) → Balanced l.live (inserted sq rec now ok)
  unfolding inserted
  inserted-Balanced rec now true w = refl
  inserted-Balanced rec now false w = refl

  sqlite_insert-Balanced : (rec : FileRecord) → Balanced l.live (sqlite_insert sq rec)
  unfolding sqlite_insert
  sqlite_insert-Balanced rec w =
      inserted-Balanced rec _ _ _ ∙ run_once-Balanced _ _ (sq.now_iso8601 w).1 ∙ l.live_now w

  any_changes-Balanced : (ok : Bool) → Balanced l.live (any_changes sq ok)
  unfolding any_changes
  any_changes-Balanced true w = refl
  any_changes-Balanced false w = refl

  sqlite_check_parsed_exists-Balanced :
      (id : ℤ) → Balanced l.live (sqlite_check_parsed_exists sq id)
  unfolding sqlite_check_parsed_exists
  sqlite_check_parsed_exists-Balanced id = prepared-Balanced _ _ _ λ s n w h.
      finalize_lem s n (sq.step s (bind_all sq s (bound_int id ∷ []) w).1).1
        (step_live s (bound_int id ∷ []) w ∙ h)

  store_parsed-Balanced :
      (id : ℤ) (json now : Text) (o : Option Bool) → Balanced l.live (store_parsed sq id json now o)
  unfolding store_parsed sqlite_update_parsed sqlite_insert_parsed
  store_parsed-Balanced id json now none w = refl
  store_parsed-Balanced id json now (some true) w = run_once-Balanced _ _ w
  store_parsed-Balanced id json now (some false) w = run_once-Balanced _ _ w

  sqlite_mark_parsing_done-Balanced :
      (id : ℤ) (json : Text) → Balanced l.live (sqlite_mark_parsing_done sq id json)
  unfolding sqlite_mark_parsing_done
  sqlite_mark_parsing_done-Balanced id json w =
      store_parsed-Balanced id json _ _ _
      ∙ sqlite_check_parsed_exists-Balanced id (sq.now_iso8601 w).1
      ∙ l.live_now w

-- Each of the ten operations of the SQLite backend finalizes, on all of its branches, the statements
-- that it prepares, and so leaves as many alive as it finds; SQLite itself only makes one alive where
-- it prepares one, and ends one where it finalizes one.
pub sqlite_ops-AllBalanced :
    {W : Type 0} (sq : Sqlite W) (l : Statements sq) (fuel : ℕ)
    → AllBalanced l.live (sqlite_ops sq fuel)
unfolding sqlite_ops sqlite_find_by_hash sqlite_find_by_id sqlite_mark_ocr_done
    sqlite_get_parsed_receipt sqlite_list sqlite_get_prompts sqlite_update_prompt sqlite_delete_file
sqlite_ops-AllBalanced sq l fuel = (
  λ hash w. query_one-Balanced sq l _ (bound_text hash ∷ []) (file_row sq) w,
  λ id w. query_one-Balanced sq l _ (bound_int id ∷ []) (file_row sq) w,
  λ rec w. sqlite_insert-Balanced sq l rec w,
  λ id name w. run_once-Balanced sq l _ _ (sq.now_iso8601 w).1 ∙ l.live_now w,
  λ id json w. sqlite_mark_parsing_done-Balanced sq l id json w,
  λ id w. query_one-Balanced sq l _ (bound_int id ∷ []) (receipt_row sq) w,
  λ w. query_all-Balanced sq l fuel _ (file_row sq) w,
  λ w. query_all-Balanced sq l fuel _ (prompt_row sq) w,
  λ id content w. run_once-Balanced sq l _ _ (sq.now_iso8601 w).1 ∙ l.live_now w,
  λ id w. any_changes-Balanced sq l _ _ ∙ run_once-Balanced sq l _ _ w,
)
