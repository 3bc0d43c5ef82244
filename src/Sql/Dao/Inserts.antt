-- ===== src/Sql/Dao/Inserts.antt =====
-- SqlDao::regUser over a working database, and over tables with and without a unique key.
use qt_chatting.Prelude.{String, true, false, List, [], ◌∷◌, ◌++◌, ◌≡◌, ap, ◌∙◌, threw, Runs}
use qt_chatting.Sql.Driver.{bind_string, type_string, type_var_string, MySql}
use qt_chatting.Sql.Pool.{Sql, give_back}
use qt_chatting.Sql.Pool.Working.{Has, get_connection-Runs, give_back-Has}
use qt_chatting.Sql.Laws
use qt_chatting.Sql.Laws.{User, has_email, has_login, set_hash, values}
use qt_chatting.Sql.Laws.Keys
use qt_chatting.Sql.Dao.{run_statement, insert_query, reg_user, insert_row}
use qt_chatting.Sql.Dao.Correct.{Ready, prepared, run_statement-Runs}

module _ {World : Type 0} (m : MySql World) (l : Laws.Working m) where
  -- What an execution of the insert has to do for regUser to return true.
  abbrev Inserts : String → String → String → List User → Type 0
  Inserts name email pwd_hash rows =
      (st : m.Stmt) (w : World)
      → Ready m l rows st insert_query (name ∷ email ∷ pwd_hash ∷ []) w
      → (v : World) × (m.stmt_execute st w ≡ (false, v))
        × ((l.rows v ≡ rows ++ record { name = name; email = email; pwd_hash = pwd_hash } ∷ [])
            × (m.stmt_affected_rows st v ≡ 1))

  insert_row-Runs :
      (name email pwd_hash : String) (rows : List User) (st : m.Stmt) (t : Sql m)
      → Inserts name email pwd_hash rows
      → Has m l rows t
      → Runs
          (insert_row m name email pwd_hash st)
          t
          true
          (Has m l (rows ++ record { name = name; email = email; pwd_hash = pwd_hash } ∷ []))
  unfolding insert_row
  insert_row-Runs name email pwd_hash rows st t exec h =
      let row : User = record { name = name; email = email; pwd_hash = pwd_hash } in
      let (u, ran, p) =
        run_statement-Runs m l st insert_query
          (bind_string type_var_string name
            ∷ bind_string type_string email
            ∷ bind_string type_string pwd_hash
            ∷ [])
          (λ v. (l.rows v ≡ rows ++ row ∷ []) × (m.stmt_affected_rows st v ≡ 1)) rows t h
          (exec st) in
      (u, rw (ran, p.0.1), record { rows_are = p.0.0; free = rw p.1 h.free })

  inserting-Runs :
      (name email pwd_hash : String) (rows : List User) (s : Sql m)
      → Inserts name email pwd_hash rows
      → Has m l rows s
      → Runs
          (reg_user m name email pwd_hash)
          s
          true
          (Has m l (rows ++ record { name = name; email = email; pwd_hash = pwd_hash } ∷ []))
  unfolding reg_user
  inserting-Runs name email pwd_hash rows s exec h =
      let (c, ran) = get_connection-Runs m l rows s h in
      let (t, out, h') = ran in
      let (st, w) = m.stmt_init c t.world in
      let u : Sql m = record t { world = w } in
      let hu : Has m l rows u = record {
        rows_are = l.stmt_init_lem c t.world ∙ h'.rows_are;
        free = h'.free;
      } in
      let (v, out', h'') = insert_row-Runs name email pwd_hash rows st u exec hu in
      (give_back m c v, rw (out, out'), give_back-Has m l _ c v h'')

  -- Over a database that obeys SQL and a pool with current_conn_ below max_conn_, where no row has
  -- the email, regUser returns true, and the table has one more row, with the name, the email and
  -- the hash at their places.
  pub reg_user-Runs :
      (name email pwd_hash : String) (rows : List User) (s : Sql m)
      → has_email l.same email rows ≡ false
      → Has m l rows s
      → Runs
          (reg_user m name email pwd_hash)
          s
          true
          (Has m l (rows ++ record { name = name; email = email; pwd_hash = pwd_hash } ∷ []))
  reg_user-Runs name email pwd_hash rows s new_email h =
      let row : User = record { name = name; email = email; pwd_hash = pwd_hash } in
      inserting-Runs name email pwd_hash rows s
        (λ st w r.
          let absent = ap (has_email l.same email) r.rows_are ∙ new_email in
          let (v, e, added, one_row) =
            l.execute_insert st name email pwd_hash w r.text_is r.params_are absent in
          (v, e, (added ∙ ap (λ rs. rs ++ row ∷ []) r.rows_are, one_row)))
        h

  -- On a table without a unique key it makes no difference whether a row has the email.
  pub reg_user-Runs_any :
      Keys.TakesAny m l
      → (name email pwd_hash : String) (rows : List User) (s : Sql m) → Has m l rows s
      → Runs
          (reg_user m name email pwd_hash)
          s
          true
          (Has m l (rows ++ record { name = name; email = email; pwd_hash = pwd_hash } ∷ []))
  reg_user-Runs_any any name email pwd_hash rows s h =
      let row : User = record { name = name; email = email; pwd_hash = pwd_hash } in
      inserting-Runs name email pwd_hash rows s
        (λ st w r.
          let (v, e, added, one_row) =
            any.execute_any st name email pwd_hash w r.text_is r.params_are in
          (v, e, (added ∙ ap (λ rs. rs ++ row ∷ []) r.rows_are, one_row)))
        h

  -- On a table with a unique key the insert of an email that has a row throws.
  pub reg_user_refused :
      Keys.HasKey m l
      → (name email pwd_hash : String) (rows : List User) (s : Sql m)
      → has_email l.same email rows ≡ true
      → Has m l rows s
      → (e : String) × (t : Sql m) × (reg_user m name email pwd_hash s ≡ (threw e, t))
        × Has m l rows t
  unfolding reg_user insert_row run_statement
  reg_user_refused key name email pwd_hash rows s known h =
      let (c, ran) = get_connection-Runs m l rows s h in
      let (t, out, h') = ran in
      let (st, w) = m.stmt_init c t.world in
      let (v, u, prep, bind, ready) =
        prepared m l st insert_query
          (bind_string type_var_string name
            ∷ bind_string type_string email
            ∷ bind_string type_string pwd_hash
            ∷ [])
          w in
      let same : l.rows u ≡ rows = ready.rows_are ∙ l.stmt_init_lem c t.world ∙ h'.rows_are in
      let (x, failed, kept) =
        key.execute_duplicate st name email pwd_hash u ready.text_is ready.params_are
          (ap (has_email l.same email) same ∙ known) in
      let after : Sql m = record t { world = x } in
      (
        m.stmt_error st x,
        give_back m c after,
        rw (out, prep, bind, failed),
        give_back-Has m l rows c after (record { rows_are = kept ∙ same; free = h'.free }),
      )
