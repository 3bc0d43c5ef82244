-- ===== src/Sql/Dao/Correct.antt =====
-- SqlDao.cpp over a working database: what each method returns and what it does to the table.
use qt_chatting.Prelude.{
  ℕ, String, Bool, true, false, ◌==◌, List, [], ◌∷◌, ◌≡◌, refl, ap, ◌∙◌, arith, inl, inr,
  Bool-cases, leb, if◌then◌else◌, Exec, Outcome, returned, Runs, Runs-bind, ◌>>=◌,
}
use qt_chatting.Sql.Driver.{Bind, bind_string, type_string, MySql}
use qt_chatting.Sql.Pool.{Sql, give_back}
use qt_chatting.Sql.Pool.Working.{Has, get_connection-Runs, give_back-Has}
use qt_chatting.Sql.Laws
use qt_chatting.Sql.Laws.{User, has_email, has_login, set_hash, values}
use qt_chatting.Sql.Dao.{
  run_statement, has_row, close_if, with_statement, updated, exists_query, update_query,
  verify_query, email_exists, update_pwd, verify_pwd, select_email, select_login, update_row,
}

found_result :
    {S : Type 0} (found : Bool) (s : S)
    → ◌≡◌ {A = Outcome Bool × S} (returned ((if found then 0 else 100) == 0), s) (returned found, s)
found_result true s = refl
found_result false s = refl

zero-leb : (n : ℕ) → leb 0 n ≡ true
zero-leb n = ground arith

module _ {World : Type 0} (m : MySql World) (l : Laws.Working m) where
  -- A prepared and bound statement, ready to be executed: the state before `mysql_stmt_execute`.
  pub record Ready (rows : List User) (st : m.Stmt) (q : String) (ps : List String) (w : World)
      : Type 0 where
    pub text_is : l.text st w ≡ q
    pub params_are : l.params st w ≡ ps
    pub rows_are : l.rows w ≡ rows

  pub prepared :
      (st : m.Stmt) (q : String) (bs : List Bind) (w : World)
      → (v u : World) × (m.stmt_prepare st q w ≡ (false, v))
        × (m.stmt_bind_param st bs v ≡ (false, u))
        × Ready (l.rows w) st q (values bs) u
  prepared st q bs w =
      let (v, e, t, r) = l.prepare_lem st q w in
      let (u, e', p, t', r') = l.bind_param_lem st bs v in
      (v, u, e, e', record { text_is = t' ∙ t; params_are = p; rows_are = r' ∙ r })

  -- If the execution of the ready statement succeeds with `P`, the three calls return with `P`.
  pub run_statement-Runs :
      (st : m.Stmt) (q : String) (bs : List Bind) (P : World → Type 0) (rows : List User)
      (s : Sql m)
      → Has m l rows s
      → ((w : World)
          → Ready rows st q (values bs) w
          → (v : World) × (m.stmt_execute st w ≡ (false, v)) × P v)
      → Runs (run_statement m st q bs) s tt (λ t. P t.world × (t.conns ≡ s.conns))
  unfolding run_statement
  run_statement-Runs st q bs P rows s h exec =
      let (v, u, prep, bind, ready) = prepared st q bs s.world in
      let same = ready.rows_are ∙ h.rows_are in
      let (w, done, p) =
        exec u
          (record { text_is = ready.text_is; params_are = ready.params_are; rows_are = same }) in
      (record s { world = w }, rw (prep, bind, done), (p, refl))

  -- A statement with a result set: is there a row?
  has_row-Runs :
      (st : m.Stmt) (found : Bool) (rows : List User) (s : Sql m)
      → l.has_result st s.world ≡ found
      → Has m l rows s
      → Runs (has_row m st) s found (Has m l rows)
  unfolding has_row
  has_row-Runs st found rows s r h =
      let (same, kept) = l.store_result_lem st s.world in
      let (v, bound, same', kept') = l.bind_result_lem st (m.stmt_store_result st s.world) in
      let (w, fetched, same'', no_error) = l.fetch_lem st v in
      let f : l.has_result st v ≡ found = kept' ∙ kept ∙ r in
      (
        record s { world = w },
        rw (bound, fetched, no_error, f) (found_result found (record s { world = w })),
        record { rows_are = same'' ∙ same' ∙ same ∙ h.rows_are; free = h.free },
      )

  close_if-Has :
      (rows : List User) (st : m.Stmt) (s : Sql m) → Has m l rows s → Has m l rows (close_if m st s)
  unfolding close_if
  close_if-Has rows st s h = elim (Bool-cases (m.stmt_is_null st)) [
    | inl null ↦ rw null h
    | inr open_ ↦
        rw open_ (record { rows_are = l.close_lem st s.world ∙ h.rows_are; free = h.free })
  ]

  with_statement-Runs :
      (body : m.Stmt → Exec (Sql m) Bool) (rows rows' : List User) (b : Bool) (s : Sql m)
      → Has m l rows s
      → ((st : m.Stmt) (t : Sql m) → Has m l rows t → Runs (body st) t b (Has m l rows'))
      → Runs (with_statement m body) s b (Has m l rows')
  unfolding with_statement
  with_statement-Runs body rows rows' b s h k =
      let (c, ran) = get_connection-Runs m l rows s h in
      let (t, out, h') = ran in
      let (st, w) = m.stmt_init c t.world in
      let u : Sql m = record t { world = w } in
      let hu : Has m l rows u = record {
        rows_are = l.stmt_init_lem c t.world ∙ h'.rows_are;
        free = h'.free;
      } in
      let (v, out', h'') = k st u hu in
      (
        close_if m st (give_back m c v),
        rw (out, out'),
        close_if-Has rows' st _ (give_back-Has m l rows' c v h''),
      )

  select-Runs :
      (st : m.Stmt) (q : String) (bs : List Bind) (found : Bool) (rows : List User) (s : Sql m)
      → Has m l rows s
      → ((w : World)
          → Ready rows st q (values bs) w
          → (v : World) × (m.stmt_execute st w ≡ (false, v))
            × ((l.rows v ≡ rows) × (l.has_result st v ≡ found)))
      → Runs (run_statement m st q bs >>= λ _. has_row m st) s found (Has m l rows)
  select-Runs st q bs found rows s h exec =
      Runs-bind (run_statement m st q bs) (λ _. has_row m st) s tt found
        (run_statement-Runs st q bs (λ v. (l.rows v ≡ rows) × (l.has_result st v ≡ found)) rows s h
          exec)
        (λ t p.
          has_row-Runs st found rows t p.0.1 (record { rows_are = p.0.0; free = rw p.1 h.free }))

  -- Over a database that obeys SQL and a pool with current_conn_ below max_conn_, emailExists
  -- returns whether some row has the email, and leaves the table as it was.
  pub email_exists-Runs :
      (email : String) (rows : List User) (s : Sql m)
      → Has m l rows s
      → Runs (email_exists m email) s (has_email l.same email rows) (Has m l rows)
  unfolding email_exists
  email_exists-Runs email rows s h =
      with_statement-Runs (select_email m email) rows rows (has_email l.same email rows) s h
        (λ st t h'.
          select-Runs st exists_query (bind_string type_string email ∷ [])
            (has_email l.same email rows) rows t h'
            (λ w r.
              let (v, e, same, res) = l.execute_exists st email w r.text_is r.params_are in
              (v, e, (same ∙ r.rows_are, res ∙ ap (has_email l.same email) r.rows_are))))

  -- Over a database that obeys SQL and a pool with current_conn_ below max_conn_, verifyPwd returns
  -- whether some row has both the email and the hash, and leaves the table as it was.
  pub verify_pwd-Runs :
      (email pwd_hash : String) (rows : List User) (s : Sql m)
      → Has m l rows s
      → Runs (verify_pwd m email pwd_hash) s (has_login l.same email pwd_hash rows) (Has m l rows)
  unfolding verify_pwd
  verify_pwd-Runs email pwd_hash rows s h =
      with_statement-Runs (select_login m email pwd_hash) rows rows
        (has_login l.same email pwd_hash rows) s h
        (λ st t h'.
          select-Runs st verify_query
            (bind_string type_string email ∷ bind_string type_string pwd_hash ∷ [])
            (has_login l.same email pwd_hash rows) rows t h'
            (λ w r.
              let (v, e, same, res) = l.execute_verify st email pwd_hash w r.text_is r.params_are in
              (v, e, (same ∙ r.rows_are, res ∙ ap (has_login l.same email pwd_hash) r.rows_are))))

  -- An unsigned number of rows is never below zero.
  updated-Runs : (st : m.Stmt) (n : ℕ) (t : Sql m) → updated m st n t ≡ (returned true, t)
  unfolding updated
  updated-Runs st n t = rw (zero-leb n)

  update_row-Runs :
      (email pwd_hash : String) (rows : List User) (st : m.Stmt) (t : Sql m)
      → Has m l rows t
      → Runs (update_row m email pwd_hash st) t true (Has m l (set_hash l.same email pwd_hash rows))
  unfolding update_row
  update_row-Runs email pwd_hash rows st t h =
      let (u, ran, p) =
        run_statement-Runs st update_query
          (bind_string type_string email ∷ bind_string type_string pwd_hash ∷ [])
          (λ v. l.rows v ≡ set_hash l.same email pwd_hash rows) rows t h
          (λ w r.
            let (v, e, changed) = l.execute_update st email pwd_hash w r.text_is r.params_are in
            (v, e, changed ∙ ap (set_hash l.same email pwd_hash) r.rows_are)) in
      (
        u,
        rw (ran, updated-Runs st (m.stmt_affected_rows st u.world) u),
        record { rows_are = p.0; free = rw p.1 h.free },
      )

  -- Over a database that obeys SQL and a pool with current_conn_ below max_conn_, updatePwd returns
  -- true, and the table is what SQL's UPDATE user_info SET pwd_hash = email WHERE email = pwd_hash
  -- makes of it for the two arguments: the two are bound the wrong way round.
  pub update_pwd-Runs :
      (email pwd_hash : String) (rows : List User) (s : Sql m)
      → Has m l rows s
      → Runs (update_pwd m email pwd_hash) s true (Has m l (set_hash l.same email pwd_hash rows))
  unfolding update_pwd
  update_pwd-Runs email pwd_hash rows s h =
      with_statement-Runs (update_row m email pwd_hash) rows (set_hash l.same email pwd_hash rows)
        true s h (update_row-Runs email pwd_hash rows)
