-- ===== src/Sql/Dao/Quiet.antt =====
-- What the statement calls of SqlDao.cpp leave alone, however they end and whatever the client
-- library answers.
use qt_chatting.Prelude.{
  ℕ, String, Bool, true, false, not, str_eq, List, [], ◌∷◌, returned, ◌≡◌, refl, ◌∙◌, leb, ◌==◌,
  Bool-cases, inl, inr, Exec, pure, reads, Keeps, Keeps-bind, ◌>>=◌, ◌>>◌,
}
use qt_chatting.Sql.Driver.{Bind, MySql, bind_string, type_string, type_var_string}
use qt_chatting.Sql.Pool.{Sql, call}
use qt_chatting.Sql.Dao.{
  throw_if, checked, run_statement, has_row, updated, select_email, select_login, update_row,
  insert_row, minus_one, insert_query, exists_query, update_query, verify_query,
}

module _ {ℓ} {World : Type 0} (m : MySql World) {X : Type ℓ} (view : Sql m → X) where
  -- A part of the state that the calls on a prepared statement do not change.
  pub record IsQuiet : Type ℓ where
    pub prepare :
        (st : m.Stmt) (q : String) (s : Sql m)
        → view (record s { world = (m.stmt_prepare st q s.world).1 }) ≡ view s
    pub bind_param :
        (st : m.Stmt) (bs : List Bind) (s : Sql m)
        → view (record s { world = (m.stmt_bind_param st bs s.world).1 }) ≡ view s
    pub execute :
        (st : m.Stmt) (s : Sql m)
        → view (record s { world = (m.stmt_execute st s.world).1 }) ≡ view s
    pub store_result :
        (st : m.Stmt) (s : Sql m)
        → view (record s { world = m.stmt_store_result st s.world }) ≡ view s
    pub bind_result :
        (st : m.Stmt) (s : Sql m)
        → view (record s { world = (m.stmt_bind_result st s.world).1 }) ≡ view s
    pub fetch :
        (st : m.Stmt) (s : Sql m) → view (record s { world = (m.stmt_fetch st s.world).1 }) ≡ view s

module _ {ℓ} {World : Type 0} (m : MySql World) {X : Type ℓ} (view : Sql m → X)
    (k : IsQuiet m view) where
  throw_if-Keeps : (st : m.Stmt) (b : Bool) → Keeps view (throw_if m st b)
  throw_if-Keeps st true s = (refl, tt)
  throw_if-Keeps st false s = (refl, tt)

  checked-Keeps :
      (st : m.Stmt) (f : World → Bool × World)
      → ((s : Sql m) → view (record s { world = (f s.world).1 }) ≡ view s)
      → Keeps view (checked m st f)
  checked-Keeps st f h =
      Keeps-bind view (call m f) (throw_if m st) (λ s. (h s, tt)) (throw_if-Keeps st)

  run_statement-Keeps :
      (st : m.Stmt) (q : String) (bs : List Bind) → Keeps view (run_statement m st q bs)
  unfolding run_statement
  run_statement-Keeps st q bs =
      let prep = checked m st (m.stmt_prepare st q) in
      let bind = checked m st (m.stmt_bind_param st bs) in
      let exec = checked m st (m.stmt_execute st) in
      Keeps-bind {B = Unit {0}} view prep (λ _. bind >>= λ _. exec)
        (checked-Keeps st (m.stmt_prepare st q) (k.prepare st q))
        (λ _.
          Keeps-bind {B = Unit {0}} view bind (λ _. exec)
            (checked-Keeps st (m.stmt_bind_param st bs) (k.bind_param st bs))
            (λ _. checked-Keeps st (m.stmt_execute st) (k.execute st)))

  row_answer : m.Stmt → ℕ → Exec (Sql m) Bool
  row_answer st fetched = do
    message ← reads (λ s. m.stmt_error st s.world)
    throw_if m st (not (str_eq message ""))
    pure (fetched == 0)

  row_answer-Keeps : (st : m.Stmt) (fetched : ℕ) → Keeps view (row_answer st fetched)
  unfolding row_answer
  row_answer-Keeps st fetched s =
      Keeps-bind {B = Bool} view (throw_if m st (not (str_eq (m.stmt_error st s.world) "")))
        (λ _. pure (fetched == 0)) (throw_if-Keeps st _) (λ _ t. (refl, tt)) s

  has_row-Keeps : (st : m.Stmt) → Keeps view (has_row m st)
  unfolding has_row row_answer
  has_row-Keeps st s =
      let stored : Sql m = record s { world = m.stmt_store_result st s.world } in
      let rest =
        Keeps-bind {B = Bool} view (checked m st (m.stmt_bind_result st))
          (λ _. call m (m.stmt_fetch st) >>= row_answer st)
          (checked-Keeps st (m.stmt_bind_result st) (k.bind_result st))
          (λ _.
            Keeps-bind view (call m (m.stmt_fetch st)) (row_answer st) (λ t. (k.fetch st t, tt))
              (row_answer-Keeps st))
          stored in
      (rest.0 ∙ k.store_result st s, rest.1)

  updated-Keeps : (st : m.Stmt) (n : ℕ) → Keeps view (updated m st n)
  unfolding updated
  updated-Keeps st n s = elim (Bool-cases (leb 0 n)) [
    | inl t ↦ rw t (refl, tt)
    | inr t ↦ elim (Bool-cases (n == minus_one)) [
      | inl t' ↦ rw (t, t') (refl, tt)
      | inr t' ↦ rw (t, t') (refl, tt)
    ]
  ]

  pub select_email-Keeps : (email : String) (st : m.Stmt) → Keeps view (select_email m email st)
  unfolding select_email
  select_email-Keeps email st =
      Keeps-bind view (run_statement m st exists_query (bind_string type_string email ∷ []))
        (λ _. has_row m st) (run_statement-Keeps st exists_query _) (λ _. has_row-Keeps st)

  pub select_login-Keeps :
      (email pwd_hash : String) (st : m.Stmt) → Keeps view (select_login m email pwd_hash st)
  unfolding select_login
  select_login-Keeps email pwd_hash st =
      Keeps-bind view
        (run_statement m st verify_query
          (bind_string type_string email ∷ bind_string type_string pwd_hash ∷ []))
        (λ _. has_row m st) (run_statement-Keeps st verify_query _) (λ _. has_row-Keeps st)

  pub update_row-Keeps :
      (email pwd_hash : String) (st : m.Stmt) → Keeps view (update_row m email pwd_hash st)
  unfolding update_row
  update_row-Keeps email pwd_hash st =
      Keeps-bind {B = Bool} view
        (run_statement m st update_query
          (bind_string type_string email ∷ bind_string type_string pwd_hash ∷ []))
        (λ _ t. updated m st (m.stmt_affected_rows st t.world) t)
        (run_statement-Keeps st update_query _)
        (λ _ t. updated-Keeps st (m.stmt_affected_rows st t.world) t)

  pub insert_row-Keeps :
      (name email pwd_hash : String) (st : m.Stmt)
      → Keeps view (insert_row m name email pwd_hash st)
  unfolding insert_row
  insert_row-Keeps name email pwd_hash st =
      Keeps-bind {B = Bool} view
        (run_statement m st insert_query (
          bind_string type_var_string name
          ∷ bind_string type_string email
          ∷ bind_string type_string pwd_hash
          ∷ []))
        (λ _ t. (returned (m.stmt_affected_rows st t.world == 1), t))
        (run_statement-Keeps st insert_query _) (λ _ t. (refl, tt))
