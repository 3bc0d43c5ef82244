-- ===== src/Sql/Dao.antt =====
-- server/gate_server/src/SqlDao.cpp: one prepared statement for each method. The shared_ptr to the
-- connection dies where the `try` block ends, before the statement is closed.
pub mod Down
pub mod Correct
pub mod Inserts
pub mod Quiet
pub mod Connections
pub mod Statements
use qt_chatting.Prelude.{
  ℕ, ◌^◌, ◌-◌, String, Bool, true, false, List, [], ◌∷◌, ◌==◌, str_eq, leb, if◌then◌else◌, Exec,
  pure, throw, reads, ensure, not, ◌>>=◌, ◌>>◌,
}
use qt_chatting.Sql.Driver.{Bind, bind_string, type_string, type_var_string, MySql}
use qt_chatting.Sql.Pool.{Sql, call, act, get_connection, give_back}

abbrev pub insert_query : String
insert_query = "INSERT INTO user_info (name, email, pwd_hash) VALUES (?, ?, ?)"

abbrev pub exists_query : String
exists_query = "SELECT 1 FROM user_info WHERE email = ? LIMIT 1"

abbrev pub update_query : String
update_query = "UPDATE user_info SET pwd_hash = ? WHERE email = ?"

abbrev pub verify_query : String
verify_query = "SELECT 1 FROM user_info WHERE email = ? AND pwd_hash = ? LIMIT 1"

-- (my_ulonglong)-1
abbrev pub minus_one : ℕ
minus_one = 2 ^ 64 - 1

module _ {World : Type 0} (m : MySql World) where
  -- if (failed) throw std::runtime_error(mysql_stmt_error(stmt));
  abbrev throw_if : m.Stmt → Bool → Exec (Sql m) (Unit {0})
  throw_if st true s = throw (m.stmt_error st s.world) s
  throw_if st false s = pure tt s

  abbrev checked : m.Stmt → (World → Bool × World) → Exec (Sql m) (Unit {0})
  checked st f = do failed ← call m f; throw_if st failed

  -- Prepare, bind and execute, each with its error test.
  pub run_statement : m.Stmt → String → List Bind → Exec (Sql m) (Unit {0})
  run_statement st query binds = do
    checked st (m.stmt_prepare st query)
    checked st (m.stmt_bind_param st binds)
    checked st (m.stmt_execute st)

  -- Does the result set have a row?
  has_row : m.Stmt → Exec (Sql m) Bool
  has_row st = do
    act m (m.stmt_store_result st)
    checked st (m.stmt_bind_result st)
    fetched ← call m (m.stmt_fetch st)
    message ← reads (λ s. m.stmt_error st s.world)
    throw_if st (not (str_eq message ""))
    pure (fetched == 0)

  -- if (stmt) mysql_stmt_close(stmt);
  close_if : m.Stmt → Sql m → Sql m
  close_if st s = if m.stmt_is_null st then s else record s { world = m.stmt_close st s.world }

  -- The frame of `emailExists`, `updatePwd` and `verifyPwd`: both exits close the statement.
  with_statement : (m.Stmt → Exec (Sql m) Bool) → Exec (Sql m) Bool
  unfolding close_if
  with_statement body = do
    conn ← get_connection m
    st ← call m (m.stmt_init conn)
    ensure (close_if st) (ensure (give_back m conn) (body st))

  -- The inner `stmt` shadows the outer one, which stays null: nothing is closed.
  pub insert_row : String → String → String → m.Stmt → Exec (Sql m) Bool
  unfolding run_statement
  insert_row name email pwd_hash st = do
    run_statement st insert_query (
        bind_string type_var_string name
        ∷ bind_string type_string email
        ∷ bind_string type_string pwd_hash
        ∷ [])
    rows ← reads (λ s. m.stmt_affected_rows st s.world)
    pure (rows == 1)

  pub reg_user : String → String → String → Exec (Sql m) Bool
  unfolding insert_row
  reg_user name email pwd_hash = do
    conn ← get_connection m
    st ← call m (m.stmt_init conn)
    ensure (give_back m conn) (insert_row name email pwd_hash st)

  -- What stands between `mysql_stmt_init` and the end of the `try` block in `emailExists`.
  pub select_email : String → m.Stmt → Exec (Sql m) Bool
  unfolding run_statement has_row
  select_email email st = do
    run_statement st exists_query (bind_string type_string email ∷ [])
    has_row st

  pub email_exists : String → Exec (Sql m) Bool
  unfolding with_statement select_email
  email_exists email = with_statement (select_email email)

  updated : m.Stmt → ℕ → Exec (Sql m) Bool
  updated st rows =
      if leb 0 rows
      then pure true
      else if rows == minus_one
      then (do message ← reads (λ s. m.stmt_error st s.world); throw message)
      else pure false

  pub update_row : String → String → m.Stmt → Exec (Sql m) Bool
  unfolding run_statement updated
  update_row email pwd_hash st = do
    run_statement st update_query
        (bind_string type_string email ∷ bind_string type_string pwd_hash ∷ [])
    rows ← reads (λ s. m.stmt_affected_rows st s.world)
    updated st rows

  pub update_pwd : String → String → Exec (Sql m) Bool
  unfolding with_statement update_row
  update_pwd email pwd_hash = with_statement (update_row email pwd_hash)

  pub select_login : String → String → m.Stmt → Exec (Sql m) Bool
  unfolding run_statement has_row
  select_login email pwd_hash st = do
    run_statement st verify_query
        (bind_string type_string email ∷ bind_string type_string pwd_hash ∷ [])
    has_row st

  pub verify_pwd : String → String → Exec (Sql m) Bool
  unfolding with_statement select_login
  verify_pwd email pwd_hash = with_statement (select_login email pwd_hash)
