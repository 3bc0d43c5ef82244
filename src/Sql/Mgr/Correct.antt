-- ===== src/Sql/Mgr/Correct.antt =====
-- SqlMgr.cpp over a working database and a BCrypt that returns.
use qt_chatting.Prelude.{
  String, true, false, pos, List, [], ◌∷◌, ◌++◌, ◌≡◌, ◌∙◌, if◌then◌else◌, returned, Runs,
}
use qt_chatting.Sql.Driver.{MySql, BCrypt}
use qt_chatting.Sql.Pool.{Sql}
use qt_chatting.Sql.Pool.Working.{Has}
use qt_chatting.Sql.Laws
use qt_chatting.Sql.Laws.{User, has_email, has_login, set_hash}
use qt_chatting.Sql.Dao.Correct.{email_exists-Runs, update_pwd-Runs, verify_pwd-Runs}
use qt_chatting.Sql.Dao.Inserts
use qt_chatting.Sql.Dao.Inserts.{reg_user-Runs, reg_user_refused}
use qt_chatting.Sql.Laws.Keys
use qt_chatting.Sql.Mgr.{reg_user, email_exists, reset_pwd, varify_pwd}

module _ {World : Type 0} (m : MySql World) (crypt : BCrypt World) (l : Laws.Working m) where
  -- BCrypt returns a hash of the password, and leaves the table alone. Which hash depends on the
  -- salt that the world holds.
  pub record Hashes : Type 0 where
    pub hash : String → World → String
    pub hash_lem :
        (pwd : String) (w : World)
        → (v : World) × (crypt.generate_hash pwd w ≡ (returned (hash pwd w), v))
          × (l.rows v ≡ l.rows w)

  -- Over a working database emailExists of SqlMgr returns 1 where some row has the email and 0
  -- where none has, and leaves the table as it was.
  pub email_exists-Runs_mgr :
      (email : String) (rows : List User) (s : Sql m)
      → Has m l rows s
      → Runs
          (email_exists m crypt email)
          s
          (if has_email l.same email rows then pos 1 else pos 0)
          (Has m l rows)
  unfolding email_exists
  email_exists-Runs_mgr email rows s h =
      let (t, out, h') = email_exists-Runs m l email rows s h in (t, rw out, h')

  module _ (b : Hashes) where
    hashed :
        (pwd : String) (rows : List User) (s : Sql m)
        → Has m l rows s
        → (v : World) × (crypt.generate_hash pwd s.world ≡ (returned (b.hash pwd s.world), v))
          × Has m l rows (record s { world = v })
    hashed pwd rows s h =
        let (v, e, same) = b.hash_lem pwd s.world in
        (v, e, record { rows_are = same ∙ h.rows_are; free = h.free })

    -- A new email gets a row with the name and the hash of the password.
    pub reg_user-Runs_mgr :
        (name email pwd : String) (rows : List User) (s : Sql m)
        → has_email l.same email rows ≡ false
        → Has m l rows s
        → Runs (reg_user m crypt name email pwd) s true (
            Has m l
              (rows ++ record { name = name; email = email; pwd_hash = b.hash pwd s.world } ∷ []))
    unfolding reg_user
    reg_user-Runs_mgr name email pwd rows s new_email h =
        let (v, e, h') = hashed pwd rows s h in
        let (u, out', h'') =
          reg_user-Runs m l name email (b.hash pwd s.world) rows (record s { world = v }) new_email
            h' in
        (u, rw (e, out'), h'')

    -- Without a unique key an email that has a row gets another.
    pub reg_user-Runs_any :
        Keys.TakesAny m l
        → (name email pwd : String) (rows : List User) (s : Sql m) → Has m l rows s
        → Runs (reg_user m crypt name email pwd) s true (
            Has m l
              (rows ++ record { name = name; email = email; pwd_hash = b.hash pwd s.world } ∷ []))
    unfolding reg_user
    reg_user-Runs_any any name email pwd rows s h =
        let (v, e, h') = hashed pwd rows s h in
        let (u, out', h'') =
          Inserts.reg_user-Runs_any m l any name email (b.hash pwd s.world) rows
            (record s { world = v }) h' in
        (u, rw (e, out'), h'')

    -- With one it gets none, and false is returned.
    pub reg_user-Runs_duplicate :
        Keys.HasKey m l
        → (name email pwd : String) (rows : List User) (s : Sql m)
        → has_email l.same email rows ≡ true
        → Has m l rows s
        → Runs (reg_user m crypt name email pwd) s false (Has m l rows)
    unfolding reg_user
    reg_user-Runs_duplicate key name email pwd rows s known h =
        let (v, e, h') = hashed pwd rows s h in
        let (x, t, out, h'') =
          reg_user_refused m l key name email (b.hash pwd s.world) rows (record s { world = v })
            known h' in
        (t, rw (e, out), h'')

    -- Over a database that obeys SQL, a pool with current_conn_ below max_conn_ and a BCrypt that
    -- returns, resetPwd returns true, and the rows whose email is the hash of the new password have
    -- the email for their hash.
    pub reset_pwd-Runs :
        (email pwd : String) (rows : List User) (s : Sql m)
        → Has m l rows s
        → Runs
            (reset_pwd m crypt email pwd)
            s
            true
            (Has m l (set_hash l.same email (b.hash pwd s.world) rows))
    unfolding reset_pwd
    reset_pwd-Runs email pwd rows s h =
        let (v, e, h') = hashed pwd rows s h in
        let (u, out', h'') =
          update_pwd-Runs m l email (b.hash pwd s.world) rows (record s { world = v }) h' in
        (u, rw (e, out'), h'')

    -- Over a database that obeys SQL, a pool with current_conn_ below max_conn_ and a BCrypt that
    -- returns, varifyPwd returns whether some row has the email and the hash that BCrypt makes of
    -- the password now, and leaves the table as it was.
    pub varify_pwd-Runs :
        (email pwd : String) (rows : List User) (s : Sql m)
        → Has m l rows s
        → Runs
            (varify_pwd m crypt email pwd)
            s
            (has_login l.same email (b.hash pwd s.world) rows)
            (Has m l rows)
    unfolding varify_pwd
    varify_pwd-Runs email pwd rows s h =
        let (v, e, h') = hashed pwd rows s h in
        let (u, out', h'') =
          verify_pwd-Runs m l email (b.hash pwd s.world) rows (record s { world = v }) h' in
        (u, rw (e, out'), h'')
