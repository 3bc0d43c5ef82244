-- ===== src/Sql/Mgr/Users.antt =====
-- What the methods of SqlMgr.cpp do to the table of users, whatever BCrypt does.
use qt_chatting.Prelude.{String, false, List, [], ◌∷◌, ◌++◌, ◌≡◌, refl, ◌∙◌, inl, inr, pure, ◌>>=◌}
use qt_chatting.Sql.Driver.{MySql, BCrypt}
use qt_chatting.Sql.Pool.{Sql}
use qt_chatting.Sql.Pool.Working.{Has}
use qt_chatting.Sql.Laws
use qt_chatting.Sql.Laws.{User, has_email}
use qt_chatting.Sql.Laws.Serving.{Spares, Serves, Serves-bind, Serves-try}
use qt_chatting.Sql.Dao
use qt_chatting.Sql.Dao.Correct.{update_pwd-Runs}
use qt_chatting.Sql.Dao.Inserts.{reg_user-Runs}
use qt_chatting.Sql.Mgr.{reg_user, email_exists, reset_pwd, hash_of}
use qt_chatting.Sql.Mgr.Correct.{email_exists-Runs_mgr}

module _ {World : Type 0} (m : MySql World) (crypt : BCrypt World) (l : Laws.Working m)
    (apart : (pwd : String) (w : World) → l.rows (crypt.generate_hash pwd w).1 ≡ l.rows w) where
  abbrev Users : List User → Sql m → Type 0
  Users rows s = Has m l rows s

  hash_of-Spares : (pwd : String) → Spares l.same Users (hash_of m crypt pwd)
  unfolding hash_of
  hash_of-Spares pwd s rows h = record { rows_are = apart pwd s.world ∙ h.rows_are; free = h.free }

  pub email_exists-Spares : (email : String) → Spares l.same Users (email_exists m crypt email)
  email_exists-Spares email s rows h =
      let (t, out, h') = email_exists-Runs_mgr m crypt l email rows s h in rw out h'

  -- A name without a row may get one.
  pub reg_user-Serves :
      (name email pwd : String)
      → Serves l.same Users
          (λ rows. has_email l.same email rows ≡ false)
          (reg_user m crypt name email pwd)
  unfolding reg_user
  reg_user-Serves name email pwd =
      Serves-try l.same Users _ (hash_of m crypt pwd >>= λ hash. Dao.reg_user m name email hash)
        (λ e. pure false)
        (Serves-bind l.same Users _ (hash_of m crypt pwd) (λ hash. Dao.reg_user m name email hash)
          (hash_of-Spares pwd)
          (λ hash s rows new h.
            let (t, out, h') = reg_user-Runs m l name email hash rows s new h in
            let row : User = record { name = name; email = email; pwd_hash = hash } in
            (rows ++ row ∷ [], rw out h', inr (inl (row, new, refl)))))
        (λ e s rows h. h)

  pub reset_pwd-Serves :
      (email pwd : String) → Serves l.same Users (λ rows. Unit {0}) (reset_pwd m crypt email pwd)
  unfolding reset_pwd
  reset_pwd-Serves email pwd =
      Serves-try l.same Users _ (hash_of m crypt pwd >>= λ hash. Dao.update_pwd m email hash)
        (λ e. pure false)
        (Serves-bind l.same Users _ (hash_of m crypt pwd) (λ hash. Dao.update_pwd m email hash)
          (hash_of-Spares pwd)
          (λ hash s rows p h.
            let (t, out, h') = update_pwd-Runs m l email hash rows s h in
            (_, rw out h', inr (inr (email, hash, refl)))))
        (λ e s rows h. h)
