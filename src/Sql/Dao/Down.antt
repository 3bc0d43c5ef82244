-- ===== src/Sql/Dao/Down.antt =====
-- SqlDao.cpp while the database takes no connection.
use qt_chatting.Prelude.{String, ◌≡◌, threw, undefined}
use qt_chatting.Sql.Dao.{with_statement, email_exists}
use qt_chatting.Sql.Driver.{MySql}
use qt_chatting.Sql.Pool.{Sql, get_connection}
use qt_chatting.Sql.Pool.Down.{Throws}

module _ {World : Type 0} (m : MySql World) where
  pub email_exists_refused :
      (email : String) (s : Sql m)
      → Throws m s
      → (e : String) × (v : World) × (email_exists m email s ≡ (threw e, record s { world = v }))
  unfolding email_exists with_statement
  email_exists_refused email s (e, v, ran) = (e, v, rw ran)

  pub email_exists-undefined :
      (email : String) (s : Sql m)
      → ((t : Sql m) × (get_connection m s ≡ (undefined, t)))
      → (t : Sql m) × (email_exists m email s ≡ (undefined, t))
  unfolding email_exists with_statement
  email_exists-undefined email s (t, ran) = (t, rw ran)
