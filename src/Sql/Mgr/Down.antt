-- ===== src/Sql/Mgr/Down.antt =====
-- SqlMgr.cpp while the database takes no connection.
use qt_chatting.Prelude.{String, ◌≡◌, returned, undefined, negsuc}
use qt_chatting.Sql.Dao.Down.{email_exists_refused, email_exists-undefined}
use qt_chatting.Sql.Driver.{MySql, BCrypt}
use qt_chatting.Sql.Mgr.{email_exists}
use qt_chatting.Sql.Pool.{Sql, get_connection}
use qt_chatting.Sql.Pool.Down.{Throws}

module _ {World : Type 0} (m : MySql World) (crypt : BCrypt World) where
  pub email_exists-refused :
      (email : String) (s : Sql m)
      → Throws m s
      → (v : World) × (email_exists m crypt email s ≡ (returned (negsuc 0), record s { world = v }))
  unfolding email_exists
  email_exists-refused email s t = let (e, v, ran) = email_exists_refused m email s t in (v, rw ran)

  pub email_exists-undefined_mgr :
      (email : String) (s : Sql m)
      → ((t : Sql m) × (get_connection m s ≡ (undefined, t)))
      → (t : Sql m) × (email_exists m crypt email s ≡ (undefined, t))
  unfolding email_exists
  email_exists-undefined_mgr email s t =
      let (u, ran) = email_exists-undefined m email s t in (u, rw ran)
