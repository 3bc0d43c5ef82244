-- ===== src/Sql/Mgr.antt =====
-- server/gate_server/src/SqlMgr.cpp: hashes the password and turns exceptions into results.
pub mod Down
pub mod Correct
pub mod Users
use qt_chatting.Prelude.{
  ℤ, pos, negsuc, String, Bool, false, if◌then◌else◌, Exec, pure, try_catch, ◌>>=◌,
}
use qt_chatting.Sql.Driver.{MySql, BCrypt}
use qt_chatting.Sql.Pool.{Sql}
use qt_chatting.Sql.Dao

module _ {World : Type 0} (m : MySql World) (crypt : BCrypt World) where
  hash_of : String → Exec (Sql m) String
  hash_of pwd s = let (r, w) = crypt.generate_hash pwd s.world in (r, record s { world = w })

  pub reg_user : String → String → String → Exec (Sql m) Bool
  unfolding hash_of
  reg_user name email pwd =
      try_catch (do hash ← hash_of pwd; Dao.reg_user m name email hash) (λ e. pure false)

  pub email_exists : String → Exec (Sql m) ℤ
  email_exists email =
      try_catch (do found ← Dao.email_exists m email; pure (if found then pos 1 else pos 0))
        (λ e. pure (negsuc 0))

  pub reset_pwd : String → String → Exec (Sql m) Bool
  unfolding hash_of
  reset_pwd email pwd =
      try_catch (do hash ← hash_of pwd; Dao.update_pwd m email hash) (λ e. pure false)

  pub varify_pwd : String → String → Exec (Sql m) Bool
  unfolding hash_of
  varify_pwd email pwd =
      try_catch (do hash ← hash_of pwd; Dao.verify_pwd m email hash) (λ e. pure false)
