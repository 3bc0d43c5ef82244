-- ===== src/Sql/Dao/Statements.antt =====
-- Which methods of SqlDao.cpp close the statement that they open.
use qt_chatting.Prelude.{
  ℕ, ◌+◌, ◌-◌, String, Bool, false, ◌≡◌, refl, ap, ◌∙◌, arith, Outcome, returned, threw, blocked,
  undefined, Exec, Keeps, IsOver, ensure,
}
use qt_chatting.Sql.Driver.{MySql}
use qt_chatting.Sql.Pool.{Sql, get_connection, give_back}
use qt_chatting.Sql.Dao.Quiet.{
  IsQuiet, select_email-Keeps, select_login-Keeps, update_row-Keeps, insert_row-Keeps,
}
use qt_chatting.Sql.Dao.{
  close_if, with_statement, reg_user, email_exists, update_pwd, verify_pwd, select_email,
  select_login, update_row, insert_row,
}

-- The number of statement handles that are open: `mysql_stmt_init` opens one, `mysql_stmt_close`
-- closes one, and the calls on a handle open and close none.
pub record Counting {World : Type 0} (m : MySql World) : Type 0 where
  pub handles : World → ℕ
  pub init_opens : (c : m.Conn) (w : World) → handles (m.stmt_init c w).1 ≡ handles w + 1
  pub not_null : (c : m.Conn) (w : World) → m.stmt_is_null (m.stmt_init c w).0 ≡ false
  pub close_closes : (st : m.Stmt) (w : World) → handles (m.stmt_close st w) ≡ handles w - 1
  pub quiet : IsQuiet m (λ s. handles s.world)

module _ {World : Type 0} (m : MySql World) (k : Counting m) where
  abbrev pub handles_of : Sql m → ℕ
  handles_of s = k.handles s.world

  handles-give_back :
      (c : m.Conn) (body : Exec (Sql m) Bool)
      → Keeps handles_of body
      → Keeps handles_of (ensure (give_back m c) body)
  unfolding give_back
  handles-give_back c body kb s = go (body s).0 (body s).1 refl (kb s).0 (kb s).1
    where
      go :
          (r : Outcome Bool) (t : Sql m)
          → body s ≡ (r, t)
          → handles_of t ≡ handles_of s
          → IsOver r
          → (handles_of (ensure (give_back m c) body s).1 ≡ handles_of s)
            × IsOver (ensure (give_back m c) body s).0
      go (returned a) t e h o = rw e (h, tt)
      go (threw x) t e h o = rw e (h, tt)
      go blocked t e h o = absurd o
      go undefined t e h o = absurd o

  handles-close :
      (st : m.Stmt) (body : Exec (Sql m) Bool) (s : Sql m)
      → m.stmt_is_null st ≡ false
      → Keeps handles_of body
      → handles_of (ensure (close_if m st) body s).1 ≡ handles_of s - 1
  unfolding close_if
  handles-close st body s null kb = go (body s).0 (body s).1 refl (kb s).0 (kb s).1
    where
      go :
          (r : Outcome Bool) (t : Sql m)
          → body s ≡ (r, t)
          → handles_of t ≡ handles_of s
          → IsOver r
          → handles_of (ensure (close_if m st) body s).1 ≡ handles_of s - 1
      go (returned a) t e h o = rw (e, null) (k.close_closes st t.world ∙ ap (λ n. n - 1) h)
      go (threw x) t e h o = rw (e, null) (k.close_closes st t.world ∙ ap (λ n. n - 1) h)
      go blocked t e h o = absurd o
      go undefined t e h o = absurd o

  handles-with_statement :
      (body : m.Stmt → Exec (Sql m) Bool)
      → ((st : m.Stmt) → Keeps handles_of (body st))
      → (s t : Sql m) (c : m.Conn) → get_connection m s ≡ (returned c, t)
      → handles_of (with_statement m body s).1 ≡ handles_of t
  unfolding with_statement
  handles-with_statement body kb s t c e =
      let st = (m.stmt_init c t.world).0 in
      let u : Sql m = record t { world = (m.stmt_init c t.world).1 } in
      rw e (
        omega (
          arith,
          handles-close st (ensure (give_back m c) (body st)) u (k.not_null c t.world)
              (handles-give_back c (body st) (kb st)),
          k.init_opens c t.world,
        ))

  -- Once it has a connection, each of emailExists, updatePwd and verifyPwd ends with as many open
  -- statement handles as it began with, whatever the calls on its statement answer.
  pub handles-closed :
      (email pwd_hash : String) (s t : Sql m) (c : m.Conn)
      → get_connection m s ≡ (returned c, t)
      → (handles_of (email_exists m email s).1 ≡ handles_of t)
        × (handles_of (update_pwd m email pwd_hash s).1 ≡ handles_of t)
        × (handles_of (verify_pwd m email pwd_hash s).1 ≡ handles_of t)
  unfolding email_exists update_pwd verify_pwd
  handles-closed email pwd_hash s t c e = (
    handles-with_statement (select_email m email) (select_email-Keeps m handles_of k.quiet email) s
        t c e,
    handles-with_statement (update_row m email pwd_hash)
        (update_row-Keeps m handles_of k.quiet email pwd_hash) s t c e,
    handles-with_statement (select_login m email pwd_hash)
        (select_login-Keeps m handles_of k.quiet email pwd_hash) s t c e,
  )

  -- Once it has a connection, each call of regUser ends with one more open statement handle than it
  -- began with, whatever the calls on its statement answer.
  pub handles-reg_user :
      (name email pwd_hash : String) (s t : Sql m) (c : m.Conn)
      → get_connection m s ≡ (returned c, t)
      → handles_of (reg_user m name email pwd_hash s).1 ≡ handles_of t + 1
  unfolding reg_user
  handles-reg_user name email pwd_hash s t c e =
      let st = (m.stmt_init c t.world).0 in
      let u : Sql m = record t { world = (m.stmt_init c t.world).1 } in
      let kept =
        handles-give_back c (insert_row m name email pwd_hash st)
          (insert_row-Keeps m handles_of k.quiet name email pwd_hash st) u in
      rw e (kept.0 ∙ k.init_opens c t.world)
