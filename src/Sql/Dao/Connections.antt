-- ===== src/Sql/Dao/Connections.antt =====
-- What becomes of the connections that SqlDao.cpp takes, whatever the client library answers.
use qt_chatting.Prelude.{
  String, Bool, List, [], ◌∷◌, ◌++◌, ◌≡◌, refl, ap, ◌∙◌, ◌⊎◌, inl, inr, Bool-cases, Outcome,
  returned, threw, blocked, undefined, Exec, Keeps, IsOver, ensure,
}
use qt_chatting.Sql.Driver.{MySql}
use qt_chatting.Sql.Pool.{Sql, SqlPool, give_back}
use qt_chatting.Sql.Pool.Lending.{Lent, Fails, get_connection-Got}
use qt_chatting.Sql.Dao.Quiet.{
  IsQuiet, select_email-Keeps, select_login-Keeps, update_row-Keeps, insert_row-Keeps,
}
use qt_chatting.Sql.Dao.{
  close_if, with_statement, reg_user, email_exists, update_pwd, verify_pwd, select_email,
  select_login, update_row, insert_row,
}

module _ {World : Type 0} (m : MySql World) where
  -- The pool after a call: as it was, or its front went to the back, or a new connection joined
  -- the empty pool.
  abbrev pub Restored : List m.Conn → List m.Conn → Type 0
  Restored before after =
      (after ≡ before)
      ⊎ ((c : m.Conn) × (rest : List m.Conn) × (before ≡ c ∷ rest) × (after ≡ rest ++ c ∷ []))
      ⊎ ((c : m.Conn) × (before ≡ []) × (after ≡ c ∷ []))

  -- The pool is restored, or a new connection failed, which is undefined behaviour.
  abbrev pub Settles : Exec (Sql m) Bool → Sql m → Type 0
  Settles f s = Restored s.pool (f s).1.pool ⊎ (Fails m s × ((f s).0 ≡ undefined))

  abbrev conns_of : Sql m → SqlPool m.Conn
  conns_of s = s.conns

  conns-IsQuiet : IsQuiet m conns_of
  conns-IsQuiet = record {
    prepare = λ st q s. refl;
    bind_param = λ st bs s. refl;
    execute = λ st s. refl;
    store_result = λ st s. refl;
    bind_result = λ st s. refl;
    fetch = λ st s. refl;
  }

  give_back-Restored :
      (s : Sql m) (c : m.Conn) (t : Sql m) (after : List m.Conn)
      → Lent m s c t
      → after ≡ t.pool ++ c ∷ []
      → Restored s.pool after
  give_back-Restored s c t after k e = elim k.taken [
    | inl front ↦ inr (inl (c, t.pool, front, e))
    | inr (none_idle, left) ↦ inr (inr (c, none_idle, e ∙ ap (λ p. p ++ c ∷ []) left))
  ]

  -- Either way out of the `try` block hands the connection back.
  module _ (c : m.Conn) (body : Exec (Sql m) Bool) (k : Keeps conns_of body) where
    pool-ensure : (s : Sql m) → (ensure (give_back m c) body s).1.pool ≡ s.pool ++ c ∷ []
    unfolding give_back
    pool-ensure s = go (body s).0 (body s).1 refl (k s).0 (k s).1
      where
        go :
            (r : Outcome Bool) (t : Sql m)
            → body s ≡ (r, t)
            → t.conns ≡ s.conns
            → IsOver r
            → (ensure (give_back m c) body s).1.pool ≡ s.pool ++ c ∷ []
        go (returned a) t e k o = rw e (ap (λ (p : SqlPool m.Conn). p.pool ++ c ∷ []) k)
        go (threw x) t e k o = rw e (ap (λ (p : SqlPool m.Conn). p.pool ++ c ∷ []) k)
        go blocked t e k o = absurd o
        go undefined t e k o = absurd o

  pool-close_if : (st : m.Stmt) (s : Sql m) → (close_if m st s).pool ≡ s.pool
  unfolding close_if
  pool-close_if st s = elim (Bool-cases (m.stmt_is_null st)) [ inl n ↦ rw n | inr o ↦ rw o ]

  pool-ensure_close :
      (st : m.Stmt) (body : Exec (Sql m) Bool) (s : Sql m)
      → (ensure (close_if m st) body s).1.pool ≡ (body s).1.pool
  pool-ensure_close st body s = go (body s).0 (body s).1 refl
    where
      go :
          (r : Outcome Bool) (t : Sql m)
          → body s ≡ (r, t)
          → (ensure (close_if m st) body s).1.pool ≡ (body s).1.pool
      go (returned a) t e = rw e (pool-close_if st t)
      go (threw x) t e = rw e (pool-close_if st t)
      go blocked t e = rw e
      go undefined t e = rw e

  with_statement-Settles :
      (body : m.Stmt → Exec (Sql m) Bool)
      → ((st : m.Stmt) → Keeps conns_of (body st))
      → (s : Sql m) → Settles (with_statement m body) s
  unfolding with_statement
  with_statement-Settles body k s = elim (get_connection-Got m s) [
    | inl (c, t, e, lent) ↦
        let (st, w) = m.stmt_init c t.world in
        let u : Sql m = record t { world = w } in
        inl (
          give_back-Restored s c t _ lent (
            rw e (
              pool-ensure_close st (ensure (give_back m c) (body st)) u
              ∙ pool-ensure c (body st) (k st) u)))
    | inr (inl (x, t, e, same)) ↦ inl (inl (rw e (ap (λ (p : SqlPool m.Conn). p.pool) same)))
    | inr (inr (inl e)) ↦ inl (inl (rw e))
    | inr (inr (inr (f, (t, e)))) ↦ inr (f, rw e)
  ]

  email_exists-Settles : (email : String) (s : Sql m) → Settles (email_exists m email) s
  unfolding email_exists
  email_exists-Settles email =
      with_statement-Settles (select_email m email)
        (select_email-Keeps m conns_of conns-IsQuiet email)

  verify_pwd-Settles :
      (email pwd_hash : String) (s : Sql m) → Settles (verify_pwd m email pwd_hash) s
  unfolding verify_pwd
  verify_pwd-Settles email pwd_hash =
      with_statement-Settles (select_login m email pwd_hash)
        (select_login-Keeps m conns_of conns-IsQuiet email pwd_hash)

  update_pwd-Settles :
      (email pwd_hash : String) (s : Sql m) → Settles (update_pwd m email pwd_hash) s
  unfolding update_pwd
  update_pwd-Settles email pwd_hash =
      with_statement-Settles (update_row m email pwd_hash)
        (update_row-Keeps m conns_of conns-IsQuiet email pwd_hash)

  reg_user-Settles :
      (name email pwd_hash : String) (s : Sql m) → Settles (reg_user m name email pwd_hash) s
  unfolding reg_user
  reg_user-Settles name email pwd_hash s = elim (get_connection-Got m s) [
    | inl (c, t, e, lent) ↦
        let (st, w) = m.stmt_init c t.world in
        let body = insert_row m name email pwd_hash st in
        inl (
          give_back-Restored s c t _ lent (
            rw e (
              pool-ensure c body (insert_row-Keeps m conns_of conns-IsQuiet name email pwd_hash st)
                (record t { world = w }))))
    | inr (inl (x, t, e, same)) ↦ inl (inl (rw e (ap (λ (p : SqlPool m.Conn). p.pool) same)))
    | inr (inr (inl e)) ↦ inl (inl (rw e))
    | inr (inr (inr (f, (t, e)))) ↦ inr (f, rw e)
  ]

  -- From any state and whatever the client library answers, each of the four methods leaves the
  -- pool as it was, or with its front connection moved to the back, or, where it was empty, with
  -- one new connection in it; or the pool was empty, mysql_real_connect failed for the new
  -- connection, and the call ends in undefined behaviour.
  pub methods-Settles :
      (name email pwd_hash : String) (s : Sql m)
      → Settles (reg_user m name email pwd_hash) s
        × Settles (email_exists m email) s
        × Settles (update_pwd m email pwd_hash) s
        × Settles (verify_pwd m email pwd_hash) s
  methods-Settles name email pwd_hash s = (
    reg_user-Settles name email pwd_hash s,
    email_exists-Settles email s,
    update_pwd-Settles email pwd_hash s,
    verify_pwd-Settles email pwd_hash s,
  )
