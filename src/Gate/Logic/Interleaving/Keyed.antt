-- ===== src/Gate/Logic/Interleaving/Keyed.antt =====
-- Over a table with a unique key on its emails, whatever order the calls of the requests come in.
use qt_chatting.Prelude.{
  ℕ, zero, suc, Bool, String, ◌≡◌, refl, ◌∙◌, inl, inr, Bool-cases, List, [], ◌∷◌, ◌++◌, ℤ, pos,
  negsuc, int_eq, if-case, pure,
}
use qt_chatting.Gate.Logic.{register_if, register_new, error_reply, reset_now, redis_key}
use qt_chatting.Gate.Logic.Interleaving.{
  Job, Phase, asking, looking, acting, checking, fetching, changing, answered, fetch, advance, turn,
  run,
}
use qt_chatting.Gate.Logic.Register.{HasRows}
use qt_chatting.Gate.Outside.{Outside, Reply, Gate, sql_of, on_sql, on_world, lift}
use qt_chatting.Protocol.{err_server}
use qt_chatting.Sql.Laws
use qt_chatting.Sql.Laws.{User, has_email, set_hash}
use qt_chatting.Sql.Laws.Keys
use qt_chatting.Sql.Laws.Serving.{Spares, Spares-bind, Serves, Serves-bind, Serves-then, Serves-try}
use qt_chatting.Sql.Laws.Unique.{IsUnique, Evolves, Evolves-IsUnique}
use qt_chatting.Sql.Mgr
use qt_chatting.Sql.Mgr.Correct.{
  Hashes, email_exists-Runs_mgr, reg_user-Runs_mgr, reg_user-Runs_duplicate, reset_pwd-Runs,
}

module _ (o : Outside) (l : Laws.Working o.mysql) (b : Hashes o.mysql o.bcrypt l)
    (key : Keys.HasKey o.mysql l)
    (apart : (k : String) (w : o.World) → l.rows (o.redis.get k w).1 ≡ l.rows w) where
  open o use {mysql, bcrypt, redis, json}

  abbrev Rows : List User → Gate o → Type 0
  Rows rows g = HasRows o l b rows g

  abbrev R : Type 0
  R = Reply json.Value

  abbrev Any : List User → Type 0
  Any rows = Unit

  reg_user-Serves :
      (name email pwd : String)
      → Serves l.same Rows Any (on_sql o (Mgr.reg_user mysql bcrypt name email pwd))
  reg_user-Serves name email pwd g rows p h = elim (Bool-cases (has_email l.same email rows)) [
    | inl known ↦
        let (t, out, h') =
          reg_user-Runs_duplicate mysql bcrypt l b key name email pwd rows (sql_of o g) known h in
        (rows, rw out h', inl refl)
    | inr new ↦
        let (t, out, h') =
          reg_user-Runs_mgr mysql bcrypt l b name email pwd rows (sql_of o g) new h in
        let row : User = record { name = name; email = email; pwd_hash = b.hash pwd g.world } in
        (rows ++ row ∷ [], rw out h', inr (inl (row, new, refl)))
  ]

  register_if-Serves :
      (src : json.Value) (email : String) (exist : ℤ)
      → Serves l.same Rows Any (register_if o src email exist)
  unfolding register_if register_new
  register_if-Serves src email exist =
      if-case (Serves l.same Rows Any) (int_eq exist (pos 1)) (λ _ g rows p h. (rows, h, inl refl))
        (λ _.
          if-case (Serves l.same Rows Any) (int_eq exist (negsuc 0))
            (λ _ g rows p h. (rows, h, inl refl))
            (λ _.
              if-case (Serves l.same Rows Any) (int_eq exist (pos 0))
                (λ _.
                  Serves-bind l.same Rows {B = R} Any (lift o (json.member_string src "username")) _
                    (λ g rows h. h)
                    (λ name.
                      Serves-bind l.same Rows {B = R} Any (lift o (json.member_string src "passwd"))
                        _ (λ g rows h. h)
                        (λ pwd.
                          Serves-then l.same Rows {B = R} Any
                            (on_sql o (Mgr.reg_user mysql bcrypt name email pwd)) _
                            (reg_user-Serves name email pwd) (λ done g rows h. h))))
                (λ _ g rows p h. (rows, h, inl refl))))

  reset_pwd-Serves :
      (email pwd : String)
      → Serves l.same Rows Any (on_sql o (Mgr.reset_pwd mysql bcrypt email pwd))
  reset_pwd-Serves email pwd g rows p h =
      let (t, out, h') = reset_pwd-Runs mysql bcrypt l b email pwd rows (sql_of o g) h in
      (
        set_hash l.same email (b.hash pwd g.world) rows,
        rw out h',
        inr (inr (email, b.hash pwd g.world, refl)),
      )

  reset_now-Serves :
      (src : json.Value) (email : String) → Serves l.same Rows Any (reset_now o src email)
  unfolding reset_now
  reset_now-Serves src email =
      Serves-bind l.same Rows {B = R} Any (lift o (json.member_string src "passwd")) _
        (λ g rows h. h)
        (λ pwd.
          Serves-then l.same Rows {B = R} Any (on_sql o (Mgr.reset_pwd mysql bcrypt email pwd)) _
            (reset_pwd-Serves email pwd) (λ done g rows h. h))

  fetch-Spares : (j : Job o) → Spares l.same Rows (fetch o j)
  unfolding fetch
  fetch-Spares j =
      Spares-bind l.same Rows {B = Bool} (lift o (json.member_string j.src "reset_code")) _
        (λ g rows h. h)
        (λ code.
          Spares-bind l.same Rows {B = Bool}
            (on_world o (redis.get (redis_key "ResetPwdCode:" j.email))) _
            (λ g rows h. record { rows_are = apart _ g.world ∙ h.rows_are; free = h.free })
            (λ value g rows h. h))

  -- A step changes the table as a table evolves.
  pub advance-Evolves :
      (j : Job o) (p : Phase o) (g : Gate o) (rows : List User)
      → Rows rows g
      → (rows' : List User) × Rows rows' (advance o j p g).1 × Evolves l.same rows rows'
  unfolding advance
  advance-Evolves j asking g rows h =
      (rows, record { rows_are = apart _ g.world ∙ h.rows_are; free = h.free }, inl refl)
  advance-Evolves j looking g rows h =
      let (t, out, h') = email_exists-Runs_mgr mysql bcrypt l j.email rows (sql_of o g) h in
      (rows, rw out h', inl refl)
  advance-Evolves j (acting exist) g rows h =
      Serves-try l.same Rows Any (register_if o j.src j.email exist)
        (λ e. pure (error_reply o err_server)) (register_if-Serves j.src j.email exist)
        (λ e g rows h. h) g rows tt h
  advance-Evolves j checking g rows h =
      let (t, out, h') = email_exists-Runs_mgr mysql bcrypt l j.email rows (sql_of o g) h in
      (rows, rw out h', inl refl)
  advance-Evolves j fetching g rows h = (rows, fetch-Spares j g rows h, inl refl)
  advance-Evolves j changing g rows h =
      Serves-try l.same Rows Any (reset_now o j.src j.email) (λ e. pure (error_reply o err_server))
        (reset_now-Serves j.src j.email) (λ e g rows h. h) g rows tt h
  advance-Evolves j (answered r) g rows h = (rows, h, inl refl)

  pub turn-Evolves :
      (i : ℕ) (jobs : List (Job o × Phase o)) (g : Gate o) (rows : List User)
      → Rows rows g
      → (rows' : List User) × Rows rows' (turn o i jobs g).1 × Evolves l.same rows rows'
  unfolding turn
  turn-Evolves i [] g rows h = (rows, h, inl refl)
  turn-Evolves zero ((j, p) ∷ rest) g rows h = advance-Evolves j p g rows h
  turn-Evolves (suc i) (x ∷ rest) g rows h = turn-Evolves i rest g rows h

  -- Over a database that obeys SQL, compares emails symmetrically and refuses to insert an email
  -- that has a row, a pool with current_conn_ below max_conn_, a BCrypt that returns a hash and a
  -- Redis that may fail, the last two without touching the table: whatever requests to register and
  -- to reset a password are at work, how far they are, and in whatever order their calls of Redis
  -- and of the database come, a table in which no email stands twice stays so.
  pub run-IsUnique :
      (schedule : List ℕ) (jobs : List (Job o × Phase o)) (g : Gate o) (rows : List User)
      → ((a b : String) → l.same a b ≡ l.same b a)
      → IsUnique l.same rows
      → Rows rows g
      → (rows' : List User) × Rows rows' (run o schedule jobs g).1 × IsUnique l.same rows'
  unfolding run
  run-IsUnique [] jobs g rows comm once h = (rows, h, once)
  run-IsUnique (i ∷ schedule) jobs g rows comm once h =
      let (rows', h', ev) = turn-Evolves i jobs g rows h in
      run-IsUnique schedule _ _ rows' comm (Evolves-IsUnique l.same comm rows rows' ev once) h'
