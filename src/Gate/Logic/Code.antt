-- ===== src/Gate/Logic/Code.antt =====
-- The handlers of /get_varifycode and /get_reset_varifycode in LogicSystem.cpp over a sound pool of
-- stubs.
use qt_chatting.Prelude.{
  ℕ, ◌<◌, ◌≡◌, refl, ◌∙◌, String, Bool, true, false, some, List, [], ◌∷◌, ◌++◌, Exec, Runs,
  returned, pos, if◌then◌else◌,
}
use qt_chatting.Protocol.{Modules, register_mod, resetpwd_mod, err_user_non}
use qt_chatting.Sql.Laws
use qt_chatting.Sql.Laws.{User, has_email}
use qt_chatting.Sql.Mgr.Correct.{Hashes, email_exists-Runs_mgr}
use qt_chatting.Rpc.Bounds.{Holds}
use qt_chatting.Rpc.Client.{answered, request_of, chosen, get_varify_code-Holds}
use qt_chatting.Gate.Outside.{Outside, Reply, Gate, sql_of, with_sql, rpc_of, with_rpc}
use qt_chatting.Gate.Logic.{
  answer_get_varifycode, answer_get_reset_varifycode, code_sent, reset_code_for,
}
use qt_chatting.Gate.Logic.Register.{HasRows, with_error}

module _ (o : Outside) (src value : o.json.Value) (email : String) where
  -- The reply carries the error of the service and the email; the stub that served is the last one
  -- stored, as many are lent as before, and the users are not touched.
  abbrev pub SendsCode :
      Modules → Gate o → List o.grpc.Stub → ℕ → Exec (Gate o) (Reply o.json.Value) → Type 0
  SendsCode mod_ g xs lent m =
      let (stub, w) = chosen o.grpc (rpc_of o g) xs in
      let sent = o.grpc.get_varify_code stub (request_of email mod_) w in
      Runs m g (record { error = some (answered sent.0).error; email = some value })
        (λ t.
          (ys : List o.grpc.Stub) × Holds t.rpc_pool (ys ++ stub ∷ []) lent
          × (t.world ≡ sent.1)
          × (t.sql_pool ≡ g.sql_pool))

  code_sent-SendsCode :
      (mod_ : Modules) (g : Gate o) (xs : List o.grpc.Stub) (lent : ℕ)
      → o.json.member src "email" ≡ returned value
      → Holds g.rpc_pool xs lent
      → lent < g.rpc_pool.max_size
      → SendsCode mod_ g xs lent (code_sent o src email mod_)
  unfolding code_sent
  code_sent-SendsCode mod_ g xs lent e h room =
      let (t, ys, out, h', w) =
        get_varify_code-Holds o.grpc (rpc_of o g) xs lent email mod_ h room in
      (with_rpc o g t, rw (out, e), (ys, h', w, refl))

  -- On a sound pool of stubs with fewer than max_size_ lent, a request for a code whose email is a
  -- text is answered with the error that the service replies to that email and the register module,
  -- or 1002 where the call failed, and with the request's email. Then the serving stub is the last
  -- one stored, as many stubs are lent as before, and the pool of connections to the database is as
  -- it was.
  pub answer_get_varifycode-SendsCode :
      (g : Gate o) (xs : List o.grpc.Stub) (lent : ℕ)
      → o.json.member_string src "email" ≡ returned email
      → o.json.member src "email" ≡ returned value
      → Holds g.rpc_pool xs lent
      → lent < g.rpc_pool.max_size
      → SendsCode register_mod g xs lent (answer_get_varifycode o (some src))
  unfolding answer_get_varifycode
  answer_get_varifycode-SendsCode g xs lent a e h room =
      let (t, out, p) = code_sent-SendsCode register_mod g xs lent e h room in (t, rw (a, out), p)

  module _ (l : Laws.Working o.mysql) (b : Hashes o.mysql o.bcrypt l) (rows : List User) where
    -- A code for a known email; the state `t`, in which the service is asked, has the same users and
    -- the same pool of stubs as the first. For an unknown email the service is not asked.
    abbrev pub ResetCode :
        Bool → Gate o → List o.grpc.Stub → ℕ → Exec (Gate o) (Reply o.json.Value) → Type 0
    ResetCode true g xs lent m =
        (t : Gate o) × HasRows o l b rows t
        × (t.rpc_pool ≡ g.rpc_pool)
        × SendsCode resetpwd_mod t xs lent (λ _. m g)
    ResetCode false g xs lent m =
        Runs m g (with_error o l b err_user_non)
          (λ t. HasRows o l b rows t × (t.rpc_pool ≡ g.rpc_pool))

    reset_code_for-ResetCode :
        (known : Bool) (g : Gate o) (xs : List o.grpc.Stub) (lent : ℕ)
        → o.json.member src "email" ≡ returned value
        → Holds g.rpc_pool xs lent
        → lent < g.rpc_pool.max_size
        → HasRows o l b rows g
        → ResetCode known g xs lent (reset_code_for o src email (if known then pos 1 else pos 0))
    unfolding reset_code_for
    reset_code_for-ResetCode true g xs lent e h room d =
        (g, d, refl, code_sent-SendsCode resetpwd_mod g xs lent e h room)
    reset_code_for-ResetCode false g xs lent e h room d = (g, refl, (d, refl))

    ResetCode-move :
        (known : Bool) (g t : Gate o) (xs : List o.grpc.Stub) (lent : ℕ)
        (m n : Exec (Gate o) (Reply o.json.Value))
        → t.rpc_pool ≡ g.rpc_pool
        → m g ≡ n t
        → ResetCode known t xs lent n
        → ResetCode known g xs lent m
    ResetCode-move true g t xs lent m n same e (u, d, pool, (v, out, p)) =
        (u, d, pool ∙ same, (v, e ∙ out, p))
    ResetCode-move false g t xs lent m n same e (u, out, (d, pool)) = (u, e ∙ out, (d, pool ∙ same))

    -- Over a database that obeys SQL, a pool of connections with current_conn_ below max_conn_, and
    -- a sound pool of stubs with fewer than max_size_ stubs lent, a request for a code to reset a
    -- password, whose email is a text, is answered ERR_USER_NON where no row has the email, with
    -- the users and the pool of stubs as they were. Otherwise, from a state with the same users and
    -- the same pool of stubs, it is answered with the error that the service replies to that email
    -- and the reset module, or 1002 where the call failed, and with the request's email; then the
    -- serving stub is the last one stored and as many stubs are lent as before.
    pub answer_get_reset_varifycode-ResetCode :
        (g : Gate o) (xs : List o.grpc.Stub) (lent : ℕ)
        → o.json.member_string src "email" ≡ returned email
        → o.json.member src "email" ≡ returned value
        → Holds g.rpc_pool xs lent
        → lent < g.rpc_pool.max_size
        → HasRows o l b rows g
        → ResetCode
            (has_email l.same email rows)
            g
            xs
            lent
            (answer_get_reset_varifycode o (some src))
    unfolding answer_get_reset_varifycode
    answer_get_reset_varifycode-ResetCode g xs lent a e h room d =
        let (t, out, d') = email_exists-Runs_mgr o.mysql o.bcrypt l email rows (sql_of o g) d in
        ResetCode-move (has_email l.same email rows) g (with_sql o g t) xs lent
          (answer_get_reset_varifycode o (some src))
          (reset_code_for o src email (if has_email l.same email rows then pos 1 else pos 0)) refl
          (rw (a, out))
          (reset_code_for-ResetCode (has_email l.same email rows) (with_sql o g t) xs lent e h room
            d')
