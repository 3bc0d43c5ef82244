-- ===== src/Gate/Logic/Down.antt =====
-- What the handlers of LogicSystem.cpp answer while the database takes no connection.
use qt_chatting.Prelude.{String, true, some, [], ◌<◌, ◌≡◌, returned, undefined, Outcome}
use qt_chatting.Gate.Logic.{
  error_reply, answer_get_reset_varifycode, answer_user_register, answer_reset_passwd,
  reset_code_for, register_checked, register_if, reset_if, is_code, redis_key,
}
use qt_chatting.Gate.Outside.{Outside, Gate, Reply, sql_of}
use qt_chatting.Protocol.{err_server}
use qt_chatting.Sql.Mgr.Down.{email_exists-refused, email_exists-undefined_mgr}
use qt_chatting.Sql.Pool.Down.{
  Refuses, Unreachable, get_connection-Throws, get_connection-undefined,
}

module _ (o : Outside) where
  open o use {mysql, bcrypt, redis, json}

  -- The answer is ERR_SERVER, and no more than the world has changed.
  abbrev pub IsRefused : Outcome (Reply json.Value) × Gate o → Gate o → Type 0
  IsRefused out g =
      (v : o.World) × (out ≡ (returned (error_reply o err_server), record g { world = v }))

  -- While the pool of connections is empty and may still grow, and mysql_init gives no connection,
  -- a request for a code to reset a password, a request to reset it, and a request to register with
  -- the right code are answered ERR_SERVER, and neither pool is changed.
  pub answers-IsRefused :
      (src : json.Value) (email code held : String) (g : Gate o) (w : o.World)
      → Refuses mysql
      → g.sql_pool.pool ≡ []
      → g.sql_pool.current_conn < g.sql_pool.max_conn
      → json.member_string src "email" ≡ returned email
      → json.member_string src "reg_varifycode" ≡ returned code
      → redis.get (redis_key "RegisterCode:" email) g.world ≡ (returned (some held), w)
      → is_code code (some held) ≡ true
      → IsRefused (answer_get_reset_varifycode o (some src) g) g
        × IsRefused (answer_reset_passwd o (some src) g) g
        × IsRefused (answer_user_register o (some src) g) g
  unfolding answer_get_reset_varifycode answer_reset_passwd answer_user_register reset_code_for
      reset_if register_checked register_if
  answers-IsRefused src email code held g w down empty room typed coded kept right =
      let later : Gate o = record g { world = w } in
      let (v, ran) =
        email_exists-refused mysql bcrypt email (sql_of o g)
          (get_connection-Throws mysql down (sql_of o g) empty room) in
      let (u, ran') =
        email_exists-refused mysql bcrypt email (sql_of o later)
          (get_connection-Throws mysql down (sql_of o later) empty room) in
      ((v, rw (typed, ran)), (v, rw (typed, ran)), (u, rw (typed, coded, kept, right, ran')))

  -- While the pool of connections is empty and may still grow, and mysql_real_connect fails, a
  -- request for a code to reset a password, a request to reset it, and a request to register with
  -- the right code end in undefined behaviour.
  pub answers-undefined :
      (src : json.Value) (email code held : String) (g : Gate o) (w : o.World)
      → Unreachable mysql
      → g.sql_pool.pool ≡ []
      → g.sql_pool.current_conn < g.sql_pool.max_conn
      → json.member_string src "email" ≡ returned email
      → json.member_string src "reg_varifycode" ≡ returned code
      → redis.get (redis_key "RegisterCode:" email) g.world ≡ (returned (some held), w)
      → is_code code (some held) ≡ true
      → ((answer_get_reset_varifycode o (some src) g).0 ≡ undefined)
        × ((answer_reset_passwd o (some src) g).0 ≡ undefined)
        × ((answer_user_register o (some src) g).0 ≡ undefined)
  unfolding answer_get_reset_varifycode answer_reset_passwd answer_user_register register_checked
  answers-undefined src email code held g w down empty room typed coded kept right =
      let later : Gate o = record g { world = w } in
      let (t, ran) =
        email_exists-undefined_mgr mysql bcrypt email (sql_of o g)
          (get_connection-undefined mysql down (sql_of o g) empty room) in
      let (u, ran') =
        email_exists-undefined_mgr mysql bcrypt email (sql_of o later)
          (get_connection-undefined mysql down (sql_of o later) empty room) in
      (rw (typed, ran), rw (typed, ran), rw (typed, coded, kept, right, ran'))
