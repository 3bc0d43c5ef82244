-- ===== src/Gate/Logic.antt =====
-- server/gate_server/src/LogicSystem.cpp: the handlers of the requests, and their tables.
pub mod Interleaving
pub mod Accounts
pub mod Down
pub mod Register
pub mod Reset
pub mod Code
pub mod Users
use Prim.Native.String
use qt_chatting.Prelude.{
  ℕ, zero, suc, ℤ, pos, negsuc, int_eq, String, str_eq, Bool, true, false, not, Option, none, some,
  List, [], ◌∷◌, ◌++◌, if◌then◌else◌, returned, Exec, pure, try_catch, ◌>>=◌, ◌>>◌,
}
use qt_chatting.Protocol.{
  Modules, register_mod, resetpwd_mod, ErrorCodes, code_of, success, err_json, err_rpc_failed,
  err_email_registered, err_varifycode, err_server, err_user_non,
}
use qt_chatting.Sql.Mgr
use qt_chatting.Rpc
use qt_chatting.Gate.Outside.{Outside, Reply, Gate, on_sql, on_rpc, on_world, lift}

-- The functions that the constructor registers.
pub data Handle : Type 0 where
  get_test get_varifycode get_reset_varifycode user_register reset_passwd : Handle

abbrev pub Table : Type 0
Table = List (String × Handle)

-- std::map::insert: a key that is there keeps its value.
unfoldable pub insert : String → Handle → Table → Table
insert url h [] = (url, h) ∷ []
insert url h ((u, k) ∷ rest) = if str_eq u url then (u, k) ∷ rest else (u, k) ∷ insert url h rest

unfoldable pub find : String → Table → Option Handle
find path [] = none
find path ((u, k) ∷ rest) = if str_eq u path then some k else find path rest

-- regGet and regPost in the constructor.
unfoldable pub get_handles : Table
unfolding insert
get_handles = insert "/get_test" get_test []

unfoldable pub post_handles : Table
unfolding insert
post_handles = insert "/reset_passwd" reset_passwd (
    insert "/user_register" user_register (
      insert "/get_reset_varifycode" get_reset_varifycode
        (insert "/get_varifycode" get_varifycode [])))

-- `code == value`, where `value` may be missing.
abbrev pub is_code : String → Option String → Bool
is_code code none = false
is_code code (some value) = str_eq code value

abbrev pub redis_key : String → String → String
redis_key prefix email = String.◌++◌ prefix email

module _ (o : Outside) where
  open o use {mysql, bcrypt, redis, grpc, json}

  abbrev error_reply : ErrorCodes → Reply json.Value
  error_reply e = record { error = some (code_of e); email = none }

  -- `root["error"] = rsp.error(); root["email"] = src_root["email"];`
  code_sent : json.Value → String → Modules → Exec (Gate o) (Reply json.Value)
  code_sent src email mod_ = do
    rsp ← on_rpc o (Rpc.get_varify_code grpc email mod_)
    value ← lift o (json.member src "email")
    pure (record { error = some rsp.error; email = some value })

  unfoldable pub answer_get_varifycode : Option json.Value → Exec (Gate o) (Reply json.Value)
  unfolding code_sent
  answer_get_varifycode none = pure (error_reply err_json)
  answer_get_varifycode (some src) = do
    email ← lift o (json.member_string src "email")
    code_sent src email register_mod

  reset_code_for : json.Value → String → ℤ → Exec (Gate o) (Reply json.Value)
  unfolding code_sent
  reset_code_for src email exists =
      if int_eq exists (pos 1)
      then code_sent src email resetpwd_mod
      else if int_eq exists (pos 0)
      then pure (error_reply err_user_non)
      else if int_eq exists (negsuc 0)
      then pure (error_reply err_server)
      else pure (record { error = none; email = none })

  pub answer_get_reset_varifycode : Option json.Value → Exec (Gate o) (Reply json.Value)
  unfolding reset_code_for
  answer_get_reset_varifycode none = pure (error_reply err_json)
  answer_get_reset_varifycode (some src) = do
    email ← lift o (json.member_string src "email")
    exists ← on_sql o (Mgr.email_exists mysql bcrypt email)
    reset_code_for src email exists

  register_new : json.Value → String → Exec (Gate o) (Reply json.Value)
  register_new src email = do
    name ← lift o (json.member_string src "username")
    pwd ← lift o (json.member_string src "passwd")
    done ← on_sql o (Mgr.reg_user mysql bcrypt name email pwd)
    pure (if done then error_reply success else error_reply err_server)

  register_if : json.Value → String → ℤ → Exec (Gate o) (Reply json.Value)
  unfolding register_new
  register_if src email exist =
      if int_eq exist (pos 1)
      then pure (error_reply err_email_registered)
      else if int_eq exist (negsuc 0)
      then pure (error_reply err_server)
      else if int_eq exist (pos 0)
      then register_new src email
      else pure (record { error = none; email = none })

  register_checked : json.Value → String → Bool → Exec (Gate o) (Reply json.Value)
  unfolding register_if
  register_checked src email matches =
      if not matches
      then pure (error_reply err_varifycode)
      else (do exist ← on_sql o (Mgr.email_exists mysql bcrypt email); register_if src email exist)

  unfoldable pub answer_user_register : Option json.Value → Exec (Gate o) (Reply json.Value)
  unfolding register_checked
  answer_user_register none = pure (error_reply err_json)
  answer_user_register (some src) = do
    email ← lift o (json.member_string src "email")
    code ← lift o (json.member_string src "reg_varifycode")
    try_catch
        (do
          value ← on_world o (redis.get (redis_key "RegisterCode:" email))
          register_checked src email (is_code code value))
        (λ e. pure (error_reply err_server))

  reset_now : json.Value → String → Exec (Gate o) (Reply json.Value)
  reset_now src email = do
    passwd ← lift o (json.member_string src "passwd")
    done ← on_sql o (Mgr.reset_pwd mysql bcrypt email passwd)
    pure (if done then error_reply success else error_reply err_server)

  reset_checked : json.Value → String → Exec (Gate o) (Reply json.Value)
  unfolding reset_now
  reset_checked src email =
      try_catch
        (do
          code ← lift o (json.member_string src "reset_code")
          value ← on_world o (redis.get (redis_key "ResetPwdCode:" email))
          if is_code code value then reset_now src email else pure (error_reply err_varifycode))
        (λ e. pure (error_reply err_server))

  reset_if : json.Value → String → ℤ → Exec (Gate o) (Reply json.Value)
  unfolding reset_checked
  reset_if src email exists =
      if int_eq exists (pos 1)
      then reset_checked src email
      else if int_eq exists (pos 0)
      then pure (error_reply err_user_non)
      else pure (error_reply err_server)

  pub answer_reset_passwd : Option json.Value → Exec (Gate o) (Reply json.Value)
  unfolding reset_if
  answer_reset_passwd none = pure (error_reply err_json)
  answer_reset_passwd (some src) = do
    email ← lift o (json.member_string src "email")
    exists ← on_sql o (Mgr.email_exists mysql bcrypt email)
    reset_if src email exists

  -- tryConnectRedis: `n` pings are left; an exception waits a second and tries again.
  unfoldable pub ping_loop : ℕ → Exec (Gate o) Bool
  ping_loop zero s = (returned false, s)
  ping_loop (suc n) s = try_catch (do on_world o redis.ping; pure true) (λ e. ping_loop n) s

  unfoldable pub try_connect_redis : Exec (Gate o) Bool
  unfolding ping_loop
  try_connect_redis = ping_loop 5
