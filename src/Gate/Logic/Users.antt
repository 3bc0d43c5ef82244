-- ===== src/Gate/Logic/Users.antt =====
-- What the handlers of LogicSystem.cpp do to the table of users, whatever Redis, BCrypt, gRPC and the
-- requests hold.
use qt_chatting.Prelude.{
  String, Bool, true, false, Option, none, some, List, ◌≡◌, refl, ◌∙◌, inl, inr, Bool-cases, Exec,
  pure, ◌>>=◌, ℤ, pos, negsuc, int_eq, if-case,
}
use qt_chatting.Protocol.{Modules, register_mod, resetpwd_mod, err_server}
use qt_chatting.Rpc
use qt_chatting.Rpc.Untouched
use qt_chatting.Rpc.Untouched.{get_varify_code-Leaves}
use qt_chatting.Sql.Pool.Working.{Has}
use qt_chatting.Sql.Laws
use qt_chatting.Sql.Laws.{User, has_email}
use qt_chatting.Sql.Laws.Serving.{
  Spares, Serves, Spares-Serves, Spares-bind, Serves-bind, Serves-then, Serves-try,
}
use qt_chatting.Sql.Mgr
use qt_chatting.Sql.Mgr.Users.{email_exists-Spares, reg_user-Serves, reset_pwd-Serves}
use qt_chatting.Sql.Mgr.Correct.{email_exists-Runs_mgr}
use qt_chatting.Gate.Outside.{
  Outside, Reply, Gate, sql_of, with_sql, on_sql, on_rpc, on_world, lift,
}
use qt_chatting.Gate.Logic.{
  error_reply, answer_get_varifycode, answer_get_reset_varifycode, answer_user_register,
  answer_reset_passwd, code_sent, reset_code_for, register_new, register_if, register_checked,
  reset_now, reset_checked, reset_if, is_code, redis_key,
}

-- BCrypt, Redis and gRPC do not touch the table of users.
pub record IsApart (o : Outside) (l : Laws.Working o.mysql) : Type 0 where
  pub bcrypt : (pwd : String) (w : o.World) → l.rows (o.bcrypt.generate_hash pwd w).1 ≡ l.rows w
  pub redis : (key : String) (w : o.World) → l.rows (o.redis.get key w).1 ≡ l.rows w
  pub grpc : Untouched.IsApart o.grpc l.rows

module _ (o : Outside) (l : Laws.Working o.mysql) (k : IsApart o l) where
  open o use {mysql, bcrypt, redis, grpc, json}

  abbrev pub Users : List User → Gate o → Type 0
  Users rows g = Has mysql l rows (sql_of o g)

  abbrev pub Sparing {ℓ} : {A : Type ℓ} → Exec (Gate o) A → Type 0
  Sparing m = Spares l.same Users m

  abbrev pub Serving {ℓ} : {A : Type ℓ} → Exec (Gate o) A → Type 0
  Serving m = Serves l.same Users (λ rows. Unit {0}) m

  abbrev R : Type 0
  R = Reply json.Value

  code_sent-Spares :
      (src : json.Value) (email : String) (mod_ : Modules) → Sparing (code_sent o src email mod_)
  unfolding code_sent
  code_sent-Spares src email mod_ =
      Spares-bind l.same Users {B = R} (on_rpc o (Rpc.get_varify_code grpc email mod_)) _
        (λ g rows h. record {
          rows_are = get_varify_code-Leaves grpc l.rows k.grpc email mod_ _ ∙ h.rows_are;
          free = h.free;
        })
        (λ rsp.
          Spares-bind l.same Users {B = R} (lift o (json.member src "email")) _ (λ g rows h. h)
            (λ value g rows h. h))

  asked-Spares : (email : String) → Sparing (on_sql o (Mgr.email_exists mysql bcrypt email))
  asked-Spares email g rows h =
      email_exists-Spares mysql bcrypt l k.bcrypt email (sql_of o g) rows h

  answer_get_varifycode-Spares : (src : Option json.Value) → Sparing (answer_get_varifycode o src)
  unfolding answer_get_varifycode
  answer_get_varifycode-Spares none = λ g rows h. h
  answer_get_varifycode-Spares (some src) =
      Spares-bind l.same Users {B = R} (lift o (json.member_string src "email")) _ (λ g rows h. h)
        (λ email. code_sent-Spares src email register_mod)

  reset_code_for-Spares :
      (src : json.Value) (email : String) (exists : ℤ) → Sparing (reset_code_for o src email exists)
  unfolding reset_code_for
  reset_code_for-Spares src email exists =
      if-case Sparing (int_eq exists (pos 1)) (λ _. code_sent-Spares src email resetpwd_mod)
        (λ _.
          if-case Sparing (int_eq exists (pos 0)) (λ _ g rows h. h)
            (λ _. if-case Sparing (int_eq exists (negsuc 0)) (λ _ g rows h. h) (λ _ g rows h. h)))

  answer_get_reset_varifycode-Spares :
      (src : Option json.Value) → Sparing (answer_get_reset_varifycode o src)
  unfolding answer_get_reset_varifycode
  answer_get_reset_varifycode-Spares none = λ g rows h. h
  answer_get_reset_varifycode-Spares (some src) =
      Spares-bind l.same Users {B = R} (lift o (json.member_string src "email")) _ (λ g rows h. h)
        (λ email.
          Spares-bind l.same Users {B = R} (on_sql o (Mgr.email_exists mysql bcrypt email)) _
            (asked-Spares email) (λ exists. reset_code_for-Spares src email exists))

  register_new-Serves :
      (src : json.Value) (email : String)
      → Serves l.same Users (λ rows. has_email l.same email rows ≡ false) (register_new o src email)
  unfolding register_new
  register_new-Serves src email =
      Serves-bind l.same Users {B = R} _ (lift o (json.member_string src "username")) _
        (λ g rows h. h)
        (λ name.
          Serves-bind l.same Users {B = R} _ (lift o (json.member_string src "passwd")) _
            (λ g rows h. h)
            (λ pwd.
              Serves-then l.same Users {B = R} _
                (on_sql o (Mgr.reg_user mysql bcrypt name email pwd)) _
                (λ g rows new h.
                  reg_user-Serves mysql bcrypt l k.bcrypt name email pwd (sql_of o g) rows new h)
                (λ done g rows h. h)))

  register_checked-Serves :
      (src : json.Value) (email : String) (matches : Bool)
      → Serving (register_checked o src email matches)
  unfolding register_checked register_if
  register_checked-Serves src email false g rows p h = (rows, h, inl refl)
  register_checked-Serves src email true g rows p h =
      let (t, out, h') = email_exists-Runs_mgr mysql bcrypt l email rows (sql_of o g) h in
      elim (Bool-cases (has_email l.same email rows)) [
        | inl known ↦ (rows, rw (out, known) h', inl refl)
        | inr new ↦ rw (out, new) (register_new-Serves src email (with_sql o g t) rows new h')
      ]

  answer_user_register-Serves : (src : Option json.Value) → Serving (answer_user_register o src)
  unfolding answer_user_register
  answer_user_register-Serves none = λ g rows p h. (rows, h, inl refl)
  answer_user_register-Serves (some src) =
      Serves-bind l.same Users {B = R} _ (lift o (json.member_string src "email")) _ (λ g rows h. h)
        (λ email.
          Serves-bind l.same Users {B = R} _ (lift o (json.member_string src "reg_varifycode")) _
            (λ g rows h. h)
            (λ code.
              Serves-try l.same Users _
                (on_world o (redis.get (redis_key "RegisterCode:" email)) >>= λ value.
                  register_checked o src email (is_code code value))
                (λ e. pure (error_reply o err_server))
                (Serves-bind l.same Users {B = R} _
                  (on_world o (redis.get (redis_key "RegisterCode:" email))) _
                  (λ g rows h. record { rows_are = k.redis _ g.world ∙ h.rows_are; free = h.free })
                  (λ value. register_checked-Serves src email (is_code code value)))
                (λ e g rows h. h)))

  reset_now-Serves : (src : json.Value) (email : String) → Serving (reset_now o src email)
  unfolding reset_now
  reset_now-Serves src email =
      Serves-bind l.same Users {B = R} _ (lift o (json.member_string src "passwd")) _
        (λ g rows h. h)
        (λ pwd.
          Serves-then l.same Users {B = R} _ (on_sql o (Mgr.reset_pwd mysql bcrypt email pwd)) _
            (λ g rows p h. reset_pwd-Serves mysql bcrypt l k.bcrypt email pwd (sql_of o g) rows p h)
            (λ done g rows h. h))

  reset_checked-Serves : (src : json.Value) (email : String) → Serving (reset_checked o src email)
  unfolding reset_checked
  reset_checked-Serves src email =
      Serves-try l.same Users _ _ (λ e. pure (error_reply o err_server))
        (Serves-bind l.same Users {B = R} _ (lift o (json.member_string src "reset_code")) _
          (λ g rows h. h)
          (λ code.
            Serves-bind l.same Users {B = R} _
              (on_world o (redis.get (redis_key "ResetPwdCode:" email))) _
              (λ g rows h. record { rows_are = k.redis _ g.world ∙ h.rows_are; free = h.free })
              (λ value.
                if-case Serving (is_code code value) (λ _. reset_now-Serves src email)
                  (λ _ g rows p h. (rows, h, inl refl)))))
        (λ e g rows h. h)

  reset_if-Serves :
      (src : json.Value) (email : String) (exists : ℤ) → Serving (reset_if o src email exists)
  unfolding reset_if
  reset_if-Serves src email exists =
      if-case Serving (int_eq exists (pos 1)) (λ _. reset_checked-Serves src email)
        (λ _.
          if-case Serving (int_eq exists (pos 0)) (λ _ g rows p h. (rows, h, inl refl))
            (λ _ g rows p h. (rows, h, inl refl)))

  answer_reset_passwd-Serves : (src : Option json.Value) → Serving (answer_reset_passwd o src)
  unfolding answer_reset_passwd
  answer_reset_passwd-Serves none = λ g rows p h. (rows, h, inl refl)
  answer_reset_passwd-Serves (some src) =
      Serves-bind l.same Users {B = R} _ (lift o (json.member_string src "email")) _ (λ g rows h. h)
        (λ email.
          Serves-bind l.same Users {B = R} _ (on_sql o (Mgr.email_exists mysql bcrypt email)) _
            (asked-Spares email) (λ exists. reset_if-Serves src email exists))

  -- Each handler that speaks JSON, with any body, makes one change to the table at most.
  pub answers-Serve :
      (src : Option json.Value)
      → Serving (answer_get_varifycode o src)
        × Serving (answer_get_reset_varifycode o src)
        × Serving (answer_user_register o src)
        × Serving (answer_reset_passwd o src)
  answers-Serve src = (
    Spares-Serves l.same Users _ (answer_get_varifycode o src) (answer_get_varifycode-Spares src),
    Spares-Serves l.same Users _ (answer_get_reset_varifycode o src)
        (answer_get_reset_varifycode-Spares src),
    answer_user_register-Serves src,
    answer_reset_passwd-Serves src,
  )
