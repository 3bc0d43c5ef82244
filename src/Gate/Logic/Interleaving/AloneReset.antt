-- ===== src/Gate/Logic/Interleaving/AloneReset.antt =====
-- One request to reset a password alone makes the three steps of its handler in turn.
use qt_chatting.Prelude.{
  ◌≡◌, refl, inl, inr, Bool-cases, some, Option, String, ℤ, pos, int_eq, Outcome, returned, threw,
  blocked, undefined, try_catch, pure,
}
use qt_chatting.Gate.Logic.Interleaving.{
  Job, Phase, asking, checking, fetching, checked, fetched, fetch, advance,
}
use qt_chatting.Gate.Logic.Interleaving.Alone.{three_steps, Same, answer_user_register-three_steps}
use qt_chatting.Gate.Logic.{
  answer_user_register, answer_reset_passwd, reset_if, reset_checked, reset_now, is_code, redis_key,
  error_reply,
}
use qt_chatting.Gate.Outside.{Outside, Gate, sql_of, with_sql}
use qt_chatting.Sql.Pool.{Sql}
use qt_chatting.Protocol.{err_server, err_varifycode, err_user_non}
use qt_chatting.Sql.Mgr

module _ (o : Outside) where
  open o use {mysql, bcrypt, redis, json}

  abbrev two_steps : Job o → Gate o → Phase o × Gate o
  two_steps j h = let (q, i) = advance o j fetching h in advance o j q i

  read-Same :
      (j : Job o) (h : Gate o) (code : String)
      → json.member_string j.src "reset_code" ≡ returned code
      → Same o (reset_checked o j.src j.email h) (two_steps j h)
  unfolding reset_checked advance fetch fetched
  read-Same j h code c =
      go (redis.get (redis_key "ResetPwdCode:" j.email) h.world).0
        (redis.get (redis_key "ResetPwdCode:" j.email) h.world).1 refl
    where
      go :
          (r : Outcome (Option String)) (w : o.World)
          → redis.get (redis_key "ResetPwdCode:" j.email) h.world ≡ (r, w)
          → Same o (reset_checked o j.src j.email h) (two_steps j h)
      go (threw x) w a = (
        returned (error_reply o err_server),
        record h { world = w },
        rw (c, a) refl,
        rw (c, a) refl,
      )
      go blocked w a = (blocked, record h { world = w }, rw (c, a) refl, rw (c, a) refl)
      go undefined w a = (undefined, record h { world = w }, rw (c, a) refl, rw (c, a) refl)
      go (returned value) w a = elim (Bool-cases (is_code code value)) [
        | inl m ↦
            let out =
              try_catch (reset_now o j.src j.email) (λ e. pure (error_reply o err_server))
                (record h { world = w }) in
            (out.0, out.1, rw (c, a, m) refl, rw (c, a, m) refl)
        | inr m ↦ (
          returned (error_reply o err_varifycode),
          record h { world = w },
          rw (c, a, m) refl,
          rw (c, a, m) refl,
        )
      ]

  two_steps-Same :
      (j : Job o) (h : Gate o) → Same o (reset_checked o j.src j.email h) (two_steps j h)
  unfolding reset_checked advance fetch fetched
  two_steps-Same j h = go (json.member_string j.src "reset_code") refl
    where
      go :
          (r : Outcome String)
          → json.member_string j.src "reset_code" ≡ r
          → Same o (reset_checked o j.src j.email h) (two_steps j h)
      go (returned code) c = read-Same j h code c
      go (threw x) c = (returned (error_reply o err_server), h, rw c refl, rw c refl)
      go blocked c = (blocked, h, rw c refl, rw c refl)
      go undefined c = (undefined, h, rw c refl, rw c refl)

  -- On its own, a request to reset a password whose email is a text is answered by the three steps
  -- of its handler as by the handler, and they leave the same state.
  pub answer_reset_passwd-three_steps :
      (j : Job o) (g : Gate o)
      → json.member_string j.src "email" ≡ returned j.email
      → Same o (answer_reset_passwd o (some j.src) g) (three_steps o checking j g)
  unfolding answer_reset_passwd reset_if advance checked
  answer_reset_passwd-three_steps j g e =
      go (Mgr.email_exists mysql bcrypt j.email (sql_of o g)).0
        (Mgr.email_exists mysql bcrypt j.email (sql_of o g)).1 refl
    where
      go :
          (r : Outcome ℤ) (s : Sql mysql)
          → Mgr.email_exists mysql bcrypt j.email (sql_of o g) ≡ (r, s)
          → Same o (answer_reset_passwd o (some j.src) g) (three_steps o checking j g)
      go (threw x) s a = (threw x, with_sql o g s, rw (e, a) refl, rw a refl)
      go blocked s a = (blocked, with_sql o g s, rw (e, a) refl, rw a refl)
      go undefined s a = (undefined, with_sql o g s, rw (e, a) refl, rw a refl)
      go (returned exists) s a = elim (Bool-cases (int_eq exists (pos 1))) [
        | inl m ↦
            let (r, h, out, end) = two_steps-Same j (with_sql o g s) in
            (r, h, rw (e, a, m) out, rw (a, m) end)
        | inr m ↦ elim (Bool-cases (int_eq exists (pos 0))) [
          | inl k ↦ (
            returned (error_reply o err_user_non),
            with_sql o g s,
            rw (e, a, m, k) refl,
            rw (a, m, k) refl,
          )
          | inr k ↦ (
            returned (error_reply o err_server),
            with_sql o g s,
            rw (e, a, m, k) refl,
            rw (a, m, k) refl,
          )
        ]
      ]

  -- On its own, a request to register whose email and code are texts is answered by the three steps
  -- of its handler (the call of Redis, the look-up of the email, and what follows its result) as by
  -- the handler, and so is a request to reset a password whose email is a text (the look-up of the
  -- email, the call of Redis, and the update); each time the steps leave the same state as the
  -- handler, whatever the libraries answer.
  pub handlers-three_steps :
      (j k : Job o) (g : Gate o)
      → json.member_string j.src "email" ≡ returned j.email
      → json.member_string j.src "reg_varifycode" ≡ returned j.code
      → json.member_string k.src "email" ≡ returned k.email
      → Same o (answer_user_register o (some j.src) g) (three_steps o asking j g)
        × Same o (answer_reset_passwd o (some k.src) g) (three_steps o checking k g)
  handlers-three_steps j k g e c f =
      (answer_user_register-three_steps o j g e c, answer_reset_passwd-three_steps k g f)
