-- ===== src/Gate/Logic/Interleaving/Alone.antt =====
-- One request to register alone makes the three steps of its handler in turn.
use qt_chatting.Prelude.{
  ◌≡◌, refl, inl, inr, Bool-cases, some, Option, String, ℤ, Outcome, returned, threw, blocked,
  undefined, try_catch, pure, ◌>>=◌,
}
use qt_chatting.Gate.Logic.Interleaving.{
  Job, Phase, asking, looking, answered, asked, looked, advance,
}
use qt_chatting.Gate.Logic.{
  answer_user_register, register_checked, register_if, is_code, redis_key, error_reply,
}
use qt_chatting.Gate.Outside.{Outside, Reply, Gate, on_sql, sql_of, with_sql}
use qt_chatting.Sql.Pool.{Sql}
use qt_chatting.Protocol.{err_server, err_varifycode}
use qt_chatting.Sql.Mgr

module _ (o : Outside) where
  open o use {mysql, bcrypt, redis, json}

  abbrev pub three_steps : Phase o → Job o → Gate o → Phase o × Gate o
  three_steps start j g =
      let (p, h) = advance o j start g in let (q, i) = advance o j p h in advance o j q i

  -- The handler from the comparison of the code on.
  abbrev rest : Job o → Gate o → Outcome (Reply json.Value) × Gate o
  rest j =
      try_catch
        (on_sql o (Mgr.email_exists mysql bcrypt j.email) >>= λ exist.
          register_if o j.src j.email exist)
        (λ e. pure (error_reply o err_server))

  abbrev two_steps : Job o → Gate o → Phase o × Gate o
  two_steps j h = let (q, i) = advance o j looking h in advance o j q i

  -- What a handler and its steps end in.
  abbrev pub Same : Outcome (Reply json.Value) × Gate o → Phase o × Gate o → Type 0
  Same out end =
      (r : Outcome (Reply json.Value)) × (h : Gate o) × (out ≡ (r, h)) × (end ≡ (answered r, h))

  two_steps-Same : (j : Job o) (h : Gate o) → Same (rest j h) (two_steps j h)
  unfolding advance looked
  two_steps-Same j h =
      go (Mgr.email_exists mysql bcrypt j.email (sql_of o h)).0
        (Mgr.email_exists mysql bcrypt j.email (sql_of o h)).1 refl
    where
      go :
          (r : Outcome ℤ) (s : Sql mysql)
          → Mgr.email_exists mysql bcrypt j.email (sql_of o h) ≡ (r, s)
          → Same (rest j h) (two_steps j h)
      go (threw x) s a = (returned (error_reply o err_server), with_sql o h s, rw a refl, rw a refl)
      go blocked s a = (blocked, with_sql o h s, rw a refl, rw a refl)
      go undefined s a = (undefined, with_sql o h s, rw a refl, rw a refl)
      go (returned exist) s a =
          let out =
            try_catch (register_if o j.src j.email exist) (λ e. pure (error_reply o err_server))
              (with_sql o h s) in
          (out.0, out.1, rw a refl, rw a refl)

  -- On its own, a request to register whose email and code are texts is answered by the three steps
  -- of its handler (the call of Redis, the look-up of the email, and what follows its result) as by
  -- the handler, and they leave the same state, whatever the libraries answer.
  pub answer_user_register-three_steps :
      (j : Job o) (g : Gate o)
      → json.member_string j.src "email" ≡ returned j.email
      → json.member_string j.src "reg_varifycode" ≡ returned j.code
      → Same (answer_user_register o (some j.src) g) (three_steps asking j g)
  unfolding answer_user_register register_checked advance asked looked
  answer_user_register-three_steps j g e c =
      go (redis.get (redis_key "RegisterCode:" j.email) g.world).0
        (redis.get (redis_key "RegisterCode:" j.email) g.world).1 refl
    where
      go :
          (r : Outcome (Option String)) (w : o.World)
          → redis.get (redis_key "RegisterCode:" j.email) g.world ≡ (r, w)
          → Same (answer_user_register o (some j.src) g) (three_steps asking j g)
      go (threw x) w a = (
        returned (error_reply o err_server),
        record g { world = w },
        rw (e, c, a) refl,
        rw a refl,
      )
      go blocked w a = (blocked, record g { world = w }, rw (e, c, a) refl, rw a refl)
      go undefined w a = (undefined, record g { world = w }, rw (e, c, a) refl, rw a refl)
      go (returned value) w a = elim (Bool-cases (is_code j.code value)) [
        | inl m ↦
            let (r, h, out, end) = two_steps-Same j (record g { world = w }) in
            (r, h, rw (e, c, a, m) out, rw (a, m) end)
        | inr m ↦ (
          returned (error_reply o err_varifycode),
          record g { world = w },
          rw (e, c, a, m) refl,
          rw (a, m) refl,
        )
      ]
