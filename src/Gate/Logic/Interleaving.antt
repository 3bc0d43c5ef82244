-- ===== src/Gate/Logic/Interleaving.antt =====
-- LogicSystem.cpp on the five threads of IOcontextPool: the handlers of /user_register and
-- /reset_passwd, cut where they call Redis or the database, so that the calls of several requests interleave. A method of SqlMgr is
-- one step.
pub mod Alone
pub mod AloneReset
pub mod Keyed
pub mod Kept
pub mod Success
pub mod Race
use qt_chatting.Prelude.{
  ℕ, zero, suc, ℤ, String, Option, List, [], ◌∷◌, if◌then◌else◌, Bool, pos, int_eq, Exec, ◌>>=◌,
  Outcome, returned, threw, blocked, undefined, pure, try_catch,
}
use qt_chatting.Gate.Logic.{register_if, reset_now, error_reply, is_code, redis_key}
use qt_chatting.Gate.Outside.{Outside, Reply, Gate, on_sql, on_world, lift}
use qt_chatting.Protocol.{err_server, err_varifycode, err_user_non}
use qt_chatting.Sql.Mgr

module _ (o : Outside) where
  open o use {mysql, bcrypt, redis, json}

  -- A request that was parsed, with the members that its handler reads first; that of /reset_passwd
  -- reads its code later.
  pub record Job : Type 0 where
    pub src : json.Value
    pub email : String
    pub code : String

  -- How far a handler is. To register: before the call of Redis, before emailExists, before what
  -- follows its result. To reset: before emailExists, before the call of Redis, before resetPwd. And
  -- at its end.
  pub data Phase : Type 0 where
    asking looking : Phase
    acting : ℤ → Phase
    checking fetching changing : Phase
    answered : Outcome (Reply json.Value) → Phase

  pub asked : Job → Outcome (Option String) → Phase
  asked j (returned value) =
      if is_code j.code value then looking else answered (returned (error_reply o err_varifycode))
  asked j (threw e) = answered (returned (error_reply o err_server))
  asked j blocked = answered blocked
  asked j undefined = answered undefined

  pub looked : Outcome ℤ → Phase
  looked (returned exist) = acting exist
  looked (threw e) = answered (returned (error_reply o err_server))
  looked blocked = answered blocked
  looked undefined = answered undefined

  pub checked : Outcome ℤ → Phase
  checked (returned exists) =
      if int_eq exists (pos 1)
      then fetching
      else if int_eq exists (pos 0)
      then answered (returned (error_reply o err_user_non))
      else answered (returned (error_reply o err_server))
  checked (threw e) = answered (threw e)
  checked blocked = answered blocked
  checked undefined = answered undefined

  pub fetched : Outcome Bool → Phase
  fetched (returned matches) =
      if matches then changing else answered (returned (error_reply o err_varifycode))
  fetched (threw e) = answered (returned (error_reply o err_server))
  fetched blocked = answered blocked
  fetched undefined = answered undefined

  -- The code of the request, and its comparison with the one that Redis holds.
  pub fetch : Job → Exec (Gate o) Bool
  fetch j = do
    code ← lift o (json.member_string j.src "reset_code")
    value ← on_world o (redis.get (redis_key "ResetPwdCode:" j.email))
    pure (is_code code value)

  pub advance : Job → Phase → Gate o → Phase × Gate o
  unfolding asked looked checked fetched fetch
  advance j asking g =
      let (r, h) = on_world o (redis.get (redis_key "RegisterCode:" j.email)) g in (asked j r, h)
  advance j looking g =
      let (r, h) = on_sql o (Mgr.email_exists mysql bcrypt j.email) g in (looked r, h)
  advance j (acting exist) g =
      let (r, h) =
        try_catch (register_if o j.src j.email exist) (λ e. pure (error_reply o err_server)) g in
      (answered r, h)
  advance j checking g =
      let (r, h) = on_sql o (Mgr.email_exists mysql bcrypt j.email) g in (checked r, h)
  advance j fetching g = let (r, h) = fetch j g in (fetched r, h)
  advance j changing g =
      let (r, h) = try_catch (reset_now o j.src j.email) (λ e. pure (error_reply o err_server)) g in
      (answered r, h)
  advance j (answered r) g = (answered r, g)

  -- The i-th request makes a step.
  pub turn : ℕ → List (Job × Phase) → Gate o → List (Job × Phase) × Gate o
  turn i [] g = ([], g)
  turn zero ((j, p) ∷ rest) g = let (q, h) = advance j p g in ((j, q) ∷ rest, h)
  turn (suc i) (x ∷ rest) g = let (ys, h) = turn i rest g in (x ∷ ys, h)

  -- The requests make steps in the order of the schedule.
  pub run : List ℕ → List (Job × Phase) → Gate o → List (Job × Phase) × Gate o
  run [] jobs g = (jobs, g)
  run (i ∷ schedule) jobs g = let (next, h) = turn i jobs g in run schedule next h
