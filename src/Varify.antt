-- ===== src/Varify.antt =====
-- server/varify_server: the verification service in JavaScript, which makes a code, stores it in Redis
-- and mails it. Its packages (crypto, ioredis, nodemailer) are parameters.
pub mod Digits
pub mod Correct
use Prim.Native.String
use qt_chatting.Prelude.{
  ℕ, ℤ, pos, int_eq, String, Bool, true, false, not, Option, none, some, if◌then◌else◌, Outcome,
  returned, threw, blocked, undefined, Exec, pure, try_catch, ◌>>=◌, ◌>>◌,
}
use qt_chatting.Protocol.{GetVarifyReq, GetVarifyRsp}
use qt_chatting.Rpc.{Grpc}
use qt_chatting.Varify.Digits.{padded}

-- mailOptions; a text that was never set is `none`.
pub record Mail : Type 0 where
  pub from : String
  pub to : String
  pub subject : String
  pub text : Option String

-- crypto.randomInt(min, max), RedisCli.set, RedisCli.expire and transport.sendMail; a rejected
-- promise throws where it is awaited.
pub record Node (World : Type 0) : Type 0 where
  pub random_int : ℕ → ℕ → World → ℕ × World
  pub redis_set : String → String → World → Outcome (Unit {0}) × World
  pub redis_expire : String → ℕ → World → Outcome (Unit {0}) × World
  pub send_mail : Mail → World → Outcome String × World

-- const.js
pub data Errors : Type 0 where
  success redis_err exception : Errors

abbrev pub number_of : Errors → ℤ
number_of success = pos 0
number_of redis_err = pos 1
number_of exception = pos 2

-- code_prefix[module] as a part of a text; outside of the array it is `undefined`.
abbrev pub code_prefix : ℤ → String
code_prefix module_id =
    if int_eq module_id (pos 0)
    then "RegisterCode:"
    else if int_eq module_id (pos 1)
    then "ResetPwdCode:"
    else "undefined"

abbrev pub text_str : ℤ → String → Option String
text_str module_id code =
    if int_eq module_id (pos 0)
    then some (String.◌++◌ "您正在注册，验证码为 " (String.◌++◌ code " 三十分钟内有效。"))
    else if int_eq module_id (pos 1)
    then some (String.◌++◌ "您正在重置密码，验证码为 " (String.◌++◌ code " 三十分钟内有效。"))
    else none

abbrev pub mail_options : String → ℤ → String → Mail
mail_options email module_id code = record {
  from = "qtchatting@163.com";
  to = email;
  subject = "验证码";
  text = text_str module_id code;
}

abbrev pub response : String → Errors → GetVarifyRsp
response email e = record { error = number_of e; email = email; code = "" }

module _ {World : Type 0} (n : Node World) where
  abbrev drawn : ℕ → ℕ → Exec World ℕ
  drawn min max w = let (k, w') = n.random_int min max w in (returned k, w')

  pub set_redis_expire : String → String → ℕ → Exec World Bool
  set_redis_expire key value exptime =
      try_catch (do n.redis_set key value; n.redis_expire key exptime; pure true) (λ e. pure false)

  -- What follows the storing of the code.
  mail_code : GetVarifyReq → String → Bool → Exec World GetVarifyRsp
  mail_code req code stored = if not stored then pure (response req.email redis_err) else (do
    info ← n.send_mail (mail_options req.email req.module_id code)
    pure (response req.email success))

  -- GetVarifyCode of server.js; what it passes to its callback.
  unfoldable pub get_varify_code : GetVarifyReq → Exec World GetVarifyRsp
  unfolding set_redis_expire mail_code
  get_varify_code req =
      try_catch
        (do
          k ← drawn 0 1000000
          stored ←
              set_redis_expire (String.◌++◌ (code_prefix req.module_id) req.email) (padded k) 1800
          mail_code req (padded k) stored)
        (λ e. pure (response req.email exception))

  -- The reply as the gate server's stub receives it. A call that no callback ends has no status ok.
  abbrev pub received : Outcome GetVarifyRsp → Bool × GetVarifyRsp
  received (returned rsp) = (true, rsp)
  received (threw e) = (false, response "" success)
  received blocked = (false, response "" success)
  received undefined = (false, response "" success)

  -- gRPC between the two servers: the stub calls the service, and both see one world outside.
  abbrev pub service : Grpc World
  service = record {
    Stub = Unit {0};
    new_stub = λ target w. (tt, w);
    get_varify_code = λ stub req w. (received (get_varify_code req w).0, (get_varify_code req w).1);
  }
