-- ===== src/Tests/Told.antt =====
-- A user registers in the window, at the gate server, and is told.
use qt_chatting.Prelude.{
  ℤ, pos, negsuc, String, str_eq, str_differ, true, Option, none, some, [], ◌∷◌, ◌≡◌, refl, ap, ◌∙◌,
  if◌then◌else◌, ◌==◌, arith,
}
use Prim.Native.String.{len}
use qt_chatting.Client.Qt.{Qt, object}
use qt_chatting.Client.Reset.{ResetWidget, slot_confirm}
use qt_chatting.Client.Reset.Correct.{reset_post}
use qt_chatting.Client.Reset.Life as ResetLife
use qt_chatting.Flow.Network.Register as NetworkRegister
use qt_chatting.Flow.Network.Register.{slot_confirm_reg-Served}
use qt_chatting.Flow.Network.Reset as NetworkReset
use qt_chatting.Flow.Network.Reset.{slot_confirm-Served}
use qt_chatting.Tests.Fakes
use qt_chatting.Client.Register.{RegisterWidget, slot_confirm_reg}
use qt_chatting.Client.Register.Correct.{register_post}
use qt_chatting.Client.Register.Life as RegisterLife
use qt_chatting.Flow.Window.{Agrees}
use qt_chatting.Gate.Outside.{Outside, Gate}
use qt_chatting.Protocol.{
  ErrorCodes, code_of, err_json, err_rpc_failed, err_email_registered, err_varifycode, err_server,
  err_user_non,
}
use qt_chatting.Protocol
use qt_chatting.Tests.Fakes.{
  World, mysql, bcrypt, redis, grpc, json, laws, hashes, world, bob, register_fields,
}
use qt_chatting.Tests.Network.{prefix, network}
use qt_chatting.Tests.Stubs.{fresh}
use qt_chatting.Tests.Database.{pool_of_two}

-- The text of a reply is the digits of its error, and such a text is an object.
abbrev shown : Option ℤ → String
shown none = "{}"
shown (some (negsuc n)) = "{}"
shown (some (pos n)) =
    if n == 0
    then "0"
    else if n == 1001
    then "1001"
    else if n == 1002
    then "1002"
    else if n == 1003
    then "1003"
    else if n == 1004
    then "1004"
    else if n == 1005
    then "1005"
    else if n == 1006
    then "1006"
    else "{}"

abbrev read : String → ℤ
read text =
    if str_eq text "0"
    then pos 0
    else if str_eq text "1001"
    then pos 1001
    else if str_eq text "1002"
    then pos 1002
    else if str_eq text "1003"
    then pos 1003
    else if str_eq text "1004"
    then pos 1004
    else if str_eq text "1005"
    then pos 1005
    else pos 1006

abbrev qt : Qt
qt = record {
  Object = ℤ;
  length = λ s. len s;
  matches_username = λ s. true;
  matches_email = λ s. true;
  from_json = λ text. object (read text);
  to_int = λ o key. o;
  to_json = λ fields. "register";
  arg = λ s n. s;
}

abbrev both : Outside
both = record {
  World = World;
  mysql = mysql;
  bcrypt = bcrypt;
  redis = redis;
  grpc = grpc;
  json = record json { to_styled_string = λ r. shown r.error };
}

abbrev gate : Gate both
gate = record { sql_pool = pool_of_two; rpc_pool = fresh.pool; world = world }

abbrev window : RegisterWidget
window =
    RegisterLife.filled
      (record {
        username = "ann";
        mail = "ann@example.org";
        password = "password1";
        c_password = "password1";
        code = "4711";
      })
      RegisterLife.opened

read-shown : (c : ErrorCodes) → read (shown (some (code_of c))) ≡ code_of c
read-shown Protocol.success = refl
read-shown err_json = refl
read-shown err_rpc_failed = refl
read-shown err_email_registered = refl
read-shown err_varifycode = refl
read-shown err_server = refl
read-shown err_user_non = refl

abbrev agrees : Agrees qt both.json (register_post prefix window).json
agrees = record {
  body = register_fields;
  parsed = refl;
  members = (refl, (refl, (refl, (refl, tt))));
  reply_lem = λ r c e. (read (shown r.error), refl, ap (λ x. read (shown x)) e ∙ read-shown c);
}

slot_confirm_reg-Served_example :
    ((slot_confirm_reg qt prefix window).posted ≡ register_post prefix window ∷ [])
    × NetworkRegister.Served prefix network qt both laws hashes window agrees
        (bob ∷ [])
        gate
        (some "4711")
slot_confirm_reg-Served_example =
    slot_confirm_reg-Served prefix network qt both laws hashes window agrees (bob ∷ []) gate
      (some "4711") world refl
      (
        str_differ "ann" "" refl,
        refl,
        str_differ "ann@example.org" "" refl,
        omega arith,
        omega arith,
        refl,
        str_differ "4711" "" refl,
      )
      (record { rows_are = refl; free = omega arith }) refl refl

-- The other window.
abbrev reset_qt : Qt
reset_qt = record qt { to_json = λ fields. "reset" }

abbrev reset_window : ResetWidget
reset_window =
    ResetLife.filled (record { email = "bob@example.org"; code = "4711"; pwd = "password2" })
      ResetLife.opened

abbrev reset_agrees : Agrees reset_qt both.json (reset_post prefix reset_window).json
reset_agrees = record {
  body = Fakes.reset_fields;
  parsed = refl;
  members = (refl, (refl, (refl, tt)));
  reply_lem = λ r c e. (read (shown r.error), refl, ap (λ x. read (shown x)) e ∙ read-shown c);
}

slot_confirm-Served_example :
    ((slot_confirm reset_qt prefix reset_window).posted ≡ reset_post prefix reset_window ∷ [])
    × NetworkReset.Served prefix network reset_qt both laws hashes reset_window reset_agrees
        (bob ∷ [])
        gate
        (some "4711")
slot_confirm-Served_example =
    slot_confirm-Served prefix network reset_qt both laws hashes reset_window reset_agrees
      (bob ∷ []) gate (some "4711")
      (
        str_differ "bob@example.org" "" refl,
        str_differ "4711" "" refl,
        refl,
        omega arith,
        omega arith,
      )
      (record { rows_are = refl; free = omega arith }) (λ w. (w, refl, refl))
