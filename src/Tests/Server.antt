-- ===== src/Tests/Server.antt =====
-- The gate server at work.
use qt_chatting.Prelude.{
  ◌≡◌, refl, String, true, false, none, some, List, [], ◌∷◌, returned, threw, Runs, str_eq,
}
use qt_chatting.Protocol.{success, err_json}
use qt_chatting.Sql.Laws.{has_email}
use qt_chatting.Gate.Outside.{Reply, Gate}
use qt_chatting.Gate.Logic.{
  answer_user_register, answer_reset_passwd, answer_get_varifycode, is_code, Handle, find,
  get_handles, post_handles,
}
use qt_chatting.Gate.Logic.Register
use qt_chatting.Gate.Logic.Register.{HasRows, with_error, Registers, answer_user_register-Runs}
use qt_chatting.Gate.Logic.Reset
use qt_chatting.Gate.Logic.Reset.{Resets, answer_reset_passwd-Runs, answer_reset_passwd-no_change}
use qt_chatting.Gate.Connection.{Response, get_verb, post_verb, on_read}
use qt_chatting.Gate.Connection.Answers.{
  received, responded, request_with, json_response, not_found_response, on_read-answered,
  on_read-not_found, on_read-thrown,
}
use qt_chatting.Tests.Fakes.{
  outside, laws, hashes, register_fields, reset_fields, list_fields, bob, world,
}
use qt_chatting.Protocol.{register_mod}
use qt_chatting.Gate.Logic.{answer_get_reset_varifycode}
use qt_chatting.Gate.Logic.Code.{
  SendsCode, ResetCode, answer_get_varifycode-SendsCode, answer_get_reset_varifycode-ResetCode,
}
use qt_chatting.Prelude.{arith}
use qt_chatting.Tests.Stubs.{fresh, lending, lending-Holds}
use qt_chatting.Tests.Database.{pool_of_two, state-Has}

abbrev pub gate : Gate outside
gate = record { sql_pool = pool_of_two; rpc_pool = fresh.pool; world = world }

abbrev pub register_request : Register.Fields outside register_fields
register_request = record {
  email = "ann@example.org";
  code = "4711";
  username = "ann";
  passwd = "password1";
  email_is = refl;
  code_is = refl;
  username_is = refl;
  passwd_is = refl;
}

abbrev pub reset_request : Reset.Fields outside reset_fields
reset_request = record {
  email = "bob@example.org";
  code = "4711";
  passwd = "password2";
  email_is = refl;
  code_is = refl;
  passwd_is = refl;
}

answer_user_register-Runs_example :
    Registers outside laws hashes register_fields register_request
      (bob ∷ [])
      (is_code "4711" (some "4711"))
      (has_email str_eq "ann@example.org" (bob ∷ []))
      gate
      (answer_user_register outside (some register_fields))
answer_user_register-Runs_example =
    answer_user_register-Runs outside laws hashes register_fields register_request (bob ∷ []) gate
      (some "4711") world state-Has refl refl

answer_reset_passwd-Runs_example :
    Resets outside laws hashes reset_fields reset_request
      (bob ∷ [])
      gate
      (some "4711")
      (has_email str_eq "bob@example.org" (bob ∷ []))
      (is_code "4711" (some "4711"))
      (answer_reset_passwd outside (some reset_fields))
answer_reset_passwd-Runs_example =
    answer_reset_passwd-Runs outside laws hashes reset_fields reset_request (bob ∷ []) gate
      (some "4711") state-Has (λ w. (w, refl, refl))

bob_is_known : has_email str_eq "bob@example.org" (bob ∷ []) ≡ true
unfolding has_email
bob_is_known = refl

no_such_email : has_email str_eq "$2b$password2" (bob ∷ []) ≡ false
unfolding has_email
no_such_email = refl

answer_reset_passwd-no_change_example :
    Runs
      (answer_reset_passwd outside (some reset_fields))
      gate
      (with_error outside laws hashes success)
      (HasRows outside laws hashes (bob ∷ []))
answer_reset_passwd-no_change_example =
    answer_reset_passwd-no_change outside laws hashes reset_fields reset_request (bob ∷ []) gate
      (some "4711") state-Has (λ w. (w, refl, refl)) bob_is_known refl (λ w. no_such_email)

abbrev pub empty_response : Response
empty_response = record {
  version = 11;
  keep_alive = true;
  result = 200;
  content_type = none;
  server = none;
  body = "";
  content_length = none;
}

post_varifycode : find "/get_varifycode" post_handles ≡ some Handle.get_varifycode
unfolding find post_handles
post_varifycode = refl

-- "nothing" is no JSON.
abbrev refused : Reply (List (String × String))
refused = with_error outside laws hashes err_json

answered_refused : answer_get_varifycode outside none gate ≡ (returned refused, gate)
unfolding answer_get_varifycode
answered_refused = refl

on_read-answered_example :
    on_read outside false (
      received outside gate
        (request_with outside gate "/get_varifycode" 11 "nothing" empty_response post_verb)
        empty_response)
    ≡ (
      returned tt,
      responded outside gate
          (request_with outside gate "/get_varifycode" 11 "nothing" empty_response post_verb)
          (json_response outside gate "/get_varifycode" 11 "nothing" empty_response refused),
    )
on_read-answered_example =
    on_read-answered outside gate "/get_varifycode" 11 "nothing" empty_response
      Handle.get_varifycode (answer_get_varifycode outside) refused gate post_varifycode refl
      answered_refused

no_post : find "/nowhere" post_handles ≡ none
unfolding find post_handles
no_post = refl

no_get : find "/nowhere" get_handles ≡ none
unfolding find get_handles
no_get = refl

on_read-not_found_example :
    (on_read outside false (
        received outside gate
          (request_with outside gate "/nowhere" 11 "" empty_response post_verb)
          empty_response)
      ≡ (
        returned tt,
        responded outside gate
            (request_with outside gate "/nowhere" 11 "" empty_response post_verb)
            (not_found_response outside gate "/nowhere" 11 "" empty_response),
      ))
    × (on_read outside false (
          received outside gate
            (request_with outside gate "/nowhere" 11 "" empty_response get_verb)
            empty_response)
        ≡ (
          returned tt,
          responded outside gate
              (request_with outside gate "/nowhere" 11 "" empty_response get_verb)
              (not_found_response outside gate "/nowhere" 11 "" empty_response),
        ))
on_read-not_found_example =
    on_read-not_found outside gate "/nowhere" 11 "" empty_response no_post no_get

post_register : find "/user_register" post_handles ≡ some Handle.user_register
unfolding find post_handles
post_register = refl

-- The code of the request is a list.
threw_list :
    answer_user_register outside (some list_fields) gate ≡ (threw "not convertible to string", gate)
unfolding answer_user_register
threw_list = refl

on_read-thrown_example :
    let c =
      (on_read outside false (
        received outside gate
          (request_with outside gate "/user_register" 11 "list" empty_response post_verb)
          empty_response)).1.connection in
    (c.written ≡ []) × (c.is_waiting ≡ false) × (c.is_open ≡ true)
on_read-thrown_example =
    on_read-thrown outside gate "/user_register" 11 "list" empty_response Handle.user_register
      (answer_user_register outside) "not convertible to string" gate post_register refl threw_list

-- One stub is stored and another one lent.
abbrev busy_gate : Gate outside
busy_gate = record { sql_pool = pool_of_two; rpc_pool = lending.pool; world = world }

answer_get_varifycode-SendsCode_example :
    SendsCode outside register_fields register_fields "ann@example.org" register_mod busy_gate
      (9 ∷ [])
      1
      (answer_get_varifycode outside (some register_fields))
answer_get_varifycode-SendsCode_example =
    answer_get_varifycode-SendsCode outside register_fields register_fields "ann@example.org"
      busy_gate (9 ∷ []) 1 refl refl lending-Holds (omega arith)

answer_get_reset_varifycode-ResetCode_example :
    ResetCode outside reset_fields reset_fields "bob@example.org" laws hashes
      (bob ∷ [])
      (has_email str_eq "bob@example.org" (bob ∷ []))
      busy_gate
      (9 ∷ [])
      1
      (answer_get_reset_varifycode outside (some reset_fields))
answer_get_reset_varifycode-ResetCode_example =
    answer_get_reset_varifycode-ResetCode outside reset_fields reset_fields "bob@example.org" laws
      hashes (bob ∷ []) busy_gate (9 ∷ []) 1 refl refl lending-Holds (omega arith) state-Has
