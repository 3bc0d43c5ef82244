-- ===== src/Client/Register.antt =====
-- app/src/RegisterWidget.cpp: the slots of the window in which a user registers.
pub mod Correct
pub mod Life
pub mod Border
use Prim.Native.String
use qt_chatting.Prelude.{
  ℤ, pos, negsuc, int_eq, int_pred, is_nonpos, String, str_eq, Bool, true, false, not, ◌||◌, ltb,
  Option, none, some, List, [], ◌∷◌, if◌then◌else◌,
}
use qt_chatting.Protocol.{Modules, register_mod}
use qt_chatting.Client.Qt.{
  ReqId, id_get_varify_code, id_reg_user, id_reset_pwd, ClientErrorCode, success, err_network,
  Document, null, no_object, object, Qt, Post, Panel, show_tip,
}

pub record RegisterWidget : Type 0 where
  pub username : String
  pub mail : String
  pub password : String
  pub c_password : String
  pub code : String
  pub panel : Panel
  pub open panel use *

module _ (q : Qt) (gate_url_prefix : String) where
  abbrev tell : String → Bool → RegisterWidget → RegisterWidget
  tell text is_ok w = record w { panel = show_tip text is_ok w.panel }

  abbrev post : String → List (String × String) → ReqId → Modules → RegisterWidget → RegisterWidget
  post path json id mod_ w = record w {
    panel = record w.panel {
      posted =
          record {
            url = String.◌++◌ gate_url_prefix path;
            json = json;
            req_id = id;
            module_of = mod_;
          }
          ∷ w.posted;
    };
  }

  unfoldable pub slot_get_code : RegisterWidget → RegisterWidget
  slot_get_code w =
      if q.matches_email w.mail
      then post "/get_varifycode" (("email", w.mail) ∷ []) id_get_varify_code register_mod w
      else tell "邮箱地址不正确" false w

  -- The handler of ID_GET_VARIFY_CODE.
  unfoldable pub on_code_sent : q.Object → RegisterWidget → RegisterWidget
  on_code_sent json w =
      if not (int_eq (q.to_int json "error") (pos 0)) then tell "服务器发生错误" false w else record w {
        panel = record (show_tip "验证码已发送，注意查收" true w.panel) {
          confirm_enabled = true;
          send_enabled = false;
          remain_time = pos 60;
          timer_runs = true;
        };
      }

  -- The handler of ID_REG_USER; a code that the switch does not name changes nothing.
  unfoldable pub on_registered : q.Object → RegisterWidget → RegisterWidget
  on_registered json w =
      let error = q.to_int json "error" in
      if int_eq error (pos 0)
      then tell "注册成功" true w
      else if int_eq error (pos 1004)
      then tell "验证码错误" false w
      else if int_eq error (pos 1003)
      then tell "邮箱已注册" false w
      else if int_eq error (pos 1001) || int_eq error (pos 1002) || int_eq error (pos 1005)
      then tell "服务器错误" false w
      else w

  -- `handlers_[id](json_obj)`; `none` is the std::bad_function_call of an id with no handler.
  unfoldable pub call_handler : ReqId → q.Object → RegisterWidget → Option RegisterWidget
  unfolding on_code_sent on_registered
  call_handler id_get_varify_code json w = some (on_code_sent json w)
  call_handler id_reg_user json w = some (on_registered json w)
  call_handler id_reset_pwd json w = none

  unfoldable pub handle_document :
      ReqId → Document q.Object → RegisterWidget → Option RegisterWidget
  unfolding call_handler
  handle_document id null w = some (tell "json解析错误" false w)
  handle_document id no_object w = some (tell "json解析错误" false w)
  handle_document id (object json) w = call_handler id json w

  unfoldable pub slot_reg_finish :
      ReqId → String → ClientErrorCode → RegisterWidget → Option RegisterWidget
  unfolding handle_document
  slot_reg_finish id res err_network w = some (tell "网络请求错误" false w)
  slot_reg_finish id res success w = handle_document id (q.from_json res) w

  pub slot_confirm_reg : RegisterWidget → RegisterWidget
  slot_confirm_reg w =
      if str_eq w.username ""
      then tell "用户名不能为空" false w
      else if not (q.matches_username w.username)
      then tell "用户名不符合要求" false w
      else if str_eq w.mail ""
      then tell "邮箱不能为空" false w
      else if str_eq w.password ""
      then tell "密码不能为空" false w
      else if ltb (q.length w.password) 8 || ltb 16 (q.length w.password)
      then tell "密码长度应该为8-16" false w
      else if str_eq w.c_password ""
      then tell "确认密码不能为空" false w
      else if not (str_eq w.password w.c_password)
      then tell "确认密码不匹配" false w
      else if str_eq w.code ""
      then tell "验证码不能为空" false w
      else post "/user_register"
          (("username", w.username)
            ∷ ("email", w.mail)
            ∷ ("passwd", w.password)
            ∷ ("reg_varifycode", w.code)
            ∷ [])
          id_reg_user register_mod w

  -- The slot on the timer's `timeout`.
  pub slot_update_button_text : RegisterWidget → RegisterWidget
  slot_update_button_text w =
      let left = int_pred w.remain_time in
      if is_nonpos left
      then record w {
        panel = record w.panel {
          remain_time = left;
          timer_runs = false;
          send_enabled = true;
          send_text = "重新发送";
        };
      }
      else record w {
        panel = record w.panel { remain_time = left; send_text = q.arg "重新发送(%1s)" left };
      }

  -- One second passes: the timer fires if it runs.
  pub second : RegisterWidget → RegisterWidget
  unfolding slot_update_button_text
  second w = if w.timer_runs then slot_update_button_text w else w
