-- ===== src/Client/Reset.antt =====
-- app/src/ResetWidget.cpp: the slots of the window in which a user resets a password.
pub mod Correct
pub mod Life
use Prim.Native.String
use qt_chatting.Prelude.{
  ℤ, pos, int_eq, int_pred, is_nonpos, String, str_eq, Bool, true, false, not, ◌||◌, ltb, Option,
  none, some, List, [], ◌∷◌, if◌then◌else◌,
}
use qt_chatting.Protocol.{Modules, resetpwd_mod}
use qt_chatting.Client.Qt.{
  ReqId, id_get_varify_code, id_reg_user, id_reset_pwd, ClientErrorCode, success, err_network,
  Document, null, no_object, object, Qt, Panel, show_tip,
}

pub record ResetWidget : Type 0 where
  pub email : String
  pub code : String
  pub pwd : String
  pub panel : Panel
  pub open panel use *

module _ (q : Qt) (gate_url_prefix : String) where
  abbrev tell : String → Bool → ResetWidget → ResetWidget
  tell text is_ok w = record w { panel = show_tip text is_ok w.panel }

  abbrev post : String → List (String × String) → ReqId → Modules → ResetWidget → ResetWidget
  post path json id mod_ w = record w {
    panel = record w.panel {
      posted =
          record {
            url = String.◌++◌ gate_url_prefix path;
            json = json;
            req_id = id;
            module_of = mod_;
          }
          ∷ w.posted;
    };
  }

  -- The slot on the timer's `timeout`.
  pub slot_update_button : ResetWidget → ResetWidget
  slot_update_button w =
      let left = int_pred w.remain_time in
      if is_nonpos left
      then record w {
        panel = record w.panel {
          remain_time = left;
          timer_runs = false;
          send_text = "重新发送";
          send_enabled = true;
        };
      }
      else record w {
        panel = record w.panel { remain_time = left; send_text = q.arg "重新发送(%1s)" left };
      }

  pub slot_send_code : ResetWidget → ResetWidget
  slot_send_code w =
      if q.matches_email w.email
      then post "/get_reset_varifycode" (("email", w.email) ∷ []) id_get_varify_code resetpwd_mod w
      else tell "邮箱地址不正确" false w

  -- The handler of ID_GET_VARIFY_CODE; it ends in a call of slotUpdateButton.
  pub on_code_sent : q.Object → ResetWidget → ResetWidget
  unfolding slot_update_button
  on_code_sent json w =
      let error = q.to_int json "error" in
      if int_eq error (pos 1006)
      then tell "用户不存在" false w
      else if int_eq error (pos 1001)
      then tell "json解析失败" false w
      else if int_eq error (pos 1005)
      then tell "服务器发生错误" false w
      else slot_update_button (record w {
        panel = record (show_tip "验证码已发送，注意查收" true w.panel) {
          confirm_enabled = true;
          send_enabled = false;
          remain_time = pos 60;
          timer_runs = true;
        };
      })

  -- The handler of ID_RESET_PWD.
  unfoldable pub on_reset : q.Object → ResetWidget → ResetWidget
  on_reset json w =
      let error = q.to_int json "error" in
      if int_eq error (pos 1006)
      then tell "用户不存在" false w
      else if int_eq error (pos 0)
      then tell "重置密码成功" true w
      else if int_eq error (pos 1004)
      then tell "验证码错误" false w
      else if int_eq error (pos 1005) || int_eq error (pos 1001)
      then tell "服务器错误" false w
      else tell "未知错误" false w

  -- `handlers[id](json_obj)`; `none` is the std::bad_function_call of an id with no handler.
  unfoldable pub call_handler : ReqId → q.Object → ResetWidget → Option ResetWidget
  unfolding on_code_sent on_reset
  call_handler id_get_varify_code json w = some (on_code_sent json w)
  call_handler id_reset_pwd json w = some (on_reset json w)
  call_handler id_reg_user json w = none

  unfoldable pub handle_document : ReqId → Document q.Object → ResetWidget → Option ResetWidget
  unfolding call_handler
  handle_document id null w = some (tell "json解析错误" false w)
  handle_document id no_object w = some (tell "json解析错误" false w)
  handle_document id (object json) w = call_handler id json w

  unfoldable pub slot_reset_finish :
      ReqId → String → ClientErrorCode → ResetWidget → Option ResetWidget
  unfolding handle_document
  slot_reset_finish id res err_network w = some (tell "网络请求错误" false w)
  slot_reset_finish id res success w = handle_document id (q.from_json res) w

  pub slot_confirm : ResetWidget → ResetWidget
  slot_confirm w =
      if str_eq w.email ""
      then w
      else if str_eq w.code ""
      then tell "验证码不能为空" false w
      else if not (q.matches_email w.email)
      then tell "邮箱格式错误" false w
      else if ltb (q.length w.pwd) 8 || ltb 16 (q.length w.pwd)
      then tell "密码长应为8-16" false w
      else post "/reset_passwd"
          (("email", w.email) ∷ ("reset_code", w.code) ∷ ("passwd", w.pwd) ∷ []) id_reset_pwd
          resetpwd_mod w

  -- One second passes: the timer fires if it runs.
  pub second : ResetWidget → ResetWidget
  unfolding slot_update_button
  second w = if w.timer_runs then slot_update_button w else w
