-- ===== src/Client/Qt.antt =====
-- What the client uses of Qt, as parameters, and the widgets' state that its slots work on.
use qt_chatting.Prelude.{ℕ, ℤ, String, Bool, List}
use qt_chatting.Protocol.{Modules}

-- app/detail/include/global.h
pub data ReqId : Type 0 where
  id_get_varify_code id_reg_user id_reset_pwd : ReqId

pub data ClientErrorCode : Type 0 where
  success err_network : ClientErrorCode

pub data Document (Object : Type 0) : Type 0 where
  null : Document Object
  no_object : Document Object
  object : Object → Document Object

-- QString::length, QRegularExpression's match with the two patterns of the widgets, QJsonDocument
-- and QJsonObject, and QString::arg of a number.
pub record Qt : Type 1 where
  pub Object : Type 0
  pub length : String → ℕ
  pub matches_username : String → Bool
  pub matches_email : String → Bool
  pub from_json : String → Document Object
  pub to_int : Object → String → ℤ
  pub to_json : List (String × String) → String
  pub arg : String → ℤ → String

-- What a call of HttpMgr::postHttpReq is given.
pub record Post : Type 0 where
  pub url : String
  pub json : List (String × String)
  pub req_id : ReqId
  pub module_of : Modules

-- The tip, the two buttons and the timer, which both widgets have.
pub record Panel : Type 0 where
  pub tip : String
  pub tip_is_ok : Bool
  pub confirm_enabled : Bool
  pub send_enabled : Bool
  pub send_text : String
  pub remain_time : ℤ
  pub timer_runs : Bool
  pub posted : List Post

-- showTip of either widget; the colour of the text is `tip_is_ok`.
abbrev pub show_tip : String → Bool → Panel → Panel
show_tip text is_ok p = record p { tip = text; tip_is_ok = is_ok }
