-- ===== src/Protocol.antt =====
-- The codes that client and server share: server/gate_server/include/common.h,
-- app/detail/include/global.h and server/proto/protos/message.proto.
use qt_chatting.Prelude.{String, ℤ, pos}

-- ErrorCodes of the server and ResErrorCode of the client: the same names and numbers.
pub data ErrorCodes : Type 0 where
  success err_json err_rpc_failed err_email_registered err_varifycode err_server err_user_non :
      ErrorCodes

abbrev pub code_of : ErrorCodes → ℤ
code_of success = pos 0
code_of err_json = pos 1001
code_of err_rpc_failed = pos 1002
code_of err_email_registered = pos 1003
code_of err_varifycode = pos 1004
code_of err_server = pos 1005
code_of err_user_non = pos 1006

pub data Modules : Type 0 where
  register_mod resetpwd_mod : Modules

abbrev pub module_number : Modules → ℤ
module_number register_mod = pos 0
module_number resetpwd_mod = pos 1

-- message.GetVarifyReq
pub record GetVarifyReq : Type 0 where
  pub email : String
  pub module_id : ℤ

-- message.GetVarifyRsp
pub record GetVarifyRsp : Type 0 where
  pub error : ℤ
  pub email : String
  pub code : String
