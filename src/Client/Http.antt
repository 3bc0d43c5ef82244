-- ===== src/Client/Http.antt =====
-- app/detail/source/httpmgr.cpp: a request is posted, and its end is signalled to the module that
-- asked.
use Prim.Native.String.{len}
use qt_chatting.Prelude.{ℕ, ◌≡◌, refl, String, Bool, false, List, if◌then◌else◌}
use qt_chatting.Protocol.{Modules, register_mod, resetpwd_mod}
use qt_chatting.Client.Qt.{ReqId, ClientErrorCode, success, err_network, Qt, Post}

pub record NetworkRequest : Type 0 where
  pub url : String
  pub connection : String
  pub content_type : String
  pub content_length : ℕ
  pub body : String

-- A reply that is awaited: what the closure of `finished` holds.
pub record Awaited : Type 0 where
  pub request : NetworkRequest
  pub req_id : ReqId
  pub module_of : Modules

-- sig_http_finish
pub record Finished : Type 0 where
  pub id : ReqId
  pub res : String
  pub err : ClientErrorCode
  pub module_of : Modules

pub data Signal : Type 0 where
  sig_reg_mod_finish sig_reset_mod_finish : ReqId → String → ClientErrorCode → Signal

unfoldable pub post_http_req : Qt → String → List (String × String) → ReqId → Modules → Awaited
post_http_req q url json req_id mod_ =
    let body = q.to_json json in
    record {
      request = record {
        url = url;
        connection = "close";
        content_type = "application/json";
        content_length = len body;
        body = body;
      };
      req_id = req_id;
      module_of = mod_;
    }

-- The call that a window has made.
abbrev pub of_post : Qt → Post → Awaited
of_post q p = post_http_req q p.url p.json p.req_id p.module_of

-- The slot on `finished`: did the reply fail, and its text.
pub on_finished : Awaited → Bool → String → Finished
on_finished a failed text =
    if failed
    then record { id = a.req_id; res = ""; err = err_network; module_of = a.module_of }
    else record { id = a.req_id; res = text; err = success; module_of = a.module_of }

pub signal_of : Modules → ReqId → String → ClientErrorCode → Signal
signal_of register_mod = sig_reg_mod_finish
signal_of resetpwd_mod = sig_reset_mod_finish

pub slot_http_finish : Finished → Signal
unfolding signal_of
slot_http_finish f = signal_of f.module_of f.id f.res f.err

pub on_finished-returned :
    (a : Awaited) (text : String)
    → slot_http_finish (on_finished a false text) ≡ signal_of a.module_of a.req_id text success
unfolding slot_http_finish on_finished
on_finished-returned a text = refl

pub signal_of-register : (m : Modules) → m ≡ register_mod → signal_of m ≡ sig_reg_mod_finish
unfolding signal_of
signal_of-register m e = rw e refl

pub signal_of-reset : (m : Modules) → m ≡ resetpwd_mod → signal_of m ≡ sig_reset_mod_finish
unfolding signal_of
signal_of-reset m e = rw e refl
