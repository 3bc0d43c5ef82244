-- ===== src/Gate/Connection.antt =====
-- server/gate_server/include/HttpConnection.h, src/HttpConnection.cpp, and the dispatch of
-- LogicSystem.cpp: one connection from the request to its close. Boost's socket, timer and
-- message types are seen through the calls that the program makes on them.
pub mod Answers
pub mod Users
pub mod Accounts
pub mod Written
pub mod Life
use Prim.Native.String
use Prim.Native.String.{len}
use qt_chatting.Prelude.{
  ℕ, String, Bool, true, false, Option, none, some, List, [], ◌∷◌, if◌then◌else◌, Outcome, returned,
  Exec, pure, reads, modify, try_catch, ◌>>=◌, ◌>>◌,
}
use qt_chatting.Gate.Outside.{Outside, Reply, Gate}
use qt_chatting.Gate.Logic.{
  Handle, Table, find, get_handles, post_handles, answer_get_varifycode,
  answer_get_reset_varifycode, answer_user_register, answer_reset_passwd,
}

pub data Verb : Type 0 where
  get_verb post_verb other_verb : Verb

pub record Request : Type 0 where
  pub method : Verb
  pub target : String
  pub version : ℕ
  pub body : String

pub record Response : Type 0 where
  pub version : ℕ
  pub keep_alive : Bool
  pub result : ℕ
  pub content_type : Option String
  pub server : Option String
  pub body : String
  pub content_length : Option ℕ

-- `written` are the responses handed to async_write, the last one first; `is_waiting` says that
-- the deadline timer has a handler that waits.
pub record HttpConnection : Type 0 where
  pub request : Request
  pub response : Response
  pub written : List Response
  pub is_waiting : Bool
  pub is_open : Bool
  pub send_is_shut : Bool

module _ (o : Outside) where
  open o use {json}

  pub record Session : Type 0 where
    pub gate : Gate o
    pub connection : HttpConnection
    pub open connection use *

  abbrev on_gate {ℓ} : {A : Type ℓ} → Exec (Gate o) A → Exec Session A
  on_gate m s = let (r, g) = m s.gate in (r, record s { gate = g })

  abbrev on_connection : (HttpConnection → HttpConnection) → Exec Session (Unit {0})
  on_connection f = modify (λ s. record s { connection = f s.connection })

  abbrev pub on_response : (Response → Response) → HttpConnection → HttpConnection
  on_response f c = record c { response = f c.response }

  -- beast::ostream(response_.body()) << text
  abbrev pub append_body : String → Response → Response
  append_body text r = record r { body = String.◌++◌ r.body text }

  pub json_handle : (Option json.Value → Exec (Gate o) (Reply json.Value)) → Exec Session (Unit {0})
  json_handle answer = do
    on_connection (on_response (λ r. record r { content_type = some "text/json" }))
    body ← reads (λ s. s.connection.request.body)
    reply ← on_gate (answer (json.parse body))
    on_connection (on_response (append_body (json.to_styled_string reply)))

  run_handle : Handle → Exec Session (Unit {0})
  unfolding json_handle
  run_handle Handle.get_test = on_connection (on_response (append_body "receive get_test req"))
  run_handle Handle.get_varifycode = json_handle (answer_get_varifycode o)
  run_handle Handle.get_reset_varifycode = json_handle (answer_get_reset_varifycode o)
  run_handle Handle.user_register = json_handle (answer_user_register o)
  run_handle Handle.reset_passwd = json_handle (answer_reset_passwd o)

  run_found : Option Handle → Exec Session Bool
  run_found none = pure false
  run_found (some h) = do run_handle h; pure true

  -- handleGet and handlePost
  pub handle_get : String → Exec Session Bool
  unfolding run_found run_handle
  handle_get path = run_found (find path get_handles)

  pub handle_post : String → Exec Session Bool
  unfolding run_found run_handle
  handle_post path = run_found (find path post_handles)

  -- The length of the body is set, and the response goes to async_write.
  write_response : HttpConnection → HttpConnection
  write_response c =
      let r = record c.response { content_length = some (len c.response.body) } in
      record c { response = r; written = r ∷ c.written }

  not_found : HttpConnection → HttpConnection
  unfolding write_response
  not_found c = write_response (
      on_response
        (λ r.
          append_body "url not found\r\n"
            (record r { result = 404; content_type = some "text/plain" }))
        c)

  found : String → HttpConnection → HttpConnection
  unfolding write_response
  found name c = write_response (on_response (λ r. record r { result = 200; server = some name }) c)

  finish : String → Bool → Exec Session (Unit {0})
  unfolding not_found found
  finish name success = on_connection (if success then found name else not_found)

  dispatch : Verb → String → Exec Session (Unit {0})
  unfolding finish handle_get handle_post
  dispatch get_verb target = do success ← handle_get target; finish "Gate server" success
  dispatch post_verb target = do success ← handle_post target; finish "GateServer" success
  dispatch other_verb target = pure tt

  pub handle_req : Exec Session (Unit {0})
  unfolding dispatch
  handle_req = do
    on_connection
        (λ c. on_response (λ r. record r { version = c.request.version; keep_alive = false }) c)
    request ← reads (λ s. s.connection.request)
    dispatch request.method request.target

  -- async_wait on the deadline timer
  check_deadline : HttpConnection → HttpConnection
  check_deadline c = record c { is_waiting = true }

  close : HttpConnection → HttpConnection
  close c = record c { is_open = false }

  -- The handler of async_read: `ec` says whether the read failed. The exception is only printed.
  pub on_read : Bool → Exec Session (Unit {0})
  unfolding handle_req check_deadline close
  on_read ec =
      try_catch (if ec then on_connection close else (do handle_req; on_connection check_deadline))
        (λ e. pure tt)

  -- The handler of async_write, with the error codes of the write and of the shutdown. The last
  -- step, deadline_.cancel(), lets a waiting handler run with `operation_aborted`.
  pub on_write : Bool → Bool → HttpConnection → HttpConnection
  unfolding close
  on_write ec shutdown_ec c =
      if ec
      then c
      else if shutdown_ec
      then c
      else if c.is_waiting
      then close (record c { send_is_shut = true; is_waiting = false })
      else record c { send_is_shut = true }

  -- The handler of the timer closes the socket, whatever its error code is.
  pub on_deadline : HttpConnection → HttpConnection
  unfolding close
  on_deadline c = if c.is_waiting then close (record c { is_waiting = false }) else c
