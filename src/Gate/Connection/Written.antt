-- ===== src/Gate/Connection/Written.antt =====
-- HttpConnection.cpp: a request that was read adds one response at most to what is written.
use qt_chatting.Prelude.{
  ◌≡◌, refl, ◌⊎◌, inl, inr, Bool, true, false, Option, none, some, List, ◌∷◌, String, Exec, Outcome,
  returned, threw, blocked, undefined, Leaves, Leaves-bind, pure, ◌>>=◌,
}
use qt_chatting.Gate.Outside.{Outside, Reply, Gate}
use qt_chatting.Gate.Logic.{
  Handle, find, get_handles, post_handles, answer_get_varifycode, answer_get_reset_varifycode,
  answer_user_register, answer_reset_passwd,
}
use qt_chatting.Gate.Connection.{
  Verb, get_verb, post_verb, other_verb, Response, Session, on_gate, on_connection, on_response,
  append_body, json_handle, run_handle, run_found, handle_get, handle_post, finish, dispatch,
  handle_req, on_read, write_response, not_found, found,
}

-- At most one response is added.
abbrev pub AddsOne : List Response → List Response → Type 0
AddsOne before after = (after ≡ before) ⊎ ((r : Response) × (after ≡ r ∷ before))

module _ (o : Outside) where
  open o use {json}

  abbrev written_of : Session o → List Response
  written_of s = s.written

  json_handle-written :
      (answer : Option json.Value → Exec (Gate o) (Reply json.Value))
      → Leaves written_of (json_handle o answer)
  unfolding json_handle
  json_handle-written answer s =
      Leaves-bind {B = Unit {0}} written_of (on_gate o (answer (json.parse s.request.body)))
        (λ reply. on_connection o (on_response o (append_body o (json.to_styled_string reply))))
        (λ t. refl) (λ reply t. refl)
        (on_connection o (on_response o (λ r. record r { content_type = some "text/json" })) s).1

  run_handle-written : (h : Handle) → Leaves written_of (run_handle o h)
  unfolding run_handle
  run_handle-written Handle.get_test = λ s. refl
  run_handle-written Handle.get_varifycode = json_handle-written (answer_get_varifycode o)
  run_handle-written Handle.get_reset_varifycode =
      json_handle-written (answer_get_reset_varifycode o)
  run_handle-written Handle.user_register = json_handle-written (answer_user_register o)
  run_handle-written Handle.reset_passwd = json_handle-written (answer_reset_passwd o)

  run_found-written : (h : Option Handle) → Leaves written_of (run_found o h)
  unfolding run_found
  run_found-written none = λ s. refl
  run_found-written (some h) =
      Leaves-bind {B = Bool} written_of (run_handle o h) (λ _. pure true) (run_handle-written h)
        (λ _ s. refl)

  finish-written :
      (name : String) (done : Bool) (s : Session o)
      → AddsOne (written_of s) (written_of (finish o name done s).1)
  unfolding finish not_found found write_response
  finish-written name true s = inr (_, refl)
  finish-written name false s = inr (_, refl)

  finished-written :
      (name : String) (h : Option Handle) (s : Session o)
      → AddsOne (written_of s) (written_of ((run_found o h >>= finish o name) s).1)
  finished-written name h s =
      go (run_found o h s).0 (run_found o h s).1 refl (run_found-written h s)
    where
      go :
          (r : Outcome Bool) (t : Session o)
          → run_found o h s ≡ (r, t)
          → written_of t ≡ written_of s
          → AddsOne (written_of s) (written_of ((run_found o h >>= finish o name) s).1)
      go (returned done) t e k = rw (e, ← k) (finish-written name done t)
      go (threw x) t e k = rw e (inl k)
      go blocked t e k = rw e (inl k)
      go undefined t e k = rw e (inl k)

  dispatch-written :
      (verb : Verb) (target : String) (s : Session o)
      → AddsOne (written_of s) (written_of (dispatch o verb target s).1)
  unfolding dispatch handle_get handle_post
  dispatch-written get_verb target s = finished-written "Gate server" (find target get_handles) s
  dispatch-written post_verb target s = finished-written "GateServer" (find target post_handles) s
  dispatch-written other_verb target s = inl refl

  handle_req-written : (s : Session o) → AddsOne (written_of s) (written_of (handle_req o s).1)
  unfolding handle_req
  handle_req-written s = dispatch-written s.request.method s.request.target _

  pub on_read-written :
      (ec : Bool) (s : Session o) → AddsOne (written_of s) (written_of (on_read o ec s).1)
  unfolding on_read
  on_read-written true s = inl refl
  on_read-written false s = go (handle_req o s).0 (handle_req o s).1 refl (handle_req-written s)
    where
      go :
          (r : Outcome (Unit {0})) (t : Session o)
          → handle_req o s ≡ (r, t)
          → AddsOne (written_of s) (written_of t)
          → AddsOne (written_of s) (written_of (on_read o false s).1)
      go (returned done) t e k = rw e k
      go (threw x) t e k = rw e k
      go blocked t e k = rw e k
      go undefined t e k = rw e k
