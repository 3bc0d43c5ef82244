-- ===== src/Gate/Connection/Users.antt =====
-- The table of users over any sequence of requests to HttpConnection.cpp, one after the other.
use qt_chatting.Prelude.{
  String, Bool, true, false, Option, none, some, List, [], ◌∷◌, ◌≡◌, refl, inl, Exec, pure, ◌>>=◌,
  if◌then◌else◌, if-case,
}
use qt_chatting.Sql.Laws
use qt_chatting.Sql.Laws.{User, has_email}
use qt_chatting.Sql.Laws.Unique.{IsUnique, Evolves-IsUnique, Evolves-has_email}
use qt_chatting.Sql.Laws.Serving.{Spares, Serves, Serves-then, Serves-try}
use qt_chatting.Gate.Outside.{Outside, Reply, Gate}
use qt_chatting.Gate.Logic.{
  Handle, find, get_handles, post_handles, answer_get_varifycode, answer_get_reset_varifycode,
  answer_user_register, answer_reset_passwd,
}
use qt_chatting.Gate.Logic.Users
use qt_chatting.Gate.Logic.Users.{IsApart, Serving, answers-Serve}
use qt_chatting.Gate.Connection.{
  Verb, get_verb, post_verb, other_verb, Request, Response, Session, on_gate, on_connection,
  on_response, append_body, json_handle, run_handle, run_found, handle_get, handle_post, finish,
  dispatch, handle_req, check_deadline, close, on_read,
}
use qt_chatting.Gate.Connection.Answers.{received}

module _ (o : Outside) (l : Laws.Working o.mysql) (k : IsApart o l) where
  open o use {json}

  abbrev Held : List User → Session o → Type 0
  Held rows s = Users.Users o l k rows s.gate

  abbrev Any : List User → Type 0
  Any rows = Unit {0}

  abbrev SessionSparing {ℓ} : {A : Type ℓ} → Exec (Session o) A → Type 0
  SessionSparing m = Spares l.same Held m

  abbrev SessionServing {ℓ} : {A : Type ℓ} → Exec (Session o) A → Type 0
  SessionServing m = Serves l.same Held Any m

  json_handle-Serves :
      (answer : Option json.Value → Exec (Gate o) (Reply json.Value))
      → ((src : Option json.Value) → Serving o l k (answer src))
      → SessionServing (json_handle o answer)
  unfolding json_handle
  json_handle-Serves answer h s rows p u =
      Serves-then l.same Held {B = Unit {0}} Any (on_gate o (answer (json.parse s.request.body)))
        (λ reply. on_connection o (on_response o (append_body o (json.to_styled_string reply))))
        (λ t rows p u. h (json.parse s.request.body) t.gate rows p u) (λ reply t rows u. u)
        (on_connection o (on_response o (λ r. record r { content_type = some "text/json" })) s).1
        rows p u

  run_handle-Serves : (h : Handle) → SessionServing (run_handle o h)
  unfolding run_handle
  run_handle-Serves Handle.get_test = λ s rows p u. (rows, u, inl refl)
  run_handle-Serves Handle.get_varifycode =
      json_handle-Serves (answer_get_varifycode o) (λ src. (answers-Serve o l k src).0)
  run_handle-Serves Handle.get_reset_varifycode =
      json_handle-Serves (answer_get_reset_varifycode o) (λ src. (answers-Serve o l k src).1)
  run_handle-Serves Handle.user_register =
      json_handle-Serves (answer_user_register o) (λ src. (answers-Serve o l k src).2)
  run_handle-Serves Handle.reset_passwd =
      json_handle-Serves (answer_reset_passwd o) (λ src. (answers-Serve o l k src).3)

  run_found-Serves : (h : Option Handle) → SessionServing (run_found o h)
  unfolding run_found
  run_found-Serves none = λ s rows p u. (rows, u, inl refl)
  run_found-Serves (some h) =
      Serves-then l.same Held {B = Bool} Any (run_handle o h) (λ _. pure true) (run_handle-Serves h)
        (λ _ s rows u. u)

  finish-Spares : (name : String) (success : Bool) → SessionSparing (finish o name success)
  unfolding finish
  finish-Spares name success s rows u = u

  dispatch-Serves : (verb : Verb) (target : String) → SessionServing (dispatch o verb target)
  unfolding dispatch handle_get handle_post
  dispatch-Serves get_verb target =
      Serves-then l.same Held {B = Unit {0}} Any (run_found o (find target get_handles))
        (finish o "Gate server") (run_found-Serves (find target get_handles))
        (λ done. finish-Spares "Gate server" done)
  dispatch-Serves post_verb target =
      Serves-then l.same Held {B = Unit {0}} Any (run_found o (find target post_handles))
        (finish o "GateServer") (run_found-Serves (find target post_handles))
        (λ done. finish-Spares "GateServer" done)
  dispatch-Serves other_verb target = λ s rows p u. (rows, u, inl refl)

  handle_req-Serves : SessionServing (handle_req o)
  unfolding handle_req
  handle_req-Serves s rows p u = dispatch-Serves s.request.method s.request.target _ rows p u

  on_read-Serves : (ec : Bool) → SessionServing (on_read o ec)
  unfolding on_read
  on_read-Serves ec =
      Serves-try l.same Held Any
        (if ec
          then on_connection o (close o)
          else (handle_req o >>= λ _. on_connection o (check_deadline o)))
        (λ e. pure tt)
        (if-case SessionServing ec (λ _ s rows p u. (rows, u, inl refl))
          (λ _.
            Serves-then l.same Held {B = Unit {0}} Any (handle_req o)
              (λ _. on_connection o (check_deadline o)) handle_req-Serves (λ _ s rows u. u)))
        (λ e s rows u. u)

  -- Each request comes on a connection of its own, whose response is at first `response`.
  pub serve_all : Response → List Request → Gate o → Gate o
  serve_all response [] g = g
  serve_all response (request ∷ rest) g =
      serve_all response rest (on_read o false (received o g request response)).1.gate

  -- Over a database that obeys SQL and compares emails symmetrically, a pool with current_conn_
  -- below max_conn_, and a BCrypt, a Redis and a gRPC that may fail but do not touch the table:
  -- whatever requests are read one after the other, a table in which no email stands twice stays
  -- so, and every email that had a row keeps one.
  pub serve_all-IsUnique :
      (response : Response) (requests : List Request) (rows : List User) (g : Gate o)
      → ((a b : String) → l.same a b ≡ l.same b a)
      → IsUnique l.same rows
      → Users.Users o l k rows g
      → (rows' : List User) × Users.Users o l k rows' (serve_all response requests g)
        × IsUnique l.same rows'
        × ((e : String) → has_email l.same e rows ≡ true → has_email l.same e rows' ≡ true)
  unfolding serve_all
  serve_all-IsUnique response [] rows g comm once u = (rows, u, once, λ e h. h)
  serve_all-IsUnique response (request ∷ rest) rows g comm once u =
      let (rows', u', ev) = on_read-Serves false (received o g request response) rows tt u in
      let (rows'', u'', once'', kept) =
        serve_all-IsUnique response rest rows' _ comm
          (Evolves-IsUnique l.same comm rows rows' ev once) u' in
      (rows'', u'', once'', λ e h. kept e (Evolves-has_email l.same e rows rows' ev h))
