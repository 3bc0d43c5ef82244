-- ===== src/Gate/Connection/Answers.antt =====
-- What HttpConnection.cpp answers to a request that has been read.
use Prim.Native.String
use mathlib.Core.Option.{some-injective}
use Prim.Native.String.{len}
use qt_chatting.Prelude.{
  ℕ, String, true, false, Option, none, some, [], ◌∷◌, ◌≡◌, refl, ap, returned, threw, Exec,
}
use qt_chatting.Gate.Outside.{Outside, Reply, Gate}
use qt_chatting.Gate.Logic.{
  Handle, find, get_handles, post_handles, answer_get_varifycode, answer_get_reset_varifycode,
  answer_user_register, answer_reset_passwd,
}
use qt_chatting.Gate.Connection.{
  Verb, get_verb, post_verb, other_verb, Request, Response, Session, on_read, run_handle,
  json_handle,
}

module _ (o : Outside) where
  open o use {json}

  -- A connection whose request has just been read.
  abbrev pub received : Gate o → Request → Response → Session o
  received g request response = record {
    gate = g;
    connection = record {
      request = request;
      response = response;
      written = [];
      is_waiting = false;
      is_open = true;
      send_is_shut = false;
    };
  }

  -- The connection when the response `r` has been written, and the timer waits.
  abbrev pub responded : Gate o → Request → Response → Session o
  responded g request r = record {
    gate = g;
    connection = record {
      request = request;
      response = r;
      written = r ∷ [];
      is_waiting = true;
      is_open = true;
      send_is_shut = false;
    };
  }

  -- How the handlers that speak JSON compute their reply from the parsed body.
  abbrev pub answer_of : Handle → Option (Option json.Value → Exec (Gate o) (Reply json.Value))
  answer_of Handle.get_test = none
  answer_of Handle.get_varifycode = some (answer_get_varifycode o)
  answer_of Handle.get_reset_varifycode = some (answer_get_reset_varifycode o)
  answer_of Handle.user_register = some (answer_user_register o)
  answer_of Handle.reset_passwd = some (answer_reset_passwd o)

  module _ (g : Gate o) (target : String) (version : ℕ) (body : String) (response : Response) where
    abbrev pub request_with : Verb → Request
    request_with verb = record { method = verb; target = target; version = version; body = body }

    -- 200, with the reply as its JSON body.
    abbrev pub json_response : Reply json.Value → Response
    json_response reply =
        let text = String.◌++◌ response.body (json.to_styled_string reply) in
        record {
          version = version;
          keep_alive = false;
          result = 200;
          content_type = some "text/json";
          server = some "GateServer";
          body = text;
          content_length = some (len text);
        }

    abbrev pub not_found_response : Response
    not_found_response =
        let text = String.◌++◌ response.body "url not found\r\n" in
        record {
          version = version;
          keep_alive = false;
          result = 404;
          content_type = some "text/plain";
          server = response.server;
          body = text;
          content_length = some (len text);
        }

    run_handle-json :
        (h : Handle) (answer : Option json.Value → Exec (Gate o) (Reply json.Value)) (s : Session o)
        → answer_of h ≡ some answer
        → run_handle o h s ≡ json_handle o answer s
    unfolding run_handle
    run_handle-json Handle.get_test answer s e = cc
    run_handle-json Handle.get_varifycode answer s e =
        ap (λ a. json_handle o a s) (some-injective _ answer e)
    run_handle-json Handle.get_reset_varifycode answer s e =
        ap (λ a. json_handle o a s) (some-injective _ answer e)
    run_handle-json Handle.user_register answer s e =
        ap (λ a. json_handle o a s) (some-injective _ answer e)
    run_handle-json Handle.reset_passwd answer s e =
        ap (λ a. json_handle o a s) (some-injective _ answer e)

    -- Where a POST goes to a path that is registered for a handler that speaks JSON, and the
    -- handler returns a reply, one response is written: with status 200, content type text/json,
    -- the reply's text behind what the body held, and the length of that body; the timer then waits
    -- and the socket is open.
    pub on_read-answered :
        (h : Handle) (answer : Option json.Value → Exec (Gate o) (Reply json.Value))
        (reply : Reply json.Value) (g' : Gate o)
        → find target post_handles ≡ some h
        → answer_of h ≡ some answer
        → answer (json.parse body) g ≡ (returned reply, g')
        → on_read o false (received g (request_with post_verb) response)
          ≡ (returned tt, responded g' (request_with post_verb) (json_response reply))
    unfolding on_read json_handle
    on_read-answered h answer reply g' f a e = rw (f, run_handle-json h answer _ a, e)

    -- A POST or a GET to a path that no handler is registered for is answered once, with status 404
    -- and the text "url not found" behind what the body held; the state of the server stays as it
    -- is, and the timer waits.
    pub on_read-not_found :
        find target post_handles ≡ none
        → find target get_handles ≡ none
        → (on_read o false (received g (request_with post_verb) response)
            ≡ (returned tt, responded g (request_with post_verb) not_found_response))
          × (on_read o false (received g (request_with get_verb) response)
              ≡ (returned tt, responded g (request_with get_verb) not_found_response))
    unfolding on_read
    on_read-not_found f e = (rw f, rw e)

    -- Where a POST goes to a handler that speaks JSON and the handler throws, nothing is written,
    -- the timer does not wait, and the handler of the read leaves the socket open.
    pub on_read-thrown :
        (h : Handle) (answer : Option json.Value → Exec (Gate o) (Reply json.Value)) (e : String)
        (g' : Gate o)
        → find target post_handles ≡ some h
        → answer_of h ≡ some answer
        → answer (json.parse body) g ≡ (threw e, g')
        → let c = (on_read o false (received g (request_with post_verb) response)).1.connection in
          (c.written ≡ []) × (c.is_waiting ≡ false) × (c.is_open ≡ true)
    unfolding on_read json_handle
    on_read-thrown h answer x g' f a e = rw (f, run_handle-json h answer _ a, e) (refl, refl, refl)

    -- Any other method gets no response; the timer waits.
    pub on_read-other : on_read o false (received g (request_with other_verb) response) ≡ (
      returned tt,
      record {
        gate = g;
        connection = record {
          request = request_with other_verb;
          response = record response { version = version; keep_alive = false };
          written = [];
          is_waiting = true;
          is_open = true;
          send_is_shut = false;
        };
      },
    )
    unfolding on_read
    on_read-other = refl
