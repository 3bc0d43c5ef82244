-- ===== src/Flow/Network.antt =====
-- A request from the window that posts it, through HttpMgr, the network and the gate server, to the
-- windows that the reply reaches. The network is a parameter.
pub mod Register
pub mod Reset
use Prim.Native.String
use qt_chatting.Prelude.{String, true, none, ◌≡◌}
use qt_chatting.Client.Http.{NetworkRequest}
use qt_chatting.Gate.Connection.{Request, Response, post_verb}

-- The part of a URL behind the address of the server.
pub record Network (prefix : String) : Type 0 where
  pub path_of : String → String
  pub path_lem : (path : String) → path_of (String.◌++◌ prefix path) ≡ path

abbrev pub sent : {prefix : String} → Network prefix → NetworkRequest → Request
sent n r = record { method = post_verb; target = n.path_of r.url; version = 11; body = r.body }

-- The response before the request is handled.
abbrev pub blank : Response
blank = record {
  version = 11;
  keep_alive = true;
  result = 200;
  content_type = none;
  server = none;
  body = "";
  content_length = none;
}
