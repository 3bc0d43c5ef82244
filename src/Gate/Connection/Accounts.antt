-- ===== src/Gate/Connection/Accounts.antt =====
-- The gate server as a service of accounts: what its connections write, one after the other, for
-- posts to /user_register and /reset_passwd.
use qt_chatting.Prelude.{
  String, false, Option, some, List, [], ◌∷◌, map, ◌≡◌, refl, ap, ◌∙◌, returned,
}
use qt_chatting.Gate.Connection.{Request, Response, post_verb, on_read}
use qt_chatting.Gate.Connection.Answers.{received, responded, json_response, on_read-answered}
use qt_chatting.Gate.Logic.Accounts.{
  Ask, register, reset, answer, decide_all, Holding, answer-Answered,
}
use qt_chatting.Gate.Logic.Register.{HasRows, with_error}
use qt_chatting.Gate.Logic.{Handle, find, post_handles, answer_user_register, answer_reset_passwd}
use qt_chatting.Gate.Outside.{Outside, Reply, Gate}
use qt_chatting.Sql.Laws
use qt_chatting.Sql.Laws.{User}
use qt_chatting.Sql.Laws.Accounts.{account}
use qt_chatting.Sql.Mgr.Correct.{Hashes}

module _ (o : Outside) where
  open o use {json}

  abbrev pub src_of : Ask o → json.Value
  src_of (register src f) = src
  src_of (reset src f) = src

  abbrev pub path_of : Ask o → String
  path_of (register src f) = "/user_register"
  path_of (reset src f) = "/reset_passwd"

  -- A post whose body is read as the request.
  pub record Post : Type 0 where
    pub ask : Ask o
    pub text : String
    pub parsed : json.parse text ≡ some (src_of ask)

  abbrev pub request_of : Post → Request
  request_of p = record { method = post_verb; target = path_of p.ask; version = 11; body = p.text }

  -- The responses that a connection writes when its request has been read.
  pub exchange : Response → Request → Gate o → List Response × Gate o
  exchange empty request g =
      let (r, s) = on_read o false (received o g request empty) in (s.connection.written, s.gate)

  pub exchange_all : Response → List Request → Gate o → List (List Response) × Gate o
  exchange_all empty [] g = ([], g)
  exchange_all empty (r ∷ rest) g =
      let (written, h) = exchange empty r g in
      let (more, i) = exchange_all empty rest h in (written ∷ more, i)

  abbrev pub reply_with : Response → Gate o → Reply json.Value → Response
  reply_with empty g reply = json_response o g "" 11 "" empty reply

  read-exchange :
      (empty r : Response) (request : Request) (g h : Gate o)
      → on_read o false (received o g request empty) ≡ (returned tt, responded o h request r)
      → exchange empty request g ≡ (r ∷ [], h)
  unfolding exchange
  read-exchange empty r request g h e = ap (λ t. (t.1.connection.written, t.1.gate)) e

  answer-exchange :
      (a : Ask o) (text : String) (empty : Response) (reply : Reply json.Value) (g h : Gate o)
      → json.parse text ≡ some (src_of a)
      → answer o a g ≡ (returned reply, h)
      → exchange empty
          (record { method = post_verb; target = path_of a; version = 11; body = text })
          g
        ≡ (reply_with empty g reply ∷ [], h)
  unfolding answer find post_handles
  answer-exchange (register src f) text empty reply g h p e = read-exchange empty _ _ g h (
      on_read-answered o g "/user_register" 11 text empty Handle.user_register
        (answer_user_register o) reply h refl refl
        (ap (λ (v : Option json.Value). answer_user_register o v g) p ∙ e))
  answer-exchange (reset src f) text empty reply g h p e = read-exchange empty _ _ g h (
      on_read-answered o g "/reset_passwd" 11 text empty Handle.reset_passwd (answer_reset_passwd o)
        reply h refl refl (ap (λ (v : Option json.Value). answer_reset_passwd o v g) p ∙ e))

module _ (o : Outside) (l : Laws.Working o.mysql) (b : Hashes o.mysql o.bcrypt l)
    (held : String → Option String) (empty : Response) where
  abbrev pub Serves : List (Post o) → List User → Gate o → Type 0
  Serves posts rows g =
      let (codes, known) = decide_all o l.same held (map (λ p. p.ask) posts) (map account rows) in
      (h : Gate o) × (rows' : List User) × (exchange_all o empty (map (request_of o) posts) g
        ≡ (map (λ c. reply_with o empty g (with_error o l b c) ∷ []) codes, h))
      × HasRows o l b rows' h
      × (map account rows' ≡ known)

  -- Over a database that obeys SQL, a pool with current_conn_ below max_conn_, a BCrypt that
  -- returns a hash and a Redis that holds the same codes throughout, the last two without touching
  -- the table: posts to /user_register and /reset_passwd whose bodies are read as objects with
  -- texts in their fields, each on its own connection and one after the other, are each answered by
  -- one response, and these hold the replies that a list of accounts decides on, an account being a
  -- name and an email without a password; the names and emails of the table end as that list does.
  -- There a registration with the right code and an email that is not taken is SUCCESS and adds an
  -- account, and every other request leaves the list as it is.
  pub exchange_all-Serves :
      (posts : List (Post o)) (rows : List User) (g : Gate o)
      → Holding o l b held
      → HasRows o l b rows g
      → Serves posts rows g
  unfolding exchange_all decide_all
  exchange_all-Serves [] rows g st h = (g, rows, refl, h, refl)
  exchange_all-Serves (p ∷ posts) rows g st h =
      let (t, us, out, h', e) = answer-Answered o l b held p.ask rows g st h in
      let (u, vs, outs, h'', es) = exchange_all-Serves posts us t st h' in
      (
        u,
        vs,
        rw (answer-exchange o p.ask p.text empty _ g t p.parsed out, outs, e) refl,
        h'',
        rw e at es,
      )
