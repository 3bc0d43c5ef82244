-- ===== src/Flow/Network/Register.antt =====
-- The post of slotConfirmReg on its way to the gate server and back.
use text.Mathlib.TextLemmas.{nil-append}
use qt_chatting.Prelude.{String, false, Option, some, List, ◌∷◌, map, ◌≡◌, refl, ap, ◌∙◌, returned}
use qt_chatting.Client.App.{App, reply_arrives}
use qt_chatting.Client.App.Told.{reply_arrives-register}
use qt_chatting.Client.Http.{Awaited, of_post, post_http_req}
use qt_chatting.Client.Qt.{Qt}
use qt_chatting.Client.Register.{RegisterWidget, slot_confirm_reg}
use qt_chatting.Client.Register.Correct.{Complete, register_post}
use qt_chatting.Flow.Network.{Network, sent, blank}
use qt_chatting.Flow.Window.{Agrees, fields, told, slot_confirm_reg-told}
use qt_chatting.Gate.Connection.{Request, Response, on_read}
use qt_chatting.Gate.Connection.Answers.{received, responded, json_response, on_read-answered}
use qt_chatting.Gate.Logic.{Handle, find, post_handles, answer_user_register, is_code, redis_key}
use qt_chatting.Gate.Logic.Register.{HasRows, register_code, registered, with_error, new_row}
use qt_chatting.Gate.Outside.{Outside, Gate}
use qt_chatting.Sql.Laws
use qt_chatting.Sql.Laws.{User, has_email}
use qt_chatting.Sql.Mgr.Correct.{Hashes}

found :
    (path : String) → path ≡ "/user_register" → find path post_handles ≡ some Handle.user_register
unfolding find post_handles
found path e = rw e refl

module _ (prefix : String) (n : Network prefix) (q : Qt) (o : Outside) (l : Laws.Working o.mysql)
    (b : Hashes o.mysql o.bcrypt l) (w : RegisterWidget)
    (a : Agrees q o.json (register_post prefix w).json) where
  open o use {json, redis}

  -- What HttpMgr makes of the post.
  abbrev pub awaited : Awaited
  awaited = of_post q (register_post prefix w)

  abbrev pub request : Request
  request = sent n awaited.request

  module _ (rows : List User) (g : Gate o) (held : Option String) where
    -- The response, to a code that is right or not and an email that is taken or not.
    abbrev pub response : Response
    response = json_response o g request.target 11 request.body blank (
        with_error o l b (register_code o l b (is_code w.code held) (has_email l.same w.mail rows)))

    abbrev pub Served : Type 0
    Served =
        let matches = is_code w.code held in
        let taken = has_email l.same w.mail rows in
        (v : o.World) × (h : Gate o) × (on_read o false (received o g request blank)
          ≡ (returned tt, responded o h request response))
        × HasRows o l b
            (registered o l b matches taken
              (new_row o l b a.body (fields q prefix o l b w a) rows v) rows)
            h
        × ((app : App)
            → reply_arrives q prefix awaited false response.body app
              ≡ some
                  (record app { register_windows = map (told matches taken) app.register_windows }))

    -- Where the empty text has length zero, jsoncpp reads the fields that QJsonDocument writes and
    -- QJsonDocument the error code that jsoncpp writes, over a network that brings the path behind
    -- the server's address, a database that obeys SQL, a pool with current_conn_ below max_conn_, a
    -- BCrypt that returns a hash and a Redis that answers, the last two without touching the table:
    -- slotConfirmReg on a complete form posts its fields for the module of the registration
    -- windows; the gate server that reads what HttpMgr makes of this post adds the row of the form
    -- to the table where the code is the one that Redis holds and no row has the email, and else
    -- leaves the table as it is; it writes one response, and when that reaches the client, every
    -- registration window that is open says that the user is registered, that the email is taken,
    -- or that the code is wrong, just as it is.
    pub slot_confirm_reg-Served :
        (v : o.World)
        → q.length "" ≡ 0
        → Complete q w
        → HasRows o l b rows g
        → redis.get (redis_key "RegisterCode:" w.mail) g.world ≡ (returned held, v)
        → l.rows v ≡ l.rows g.world
        → ((slot_confirm_reg q prefix w).posted ≡ register_post prefix w ∷ w.posted) × Served
    unfolding post_http_req
    slot_confirm_reg-Served v empty complete h asked same =
        let (posted, parsed, (u, (g', out, after)), shown) =
          slot_confirm_reg-told q prefix o l b w a rows g held v empty complete h asked same in
        let matches = is_code w.code held in
        let taken = has_email l.same w.mail rows in
        (
          posted,
          (
            u,
            g',
            on_read-answered o g request.target 11 request.body blank Handle.user_register
                (answer_user_register o) (with_error o l b (register_code o l b matches taken)) g'
                (found request.target (n.path_lem "/user_register")) refl
                (ap (λ (v : Option json.Value). answer_user_register o v g) parsed ∙ out),
            after,
            λ app.
                reply_arrives-register q prefix awaited response.body app (told matches taken) refl
                  (λ later.
                    rw
                      (nil-append (
                        json.to_styled_string
                          (with_error o l b (register_code o l b matches taken))))
                      (shown later)),
          ),
        )
