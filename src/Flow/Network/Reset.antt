-- ===== src/Flow/Network/Reset.antt =====
-- The post of slotConfirm of the reset window on its way to the gate server and back.
use text.Mathlib.TextLemmas.{nil-append}
use qt_chatting.Prelude.{String, false, Option, some, List, ◌∷◌, map, ◌≡◌, refl, ap, ◌∙◌, returned}
use qt_chatting.Client.App.{App, reply_arrives}
use qt_chatting.Client.App.Told.{reply_arrives-reset}
use qt_chatting.Client.Http.{Awaited, of_post, post_http_req}
use qt_chatting.Client.Qt.{Qt}
use qt_chatting.Client.Reset.{ResetWidget, slot_confirm}
use qt_chatting.Client.Reset.Correct.{Complete, reset_post}
use qt_chatting.Flow.Network.{Network, sent, blank}
use qt_chatting.Flow.Window.{Agrees}
use qt_chatting.Flow.Reset.{reset_fields, reset_told, slot_confirm-told}
use qt_chatting.Gate.Connection.{Request, Response, on_read}
use qt_chatting.Gate.Connection.Answers.{received, responded, json_response, on_read-answered}
use qt_chatting.Gate.Logic.{Handle, find, post_handles, answer_reset_passwd, is_code}
use qt_chatting.Gate.Logic.Register.{HasRows, with_error}
use qt_chatting.Gate.Logic.Reset.{Stored, reset_code, reset_rows}
use qt_chatting.Gate.Outside.{Outside, Gate}
use qt_chatting.Sql.Laws
use qt_chatting.Sql.Laws.{User, has_email}
use qt_chatting.Sql.Mgr.Correct.{Hashes}

found : (path : String) → path ≡ "/reset_passwd" → find path post_handles ≡ some Handle.reset_passwd
unfolding find post_handles
found path e = rw e refl

module _ (prefix : String) (n : Network prefix) (q : Qt) (o : Outside) (l : Laws.Working o.mysql)
    (b : Hashes o.mysql o.bcrypt l) (w : ResetWidget)
    (a : Agrees q o.json (reset_post prefix w).json) where
  open o use {json}

  -- What HttpMgr makes of the post.
  abbrev pub awaited : Awaited
  awaited = of_post q (reset_post prefix w)

  abbrev pub request : Request
  request = sent n awaited.request

  module _ (rows : List User) (g : Gate o) (held : Option String) where
    -- The response, to a code that is right or not and an email that is taken or not.
    abbrev pub response : Response
    response =
        json_response o g request.target 11 request.body blank (
          with_error o l b (reset_code o l b (has_email l.same w.email rows) (is_code w.code held)))

    abbrev pub Served : Type 0
    Served =
        let matches = is_code w.code held in
        let known = has_email l.same w.email rows in
        (v : o.World) × (h : Gate o) × (on_read o false (received o g request blank)
          ≡ (returned tt, responded o h request response))
        × HasRows o l b (reset_rows o l b known matches w.email (b.hash w.pwd v) rows) h
        × ((app : App)
            → reply_arrives q prefix awaited false response.body app
              ≡ some
                  (record app { reset_windows = map (reset_told known matches) app.reset_windows }))

    -- Where jsoncpp reads the fields that QJsonDocument writes and QJsonDocument the error code
    -- that jsoncpp writes, over a network that brings the path behind the server's address, a
    -- database that obeys SQL, a pool with current_conn_ below max_conn_, a BCrypt that returns a
    -- hash and a Redis that holds a code or none for the email, the last two without touching the
    -- table: slotConfirm on a complete form posts its fields for the module of the reset windows;
    -- the gate server that reads what HttpMgr makes of this post leaves the table as it is where no
    -- row has the email or the code is not the one that Redis holds, and else sets the hash of the
    -- rows whose email is the new hash to the email; it writes one response, and when that reaches
    -- the client, every reset window that is open says that there is no such user, that the code is
    -- wrong, or that the password was reset, just as it was decided.
    pub slot_confirm-Served :
        Complete q w
        → HasRows o l b rows g
        → Stored o l b a.body (reset_fields q prefix o l b w a) rows g held
        → ((slot_confirm q prefix w).posted ≡ reset_post prefix w ∷ w.posted) × Served
    unfolding post_http_req
    slot_confirm-Served complete h st =
        let (posted, parsed, (u, (g', out, after)), shown) =
          slot_confirm-told q prefix o l b w a rows g held complete h st in
        let matches = is_code w.code held in
        let known = has_email l.same w.email rows in
        (
          posted,
          (
            u,
            g',
            on_read-answered o g request.target 11 request.body blank Handle.reset_passwd
                (answer_reset_passwd o) (with_error o l b (reset_code o l b known matches)) g'
                (found request.target (n.path_lem "/reset_passwd")) refl
                (ap (λ (v : Option json.Value). answer_reset_passwd o v g) parsed ∙ out),
            after,
            λ app.
                reply_arrives-reset q prefix awaited response.body app (reset_told known matches)
                  refl
                  (λ later.
                    rw
                      (nil-append
                        (json.to_styled_string (with_error o l b (reset_code o l b known matches))))
                      (shown later)),
          ),
        )
