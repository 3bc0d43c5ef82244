-- ===== src/Flow/Reset.antt =====
-- The reset window and the gate server together: what the user is told, and what has happened to the
-- table of users.
use qt_chatting.Prelude.{String, Bool, true, false, Option, some, List, ◌∷◌, ◌≡◌, refl, inl, inr}
use qt_chatting.Client.Qt.{Qt, id_reset_pwd, success, show_tip}
use qt_chatting.Client.Reset.{
  ResetWidget, slot_confirm, slot_reset_finish, handle_document, call_handler, on_reset,
}
use qt_chatting.Client.Reset.Correct.{Complete, reset_post, slot_confirm-Submits}
use qt_chatting.Flow.Window.{Agrees}
use qt_chatting.Gate.Logic.{answer_reset_passwd, is_code}
use qt_chatting.Gate.Logic.Register.{HasRows, with_error}
use qt_chatting.Gate.Logic.Reset
use qt_chatting.Gate.Logic.Reset.{Resets, Stored, answer_reset_passwd-Runs, reset_code}
use qt_chatting.Gate.Outside.{Outside, Gate}
use qt_chatting.Sql.Laws
use qt_chatting.Sql.Laws.{User, has_email}
use qt_chatting.Sql.Mgr.Correct.{Hashes}

-- The tip, for an email that has a row or not and a code that is right or not.
abbrev pub reset_told : Bool → Bool → ResetWidget → ResetWidget
reset_told false matches w = record w { panel = show_tip "用户不存在" false w.panel }
reset_told true false w = record w { panel = show_tip "验证码错误" false w.panel }
reset_told true true w = record w { panel = show_tip "重置密码成功" true w.panel }

module _ (q : Qt) (prefix : String) (o : Outside) (l : Laws.Working o.mysql)
    (b : Hashes o.mysql o.bcrypt l) (w : ResetWidget)
    (a : Agrees q o.json (reset_post prefix w).json) where
  open o use {json}

  pub reset_shown :
      (known matches : Bool) (later : ResetWidget)
      → slot_reset_finish q prefix id_reset_pwd
          (json.to_styled_string (with_error o l b (reset_code o l b known matches)))
          success
          later
        ≡ some (reset_told known matches later)
  unfolding slot_reset_finish handle_document call_handler on_reset
  reset_shown false matches later =
      let (answer, read, n) =
        a.reply_lem (with_error o l b (reset_code o l b false matches))
          (reset_code o l b false matches) refl in
      rw (read, n) refl
  reset_shown true false later =
      let (answer, read, n) =
        a.reply_lem (with_error o l b (reset_code o l b true false)) (reset_code o l b true false)
          refl in
      rw (read, n) refl
  reset_shown true true later =
      let (answer, read, n) =
        a.reply_lem (with_error o l b (reset_code o l b true true)) (reset_code o l b true true)
          refl in
      rw (read, n) refl

  -- The fields of the request that the gate server reads from the post of the window.
  abbrev pub reset_fields : Reset.Fields o a.body
  reset_fields = record {
    email = w.email;
    code = w.code;
    passwd = w.pwd;
    email_is = a.members.0;
    code_is = a.members.1.0;
    passwd_is = a.members.1.1.0;
  }

  -- Where jsoncpp reads the fields that QJsonDocument writes and QJsonDocument the error code that
  -- jsoncpp writes, over a database that obeys SQL, a pool with current_conn_ below max_conn_, a
  -- BCrypt that returns a hash and a Redis that holds a code or none for the email, the last two
  -- without touching the table: slotConfirm on a complete form posts a body that the server reads
  -- as an object with the fields of the form; the handler leaves the table as it is where no row
  -- has the email or the code is not the one that Redis holds, and else sets the hash of the rows
  -- whose email is the new hash to the email; and its reply makes the window say that there is no
  -- such user, that the code is wrong, or that the password was reset, just as it decided.
  pub slot_confirm-told :
      (rows : List User) (g : Gate o) (held : Option String)
      → Complete q w
      → HasRows o l b rows g
      → Stored o l b a.body reset_fields rows g held
      → let known = has_email l.same w.email rows in
        let matches = is_code w.code held in
        let post = reset_post prefix w in
        ((slot_confirm q prefix w).posted ≡ post ∷ w.posted)
        × (json.parse (q.to_json post.json) ≡ some a.body)
        × Resets o l b a.body reset_fields rows g held known matches
            (answer_reset_passwd o (some a.body))
        × ((later : ResetWidget)
            → slot_reset_finish q prefix id_reset_pwd
                (json.to_styled_string (with_error o l b (reset_code o l b known matches)))
                success
                later
              ≡ some (reset_told known matches later))
  slot_confirm-told rows g held complete h st = (
    elim (slot_confirm-Submits q prefix w) [ inl s ↦ s.1 | inr s ↦ elim (s.0 complete) [ ] ],
    a.parsed,
    answer_reset_passwd-Runs o l b a.body reset_fields rows g held h st,
    reset_shown (has_email l.same w.email rows) (is_code w.code held),
  )
