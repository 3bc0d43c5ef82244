-- ===== src/Flow/Window.antt =====
-- The registration window and the gate server together: what the user is told, and what has happened
-- to the table of users.
use qt_chatting.Prelude.{
  String, Bool, true, false, Option, some, List, [], ◌∷◌, ◌≡◌, refl, returned, inl, inr,
}
use qt_chatting.Client.Qt.{Qt, object, id_reg_user, success, show_tip}
use qt_chatting.Client.Register.{
  RegisterWidget, slot_confirm_reg, slot_reg_finish, handle_document, call_handler, on_registered,
}
use qt_chatting.Client.Register.Correct.{Complete, register_post, slot_confirm_reg-Submits}
use qt_chatting.Gate.Logic.{answer_user_register, is_code, redis_key}
use qt_chatting.Gate.Logic.Register
use qt_chatting.Gate.Logic.Register.{
  HasRows, Registers, answer_user_register-Runs, register_code, with_error,
}
use qt_chatting.Gate.Outside.{Outside, Reply, Gate, JsonCpp}
use qt_chatting.Protocol.{ErrorCodes, code_of}
use qt_chatting.Sql.Laws
use qt_chatting.Sql.Laws.{User, has_email}
use qt_chatting.Sql.Mgr.Correct.{Hashes}

-- The members of an object with these names are these texts.
abbrev pub HasMembers : (json : JsonCpp) → json.Value → List (String × String) → Type 0
HasMembers json v [] = Unit
HasMembers json v ((key, text) ∷ rest) =
    (json.member_string v key ≡ returned text) × HasMembers json v rest

-- jsoncpp reads the fields that QJsonDocument writes, and QJsonDocument the error code that jsoncpp
-- writes.
pub record Agrees (q : Qt) (json : JsonCpp) (fields : List (String × String)) : Type 0 where
  pub body : json.Value
  pub parsed : json.parse (q.to_json fields) ≡ some body
  pub members : HasMembers json body fields
  pub reply_lem :
      (r : Reply json.Value) (c : ErrorCodes)
      → r.error ≡ some (code_of c)
      → (answer : q.Object) × (q.from_json (json.to_styled_string r) ≡ object answer)
        × (q.to_int answer "error" ≡ code_of c)

-- The tip, for a code that is right or not and an email that is taken or not.
abbrev pub told : Bool → Bool → RegisterWidget → RegisterWidget
told false taken w = record w { panel = show_tip "验证码错误" false w.panel }
told true true w = record w { panel = show_tip "邮箱已注册" false w.panel }
told true false w = record w { panel = show_tip "注册成功" true w.panel }

module _ (q : Qt) (prefix : String) (o : Outside) (l : Laws.Working o.mysql)
    (b : Hashes o.mysql o.bcrypt l) (w : RegisterWidget)
    (a : Agrees q o.json (register_post prefix w).json) where
  open o use {json, redis}

  pub reply_shown :
      (matches taken : Bool) (later : RegisterWidget)
      → slot_reg_finish q prefix id_reg_user
          (json.to_styled_string (with_error o l b (register_code o l b matches taken)))
          success
          later
        ≡ some (told matches taken later)
  unfolding slot_reg_finish handle_document call_handler on_registered
  reply_shown false taken later =
      let (answer, read, n) =
        a.reply_lem (with_error o l b (register_code o l b false taken))
          (register_code o l b false taken) refl in
      rw (read, n) refl
  reply_shown true true later =
      let (answer, read, n) =
        a.reply_lem (with_error o l b (register_code o l b true true))
          (register_code o l b true true) refl in
      rw (read, n) refl
  reply_shown true false later =
      let (answer, read, n) =
        a.reply_lem (with_error o l b (register_code o l b true false))
          (register_code o l b true false) refl in
      rw (read, n) refl

  -- The fields of the request that the gate server reads from the post of the window.
  abbrev pub fields : Register.Fields o a.body
  fields = record {
    email = w.mail;
    code = w.code;
    username = w.username;
    passwd = w.password;
    email_is = a.members.1.0;
    code_is = a.members.1.1.1.0;
    username_is = a.members.0;
    passwd_is = a.members.1.1.0;
  }

  -- Where the empty text has length zero, jsoncpp reads the fields that QJsonDocument writes and
  -- QJsonDocument the error code that jsoncpp writes, over a database that obeys SQL, a pool with
  -- current_conn_ below max_conn_, a BCrypt that returns a hash and a Redis that answers, the last
  -- two without touching the table: slotConfirmReg on a complete form posts a body that the server
  -- reads as an object with the fields of the form; the handler adds the row of the form to the
  -- table where the code is the one that Redis holds and no row has the email, and else leaves the
  -- table as it is; and its reply makes the window say that the user is registered, that the email
  -- is taken, or that the code is wrong, just as it is.
  pub slot_confirm_reg-told :
      (rows : List User) (g : Gate o) (held : Option String) (v : o.World)
      → q.length "" ≡ 0
      → Complete q w
      → HasRows o l b rows g
      → redis.get (redis_key "RegisterCode:" w.mail) g.world ≡ (returned held, v)
      → l.rows v ≡ l.rows g.world
      → let matches = is_code w.code held in
        let taken = has_email l.same w.mail rows in
        let post = register_post prefix w in
        ((slot_confirm_reg q prefix w).posted ≡ post ∷ w.posted)
        × (json.parse (q.to_json post.json) ≡ some a.body)
        × Registers o l b a.body fields rows matches taken g (answer_user_register o (some a.body))
        × ((later : RegisterWidget)
            → slot_reg_finish q prefix id_reg_user
                (json.to_styled_string (with_error o l b (register_code o l b matches taken)))
                success
                later
              ≡ some (told matches taken later))
  slot_confirm_reg-told rows g held v empty complete h asked same = (
    elim (slot_confirm_reg-Submits q prefix w empty) [
      | inl s ↦ s.1
      | inr s ↦ elim (s.0 complete) [ ]
    ],
    a.parsed,
    answer_user_register-Runs o l b a.body fields rows g held v h asked same,
    reply_shown (is_code w.code held) (has_email l.same w.mail rows),
  )
