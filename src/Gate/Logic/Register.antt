-- ===== src/Gate/Logic/Register.antt =====
-- The handler of /user_register in LogicSystem.cpp over a working database.
use qt_chatting.Prelude.{
  String, Bool, true, false, Option, none, some, List, [], ◌∷◌, ◌++◌, ◌≡◌, refl, ◌∙◌, returned,
  Exec, Runs,
}
use qt_chatting.Protocol.{code_of, ErrorCodes, success, err_varifycode, err_email_registered}
use qt_chatting.Sql.Pool.Working.{Has}
use qt_chatting.Sql.Laws
use qt_chatting.Sql.Laws.{User, has_email}
use qt_chatting.Sql.Mgr.Correct.{Hashes, email_exists-Runs_mgr, reg_user-Runs_mgr}
use qt_chatting.Gate.Outside.{Outside, Reply, Gate, sql_of, with_sql}
use qt_chatting.Gate.Logic.{
  answer_user_register, register_checked, register_if, register_new, is_code, redis_key,
}

-- What the fields of a request to register are.
pub record Fields (o : Outside) (src : o.json.Value) : Type 0 where
  pub email : String
  pub code : String
  pub username : String
  pub passwd : String
  pub email_is : o.json.member_string src "email" ≡ returned email
  pub code_is : o.json.member_string src "reg_varifycode" ≡ returned code
  pub username_is : o.json.member_string src "username" ≡ returned username
  pub passwd_is : o.json.member_string src "passwd" ≡ returned passwd

module _ (o : Outside) (l : Laws.Working o.mysql) (b : Hashes o.mysql o.bcrypt l) where
  -- The table and the pool of the gate server, as its database layer sees them.
  abbrev pub HasRows : List User → Gate o → Type 0
  HasRows rows g = Has o.mysql l rows (sql_of o g)

  abbrev pub with_error : ErrorCodes → Reply o.json.Value
  with_error e = record { error = some (code_of e); email = none }

  -- The decision: a wrong or missing code, a taken email, or success.
  abbrev pub register_code : Bool → Bool → ErrorCodes
  register_code false taken = err_varifycode
  register_code true true = err_email_registered
  register_code true false = success

  -- The table afterwards; the hash is salted by the world `w`.
  abbrev pub registered : Bool → Bool → User → List User → List User
  registered true false row rows = rows ++ row ∷ []
  registered true true row rows = rows
  registered false taken row rows = rows

  module _ (src : o.json.Value) (f : Fields o src) (rows : List User) where
    abbrev pub new_row : o.World → User
    new_row w = record { name = f.username; email = f.email; pwd_hash = b.hash f.passwd w }

    -- What the handler does once the code has been compared.
    abbrev pub Registers : Bool → Bool → Gate o → Exec (Gate o) (Reply o.json.Value) → Type 0
    Registers matches taken g m =
        (w : o.World) × Runs m g (with_error (register_code matches taken))
          (HasRows (registered matches taken (new_row w) rows))

    register_checked-Runs :
        (matches taken : Bool) (g : Gate o)
        → has_email l.same f.email rows ≡ taken
        → HasRows rows g
        → Registers matches taken g (register_checked o src f.email matches)
    unfolding register_checked register_if register_new
    register_checked-Runs false taken g e h = (g.world, (g, refl, h))
    register_checked-Runs true true g e h =
        let (t, out, h') = email_exists-Runs_mgr o.mysql o.bcrypt l f.email rows (sql_of o g) h in
        (g.world, (with_sql o g t, rw (out, e), h'))
    register_checked-Runs true false g e h =
        let (t, out, h') = email_exists-Runs_mgr o.mysql o.bcrypt l f.email rows (sql_of o g) h in
        let (u, out', h'') =
          reg_user-Runs_mgr o.mysql o.bcrypt l b f.username f.email f.passwd rows t e h' in
        (
          t.world,
          (with_sql o (with_sql o g t) u, rw (out, e, f.username_is, f.passwd_is, out'), h''),
        )

    -- Over a database that obeys SQL, a pool with current_conn_ below max_conn_, a BCrypt that
    -- returns a hash and a Redis that answers, the last two without touching the table, a request
    -- to register whose four fields are texts is answered ERR_VARIFYCODE where its code is not the
    -- one that Redis holds for the email, ERR_EMAIL_REGISTERED where the code is right and a row
    -- has the email, and SUCCESS otherwise. In the last case the table has one more row, with the
    -- name, the email and the hash of the password, and in the others it is unchanged.
    pub answer_user_register-Runs :
        (g : Gate o) (value : Option String) (v : o.World)
        → HasRows rows g
        → o.redis.get (redis_key "RegisterCode:" f.email) g.world ≡ (returned value, v)
        → l.rows v ≡ l.rows g.world
        → Registers
            (is_code f.code value)
            (has_email l.same f.email rows)
            g
            (answer_user_register o (some src))
    unfolding answer_user_register
    answer_user_register-Runs g value v h asked same =
        let g' : Gate o = record g { world = v } in
        let h' : HasRows rows g' = record { rows_are = same ∙ h.rows_are; free = h.free } in
        let (w, ran) =
          register_checked-Runs (is_code f.code value) (has_email l.same f.email rows) g' refl h' in
        let (t, out, h'') = ran in (w, (t, rw (f.email_is, f.code_is, asked, out), h''))
