-- ===== src/Tests/Database.antt =====
-- The methods on the database at work.
use qt_chatting.Prelude.{
  ℕ, ◌+◌, ◌≡◌, refl, false, List, [], ◌∷◌, arith, length, returned, Runs, str_eq, pos,
  if◌then◌else◌,
}
use qt_chatting.Sql.Laws.{User, has_email, has_login}
use qt_chatting.Sql.Pool.{Sql, SqlPool, get_connection}
use qt_chatting.Sql.Pool.Working.{Has}
use qt_chatting.Sql.Pool.Unbounded.{get_many, get_many-unbounded}
use qt_chatting.Sql.Dao.{reg_user, email_exists, update_pwd, verify_pwd}
use qt_chatting.Sql.Dao.Connections.{Settles, methods-Settles}
use qt_chatting.Sql.Dao.Statements.{handles_of, handles-closed, handles-reg_user}
use qt_chatting.Sql.Mgr
use qt_chatting.Sql.Mgr.Correct.{email_exists-Runs_mgr, varify_pwd-Runs}
use qt_chatting.Tests.Fakes.{mysql, laws, counting, bcrypt, hashes, bob, world}

abbrev pub pool_of_two : SqlPool ℕ
pool_of_two = record {
  pool = 3 ∷ 4 ∷ [];
  target = record { host = "127.0.0.1"; port = 3308; user = "root"; passwd = ""; db = "chat" };
  max_conn = 5;
  current_conn = 0;
}

abbrev pub state : Sql mysql
state = record { conns = pool_of_two; world = world }

pub state-Has : Has mysql laws (bob ∷ []) state
state-Has = record { rows_are = refl; free = omega arith }

methods-Settles_example :
    Settles mysql (reg_user mysql "ann" "ann@example.org" "$2b$x") state
    × Settles mysql (email_exists mysql "ann@example.org") state
    × Settles mysql (update_pwd mysql "ann@example.org" "$2b$x") state
    × Settles mysql (verify_pwd mysql "ann@example.org" "$2b$x") state
methods-Settles_example = methods-Settles mysql "ann" "ann@example.org" "$2b$x" state

get_many-unbounded_example :
    (cs : List ℕ) × (length cs ≡ 9) × Runs (get_many mysql 9) state cs (Has mysql laws (bob ∷ []))
get_many-unbounded_example = get_many-unbounded mysql laws 9 (bob ∷ []) state state-Has

taken :
    get_connection mysql state
    ≡ (returned 3, record state { conns = record pool_of_two { pool = 4 ∷ [] } })
unfolding get_connection
taken = refl

abbrev after_taking : Sql mysql
after_taking = record state { conns = record pool_of_two { pool = 4 ∷ [] } }

handles-closed_example :
    (handles_of mysql counting (email_exists mysql "ann@example.org" state).1 ≡ 0)
    × (handles_of mysql counting (update_pwd mysql "ann@example.org" "$2b$x" state).1 ≡ 0)
    × (handles_of mysql counting (verify_pwd mysql "ann@example.org" "$2b$x" state).1 ≡ 0)
handles-closed_example =
    handles-closed mysql counting "ann@example.org" "$2b$x" state after_taking 3 taken

handles-reg_user_example :
    handles_of mysql counting (reg_user mysql "ann" "ann@example.org" "$2b$x" state).1 ≡ 0 + 1
handles-reg_user_example =
    handles-reg_user mysql counting "ann" "ann@example.org" "$2b$x" state after_taking 3 taken

abbrev ann : User
ann = record { name = "ann"; email = "ann@example.org"; pwd_hash = "$2b$x" }

ann_is_new : has_email str_eq "ann@example.org" (bob ∷ []) ≡ false
unfolding has_email
ann_is_new = refl

email_exists-Runs_mgr_example :
    Runs
      (Mgr.email_exists mysql bcrypt "bob@example.org")
      state
      (if has_email str_eq "bob@example.org" (bob ∷ []) then pos 1 else pos 0)
      (Has mysql laws (bob ∷ []))
email_exists-Runs_mgr_example =
    email_exists-Runs_mgr mysql bcrypt laws "bob@example.org" (bob ∷ []) state state-Has

varify_pwd-Runs_example :
    Runs
      (Mgr.varify_pwd mysql bcrypt "bob@example.org" "password0")
      state
      (has_login str_eq "bob@example.org" "$2b$password0" (bob ∷ []))
      (Has mysql laws (bob ∷ []))
varify_pwd-Runs_example =
    varify_pwd-Runs mysql bcrypt laws hashes "bob@example.org" "password0" (bob ∷ []) state
      state-Has
