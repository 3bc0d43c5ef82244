-- ===== src/Tests/Serving.antt =====
-- Requests one after the other, and the life of a connection.
use qt_chatting.Prelude.{
  ◌≤◌, ◌≡◌, refl, sym, ltb, ◌∙◌, eq_iff, arith, ◌⊎◌, String, str_eq, true, false, List, [], ◌∷◌,
  length, inl, inr, Bool-cases,
}
use qt_chatting.Sql.Laws.{User, has_email}
use qt_chatting.Sql.Laws.Unique.{IsUnique}
use qt_chatting.Gate.Connection.{Request, on_read, post_verb}
use qt_chatting.Gate.Connection.Answers.{request_with}
use qt_chatting.Gate.Connection.Life
use qt_chatting.Gate.Connection.Life.{
  Own, Hangs, on_read-IsOver, Run-bounds, reading_done, here, own,
}
use qt_chatting.Gate.Connection.Users.{serve_all, serve_all-IsUnique}
use qt_chatting.Gate.Outside.{Outside, Gate}
use qt_chatting.Gate.Logic.{answer_get_reset_varifycode, answer_reset_passwd, answer_user_register}
use qt_chatting.Gate.Logic.Down.{IsRefused, answers-IsRefused, answers-undefined}
use qt_chatting.Tests.Database.{pool_of_two}
use qt_chatting.Prelude.{some, none, undefined}
use qt_chatting.Gate.Logic.Users
use qt_chatting.Gate.Logic.Users.{IsApart}
use qt_chatting.Tests.Fakes.{mysql, register_fields, outside, laws, bob}
use qt_chatting.Tests.Server.{gate, empty_response}

apart : IsApart outside laws
apart = record {
  bcrypt = λ pwd w. refl;
  redis = λ key w. refl;
  grpc = record { new_stub = λ target w. refl; get_varify_code = λ stub req w. refl };
}

abbrev asked : Request
asked = request_with outside gate "/user_register" 11 "register" empty_response post_verb

pub same_comm : (a b : String) → str_eq a b ≡ str_eq b a
same_comm a b = elim (Bool-cases (str_eq a b)) [
  | inl e ↦ e ∙ sym ((eq_iff b a).1 (sym ((eq_iff a b).0 e)))
  | inr e ↦ elim (Bool-cases (str_eq b a)) [
    | inl f ↦ let g : str_eq a b ≡ true = (eq_iff a b).1 (sym ((eq_iff b a).0 f)) in ground arith
    | inr f ↦ e ∙ sym f
  ]
]

pub only_bob : IsUnique str_eq (bob ∷ [])
unfolding has_email
only_bob = (refl, tt)

-- Two requests to register one user.
serve_all-IsUnique_example :
    (rows : List User) × Users.Users outside laws apart rows
      (serve_all outside laws apart empty_response (asked ∷ asked ∷ []) gate)
    × IsUnique str_eq rows
    × ((e : String) → has_email str_eq e (bob ∷ []) ≡ true → has_email str_eq e rows ≡ true)
serve_all-IsUnique_example =
    serve_all-IsUnique outside laws apart empty_response (asked ∷ asked ∷ []) (bob ∷ []) gate
      same_comm only_bob (record { rows_are = refl; free = omega arith })

-- The request could not be read.
abbrev unread : Life.Life outside
unread =
    let c = Life.start outside gate asked empty_response in
    let after = (on_read outside true c.session).1 in
    record {
      session = after;
      reading = false;
      handling = false;
      writing = ltb 0 (length after.written);
    }

Run-bounds_example :
    (length unread.session.written ≤ 1)
    × (1 ≤ 6)
    × ((unread.session.connection.is_open ≡ false)
        ⊎ Hangs outside unread
        ⊎ ((e : Life.Life outside) × Own outside unread e))
Run-bounds_example = Run-bounds outside gate asked empty_response 1 unread (
    own here (
      reading_done true refl
        (on_read-IsOver outside (Life.start outside gate asked empty_response).session) refl))

-- A database that makes no connection, and a pool that has none.
abbrev down : Outside
down = record outside { mysql = record mysql { init = λ w. (none, w) } }

abbrev down_gate : Gate down
down_gate = record {
  sql_pool = record pool_of_two { pool = [] };
  rpc_pool = gate.rpc_pool;
  world = gate.world;
}

answers-IsRefused_example :
    IsRefused down (answer_get_reset_varifycode down (some register_fields) down_gate) down_gate
    × IsRefused down (answer_reset_passwd down (some register_fields) down_gate) down_gate
    × IsRefused down (answer_user_register down (some register_fields) down_gate) down_gate
answers-IsRefused_example =
    answers-IsRefused down register_fields "ann@example.org" "4711" "4711" down_gate gate.world
      (λ w. (w, refl)) refl (omega arith) refl refl refl refl

-- A database whose server is not there.
abbrev unreachable : Outside
unreachable = record outside { mysql = record mysql { real_connect = λ c t w. (false, w) } }

abbrev unreachable_gate : Gate unreachable
unreachable_gate = record {
  sql_pool = record pool_of_two { pool = [] };
  rpc_pool = gate.rpc_pool;
  world = gate.world;
}

answers-undefined_example :
    ((answer_get_reset_varifycode unreachable (some register_fields) unreachable_gate).0
      ≡ undefined)
    × ((answer_reset_passwd unreachable (some register_fields) unreachable_gate).0 ≡ undefined)
    × ((answer_user_register unreachable (some register_fields) unreachable_gate).0 ≡ undefined)
answers-undefined_example =
    answers-undefined unreachable register_fields "ann@example.org" "4711" "4711" unreachable_gate
      gate.world (λ t w. (7, w, w, refl, refl)) refl (omega arith) refl refl refl refl
