-- ===== src/Tests/Fakes.antt =====
-- A database, a hash, a key-value store, a verification service and a JSON library that are plain
-- functions: they do what the laws of the other modules ask for.
use Prim.Native.String
use qt_chatting.Prelude.{
  ℕ, ◌+◌, ◌-◌, String, Bool, true, false, Option, none, some, List, [], ◌∷◌, ◌++◌, str_eq,
  if◌then◌else◌, Outcome, returned, threw, refl, ap₂, pos,
}
use qt_chatting.Sql.Driver.{MySql, BCrypt}
use qt_chatting.Sql.Dao.{insert_query, exists_query, update_query, verify_query}
use qt_chatting.Sql.Laws.{User, has_email, has_login, set_hash, values, Working}
use qt_chatting.Sql.Dao.Statements.{Counting}
use qt_chatting.Sql.Mgr.Correct.{Hashes}
use qt_chatting.Rpc.{Grpc}
use qt_chatting.Varify.{Mail}
use qt_chatting.Gate.Outside.{Redis, JsonCpp, Outside}

-- One statement handle at a time is looked at: its text, what is bound to it, and its result.
pub record World : Type 0 where
  pub rows : List User
  pub text : String
  pub params : List String
  pub result : Bool
  pub handles : ℕ
  pub stubs : ℕ
  pub stored : String → Option String
  pub mails : List Mail

abbrev new_rows : String → List String → List User → List User
new_rows text [] us = us
new_rows text (a ∷ []) us = us
new_rows text (a ∷ b ∷ []) us = if str_eq text update_query then set_hash str_eq a b us else us
new_rows text (a ∷ b ∷ c ∷ []) us =
    if str_eq text insert_query then us ++ record { name = a; email = b; pwd_hash = c } ∷ [] else us
new_rows text (a ∷ b ∷ c ∷ d ∷ more) us = us

abbrev new_result : String → List String → List User → Bool
new_result text [] us = false
new_result text (a ∷ []) us = if str_eq text exists_query then has_email str_eq a us else false
new_result text (a ∷ b ∷ more) us =
    if str_eq text verify_query then has_login str_eq a b us else false

abbrev pub executed : String → List String → World → World
executed text params w = record w {
  rows = new_rows text params w.rows;
  result = new_result text params w.rows;
}

abbrev pub mysql : MySql World
mysql = record {
  Conn = ℕ;
  Stmt = ℕ;
  init = λ w. (some 7, w);
  real_connect = λ c t w. (true, w);
  set_character_set = λ c s w. w;
  close = λ c w. w;
  stmt_init = λ c w. (1, record w { handles = w.handles + 1 });
  stmt_is_null = λ st. false;
  stmt_prepare = λ st q w. (false, record w { text = q });
  stmt_bind_param = λ st bs w. (false, record w { params = values bs });
  stmt_execute = λ st w. (false, executed w.text w.params w);
  stmt_affected_rows = λ st w. 1;
  stmt_store_result = λ st w. w;
  stmt_bind_result = λ st w. (false, w);
  stmt_fetch = λ st w. ((if w.result then 0 else 100), w);
  stmt_error = λ st w. "";
  stmt_close = λ st w. record w { handles = w.handles - 1 };
}

abbrev pub laws : Working mysql
laws = record {
  same = str_eq;
  rows = λ w. w.rows;
  text = λ st w. w.text;
  params = λ st w. w.params;
  has_result = λ st w. w.result;
  init_lem = λ w. (7, w, refl, refl);
  real_connect_lem = λ c t w. (w, refl, refl);
  set_character_set_lem = λ c s w. refl;
  stmt_init_lem = λ c w. refl;
  prepare_lem = λ st q w. (record w { text = q }, refl, refl, refl);
  bind_param_lem = λ st bs w. (record w { params = values bs }, refl, refl, refl, refl);
  execute_insert = λ st n e h w t p absent. (
    executed insert_query (n ∷ e ∷ h ∷ []) w,
    ap₂ (λ x y. (false, executed x y w)) t p,
    refl,
    refl,
  );
  execute_exists = λ st e w t p.
      (executed exists_query (e ∷ []) w, ap₂ (λ x y. (false, executed x y w)) t p, refl, refl);
  execute_verify = λ st e h w t p.
      (executed verify_query (e ∷ h ∷ []) w, ap₂ (λ x y. (false, executed x y w)) t p, refl, refl);
  execute_update = λ st a b w t p.
      (executed update_query (a ∷ b ∷ []) w, ap₂ (λ x y. (false, executed x y w)) t p, refl);
  store_result_lem = λ st w. (refl, refl);
  bind_result_lem = λ st w. (w, refl, refl, refl);
  fetch_lem = λ st w. (w, refl, refl, refl);
  close_lem = λ st w. refl;
}

abbrev pub counting : Counting mysql
counting = record {
  handles = λ w. w.handles;
  init_opens = λ c w. refl;
  not_null = λ c w. refl;
  close_closes = λ st w. refl;
  quiet = record {
    prepare = λ st q s. refl;
    bind_param = λ st bs s. refl;
    execute = λ st s. refl;
    store_result = λ st s. refl;
    bind_result = λ st s. refl;
    fetch = λ st s. refl;
  };
}

abbrev pub bcrypt : BCrypt World
bcrypt = record { generate_hash = λ pwd w. (returned (String.◌++◌ "$2b$" pwd), w) }

abbrev pub hashes : Hashes mysql bcrypt laws
hashes = record { hash = λ pwd w. String.◌++◌ "$2b$" pwd; hash_lem = λ pwd w. (w, refl, refl) }

abbrev pub grpc : Grpc World
grpc = record {
  Stub = ℕ;
  new_stub = λ target w. (w.stubs, record w { stubs = w.stubs + 1 });
  get_varify_code =
      λ stub req w. ((true, record { error = pos 0; email = req.email; code = "4711" }), w);
}

-- Redis holds the code 4711 for every key.
abbrev pub redis : Redis World
redis = record { get = λ key w. (returned (some "4711"), w); ping = λ w. (returned tt, w) }

-- A member that is missing is null, whose text is empty; "[]" behind a name marks a
-- list, which has no text.
abbrev look_up : String → List (String × String) → Outcome String
look_up key [] = returned ""
look_up key ((k, v) ∷ rest) =
    if str_eq k key
    then returned v
    else if str_eq k (String.◌++◌ key "[]")
    then threw "not convertible to string"
    else look_up key rest

abbrev pub register_fields : List (String × String)
register_fields =
    ("username", "ann")
    ∷ ("email", "ann@example.org")
    ∷ ("passwd", "password1")
    ∷ ("reg_varifycode", "4711")
    ∷ []

abbrev pub reset_fields : List (String × String)
reset_fields = ("email", "bob@example.org") ∷ ("passwd", "password2") ∷ ("reset_code", "4711") ∷ []

abbrev pub list_fields : List (String × String)
list_fields = ("email", "bob@example.org") ∷ ("reg_varifycode[]", "") ∷ []

-- Three texts are JSON, and no other.
abbrev pub json : JsonCpp
json = record {
  Value = List (String × String);
  parse = λ text.
      if str_eq text "register"
      then some register_fields
      else if str_eq text "reset"
      then some reset_fields
      else if str_eq text "list"
      then some list_fields
      else none;
  member = λ v key. returned v;
  member_string = λ v key. look_up key v;
  to_styled_string = λ reply. "{}";
}

abbrev pub outside : Outside
outside = record {
  World = World;
  mysql = mysql;
  bcrypt = bcrypt;
  redis = redis;
  grpc = grpc;
  json = json;
}

abbrev pub bob : User
bob = record { name = "bob"; email = "bob@example.org"; pwd_hash = "$2b$password0" }

abbrev pub world : World
world = record {
  rows = bob ∷ [];
  text = "";
  params = [];
  result = false;
  handles = 0;
  stubs = 0;
  stored = λ key. none;
  mails = [];
}
