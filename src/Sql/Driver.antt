-- ===== src/Sql/Driver.antt =====
-- The MariaDB client library and BCrypt, which server/gate_server/src/SqlPool.cpp, SqlDao.cpp and
-- SqlMgr.cpp call: neither is in the repository, so each function is a parameter over an
-- unknown state `World` of everything outside the program.
use Prim.Native.String.{len}
use qt_chatting.Prelude.{ℕ, String, Bool, Option, List, Outcome}

-- `enum_field_types`, as far as SqlDao.cpp binds strings by it.
pub data FieldType : Type 0 where
  type_string type_var_string : FieldType

-- One filled `MYSQL_BIND` of an input parameter.
pub record Bind : Type 0 where
  pub buffer_type : FieldType
  pub buffer : String
  pub buffer_length : ℕ

-- bind[i].buffer_type, .buffer, .buffer_length and .length, set from a std::string.
abbrev pub bind_string : FieldType → String → Bind
bind_string t s = record { buffer_type = t; buffer = s; buffer_length = len s }

-- The arguments of mysql_real_connect that SqlPool keeps.
pub record Target : Type 0 where
  pub host : String
  pub port : ℕ
  pub user : String
  pub passwd : String
  pub db : String

-- A Boolean result is `true` where the C function returns nonzero, except for `real_connect`,
-- which returns a pointer: `true` is a pointer that is not null.
pub record MySql (World : Type 0) : Type 1 where
  pub Conn : Type 0
  pub Stmt : Type 0
  pub init : World → Option Conn × World
  pub real_connect : Conn → Target → World → Bool × World
  pub set_character_set : Conn → String → World → World
  pub close : Conn → World → World
  pub stmt_init : Conn → World → Stmt × World
  pub stmt_is_null : Stmt → Bool
  pub stmt_prepare : Stmt → String → World → Bool × World
  pub stmt_bind_param : Stmt → List Bind → World → Bool × World
  pub stmt_execute : Stmt → World → Bool × World
  pub stmt_affected_rows : Stmt → World → ℕ
  pub stmt_store_result : Stmt → World → World
  pub stmt_bind_result : Stmt → World → Bool × World
  pub stmt_fetch : Stmt → World → ℕ × World
  pub stmt_error : Stmt → World → String
  pub stmt_close : Stmt → World → World

-- BCrypt::generateHash draws a salt, so it reads and changes the world; it may throw.
pub record BCrypt (World : Type 0) : Type 0 where
  pub generate_hash : String → World → Outcome String × World
