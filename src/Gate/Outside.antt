-- ===== src/Gate/Outside.antt =====
-- What stands outside the gate server, and the state that its handlers share. redis++, jsoncpp,
-- gRPC, BCrypt and the MariaDB client are not in the repository: parameters.
use qt_chatting.Prelude.{ℤ, String, Option, Outcome, Exec}
use qt_chatting.Sql.Driver.{MySql, BCrypt}
use qt_chatting.Sql.Pool.{Sql, SqlPool}
use qt_chatting.Rpc.{Grpc, Rpc, RpcConnectionPool}

-- The members that the handlers set of the `root` that they answer with.
pub record Reply (Value : Type 0) : Type 0 where
  pub error : Option ℤ
  pub email : Option Value

-- sw::redis::Redis; `get` is none where the key is missing.
pub record Redis (World : Type 0) : Type 0 where
  pub get : String → World → Outcome (Option String) × World
  pub ping : World → Outcome (Unit {0}) × World

-- jsoncpp: Reader::parse, `value[key]` and `value[key].asString()`, which throw where the value is
-- no object or the member has no text, as a list or an object has none (a missing member is null, and
-- its text is empty), and toStyledString.
pub record JsonCpp : Type 1 where
  pub Value : Type 0
  pub parse : String → Option Value
  pub member : Value → String → Outcome Value
  pub member_string : Value → String → Outcome String
  pub to_styled_string : Reply Value → String

pub record Outside : Type 1 where
  pub World : Type 0
  pub mysql : MySql World
  pub bcrypt : BCrypt World
  pub redis : Redis World
  pub grpc : Grpc World
  pub json : JsonCpp

module _ (o : Outside) where
  -- The singletons: the two pools, and the world outside.
  pub record Gate : Type 0 where
    pub sql_pool : SqlPool o.mysql.Conn
    pub rpc_pool : RpcConnectionPool o.grpc.Stub
    pub world : o.World

  abbrev pub sql_of : Gate → Sql o.mysql
  sql_of g = record { conns = g.sql_pool; world = g.world }

  abbrev pub with_sql : Gate → Sql o.mysql → Gate
  with_sql g s = record g { sql_pool = s.conns; world = s.world }

  abbrev pub rpc_of : Gate → Rpc o.grpc
  rpc_of g = record { pool = g.rpc_pool; world = g.world }

  abbrev pub with_rpc : Gate → Rpc o.grpc → Gate
  with_rpc g r = record g { rpc_pool = r.pool; world = r.world }

  -- A call of one component, made on the whole state.
  abbrev pub on_sql {ℓ} : {A : Type ℓ} → Exec (Sql o.mysql) A → Exec Gate A
  on_sql m g = let (r, s) = m (sql_of g) in (r, with_sql g s)

  abbrev pub on_rpc {ℓ} : {A : Type ℓ} → Exec (Rpc o.grpc) A → Exec Gate A
  on_rpc m g = let (r, s) = m (rpc_of g) in (r, with_rpc g s)

  abbrev pub on_world {ℓ} : {A : Type ℓ} → (o.World → Outcome A × o.World) → Exec Gate A
  on_world f g = let (r, w) = f g.world in (r, record g { world = w })

  -- A library call that may throw and changes nothing.
  abbrev pub lift {ℓ} : {A : Type ℓ} → Outcome A → Exec Gate A
  lift r g = (r, g)
