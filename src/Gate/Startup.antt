-- ===== src/Gate/Startup.antt =====
-- How the server's parts are made of the configuration: main.cpp, the constructors of SqlDao and
-- VarifyGrpcClient, tryConnectRedis of LogicSystem.cpp and RedisMgr::init. atoi and std::stoi are the C++
-- library's: parameters.
pub mod Pings
pub mod Stubs
pub mod Tiny
pub mod Ports
use Prim.Native.String
use qt_chatting.Prelude.{
  ℕ, ◌+◌, ◌-◌, ◌%◌, ◌^◌, ℤ, pos, negsuc, String, Bool, Option, none, some, Exec, Outcome, returned,
  threw, pure, ◌>>=◌,
}
use qt_chatting.Gate.Config.{Map, SectionInfo, setting}
use qt_chatting.Rpc.{Grpc, RpcConnectionPool, new_pool}
use qt_chatting.Sql.Driver.{MySql}
use qt_chatting.Sql.Pool.{SqlPool, init, default_max_conn}

-- An int as an unsigned integer of w bits.
pub unsigned : ℕ → ℤ → ℕ
unsigned w (pos n) = n % 2 ^ w
unsigned w (negsuc n) = 2 ^ w - 1 - n % 2 ^ w

-- atoi, and std::stoi, which throws on a text that begins with no number.
pub record CLibrary : Type 0 where
  pub atoi : String → ℤ
  pub stoi : String → Outcome ℤ

-- sw::redis::ConnectionOptions and ConnectionPoolOptions as RedisMgr::init fills them; times are in
-- milliseconds.
pub record RedisOptions : Type 0 where
  pub host : String
  pub port : ℤ
  pub password : String
  pub db : ℕ
  pub socket_timeout : ℕ
  pub size : ℕ
  pub connection_idle_time : ℕ

abbrev pub redis_options : CLibrary → String → String → String → ℕ → RedisOptions
redis_options c host port passwd pool_size = record {
  host = host;
  port = c.atoi port;
  password = passwd;
  db = 0;
  socket_timeout = 300;
  size = pool_size;
  connection_idle_time = 60000;
}

module _ (c : CLibrary) (config : Map SectionInfo) where
  -- The port that main listens on, an unsigned short.
  pub gate_port : ℕ
  unfolding unsigned
  gate_port = unsigned 16 (c.atoi (setting config "GateServer" "port"))

  -- What tryConnectRedis calls RedisMgr::init with.
  pub configured_redis : RedisOptions
  configured_redis =
      redis_options c (setting config "RedisServer" "host") (setting config "RedisServer" "port")
        (setting config "RedisServer" "passwd")
        (unsigned 64 (c.atoi (setting config "RedisServer" "pool_size")))

  -- The constructor of VarifyGrpcClient; `garbage` is what the ring's member Capacity holds.
  unfoldable pub configured_stubs :
      {World : Type 0} (g : Grpc World) → ℕ → Option (RpcConnectionPool g.Stub)
  unfolding new_pool
  configured_stubs g garbage =
      new_pool g garbage (unsigned 64 (c.atoi (setting config "VarifyServer" "pool_size")))
        (setting config "VarifyServer" "host") (setting config "VarifyServer" "port")

  initialised : {World : Type 0} (m : MySql World) → Outcome ℤ → Outcome (SqlPool m.Conn)
  initialised m (returned port) = returned (
      init m (setting config "MariaDB" "host") (unsigned 32 port) (setting config "MariaDB" "user")
        (setting config "MariaDB" "passwd") (setting config "MariaDB" "db") default_max_conn)
  initialised m (threw e) = threw e
  initialised m Outcome.blocked = Outcome.blocked
  initialised m Outcome.undefined = Outcome.undefined

  -- The constructor of SqlDao.
  pub configured_sql : {World : Type 0} (m : MySql World) → Outcome (SqlPool m.Conn)
  unfolding initialised
  configured_sql m = initialised m (c.stoi (setting config "MariaDB" "port"))
