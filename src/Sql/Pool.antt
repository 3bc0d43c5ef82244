-- ===== src/Sql/Pool.antt =====
-- server/gate_server/include/SqlPool.h and src/SqlPool.cpp. The mutex makes each method one step;
-- `pool_` is a list with its front at the head.
pub mod Down
pub mod Working
pub mod Lending
pub mod Unbounded
use qt_chatting.Prelude.{
  ℕ, suc, ◌%◌, ◌^◌, String, Bool, true, false, not, ◌||◌, Option, none, some, List, [], ◌∷◌, ◌++◌,
  ltb, if◌then◌else◌, length, Exec, pure, throw, reads, modify, blocked, undefined, ◌>>=◌, ◌>>◌,
}
use qt_chatting.Sql.Driver.{Target, MySql}

pub record SqlPool (Conn : Type 0) : Type 0 where
  pub pool : List Conn
  pub target : Target
  pub max_conn : ℕ
  pub current_conn : ℕ

-- What a method of the database layer works on: the pool and the world outside.
pub record Sql {World : Type 0} (m : MySql World) : Type 0 where
  pub conns : SqlPool m.Conn
  pub open conns use *
  pub world : World

abbrev pub is_empty {ℓ} : {A : Type ℓ} → List A → Bool
is_empty [] = true
is_empty (x ∷ xs) = false

-- The default of `init`'s last parameter.
abbrev pub default_max_conn : ℕ
default_max_conn = 5

module _ {World : Type 0} (m : MySql World) where
  -- The members' initial values; `max_conn_` and `port_` are set by `init` alone.
  pub init : String → ℕ → String → String → String → ℕ → SqlPool m.Conn
  init host port user passwd db max_conn = record {
    pool = [];
    target = record { host = host; port = port % 2 ^ 16; user = user; passwd = passwd; db = db };
    max_conn = max_conn;
    current_conn = 0;
  }

  -- A call of the client library that returns a value and changes the world.
  abbrev pub call {ℓ} : {A : Type ℓ} → (World → A × World) → Exec (Sql m) A
  call f s = let (a, w) = f s.world in pure a (record s { world = w })

  abbrev pub act : (World → World) → Exec (Sql m) (Unit {0})
  act f = modify (λ s. record s { world = f s.world })

  abbrev push_back : m.Conn → Exec (Sql m) (Unit {0})
  push_back c = modify (λ s. record s { conns = record s.conns { pool = s.pool ++ c ∷ [] } })

  -- Where the connection fails, it is freed by mysql_close and then read (`conn->db` and mysql_error).
  connect : m.Conn → Bool → Exec (Sql m) (Unit {0})
  connect conn true = do act (m.set_character_set conn "utf8mb4"); push_back conn
  connect conn false = do act (m.close conn); λ s. (undefined, s)

  opened : Option m.Conn → Exec (Sql m) (Unit {0})
  unfolding connect
  opened none = throw "mysql init conn error"
  opened (some conn) = do
    t ← reads (λ s. s.target)
    done ← call (m.real_connect conn t)
    connect conn done

  pub add_connection : Exec (Sql m) (Unit {0})
  unfolding opened
  add_connection = do conn ← call m.init; opened conn

  -- pool_.front() and pool_.pop(); an empty queue is undefined there, and excluded by the caller.
  take_front : List m.Conn → Exec (Sql m) m.Conn
  take_front [] s = (undefined, s)
  take_front (c ∷ rest) s = pure c (record s { conns = record s.conns { pool = rest } })

  may_proceed : Sql m → Bool
  may_proceed s = not (is_empty s.pool) || ltb s.current_conn s.max_conn

  unfoldable pub get_connection : Exec (Sql m) m.Conn
  unfolding add_connection take_front may_proceed
  get_connection s =
      if may_proceed s
      then (do
        if is_empty s.pool then add_connection else pure tt
        idle ← reads (λ t. t.pool)
        take_front idle)
          s
      else (blocked, s)

  -- The deleter of the shared_ptr that `getConnection` returns.
  unfoldable pub give_back : m.Conn → Sql m → Sql m
  give_back c s = record s { conns = record s.conns { pool = s.pool ++ c ∷ [] } }

  -- The loop of the destructor, from `i` on, with what is left in the pool.
  destroy_from : ℕ → List m.Conn → World → List m.Conn × World
  destroy_from i [] w = ([], w)
  destroy_from i (c ∷ rest) w =
      let next = destroy_from (suc i) rest (m.close c w) in
      if ltb i (length (c ∷ rest)) then next else (c ∷ rest, w)

  pub destroy : Sql m → List m.Conn × World
  unfolding destroy_from
  destroy s = destroy_from 0 s.pool s.world
