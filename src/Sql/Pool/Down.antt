-- ===== src/Sql/Pool/Down.antt =====
-- SqlPool::getConnection while the database takes no connection.
use qt_chatting.Prelude.{
  String, [], ◌<◌, ◌≡◌, ltb, true, false, none, some, threw, undefined, arith, ap,
}
use qt_chatting.Sql.Driver.{MySql, Target}
use qt_chatting.Sql.Pool.{Sql, add_connection, get_connection, is_empty}

module _ {World : Type 0} (m : MySql World) where
  -- mysql_init returns null.
  abbrev pub Refuses : Type 0
  Refuses = (w : World) → (v : World) × (m.init w ≡ (none, v))

  -- mysql_real_connect fails.
  abbrev pub Unreachable : Type 0
  Unreachable =
      (t : Target) (w : World)
      → (c : m.Conn) × (v : World) × (u : World) × (m.init w ≡ (some c, v))
        × (m.real_connect c t v ≡ (false, u))

  -- A call that throws and changes no more than the world.
  abbrev pub Throws : Sql m → Type 0
  Throws s = (e : String) × (v : World) × (get_connection m s ≡ (threw e, record s { world = v }))

  pub get_connection-Throws :
      Refuses → (s : Sql m) → s.pool ≡ [] → s.current_conn < s.max_conn → Throws s
  unfolding get_connection add_connection
  get_connection-Throws down s empty room =
      let (v, made) = down s.world in
      let free : ltb s.current_conn s.max_conn ≡ true = ground arith in
      let none_left : is_empty s.pool ≡ true = ap is_empty empty in
      ("mysql init conn error", v, rw (none_left, free, made))

  pub get_connection-undefined :
      Unreachable
      → (s : Sql m) → s.pool ≡ []
      → s.current_conn < s.max_conn
      → (t : Sql m) × (get_connection m s ≡ (undefined, t))
  unfolding get_connection add_connection
  get_connection-undefined down s empty room =
      let (c, v, u, made, failed) = down s.target s.world in
      let free : ltb s.current_conn s.max_conn ≡ true = ground arith in
      let none_left : is_empty s.pool ≡ true = ap is_empty empty in
      (record s { world = m.close c u }, rw (none_left, free, made, failed))
