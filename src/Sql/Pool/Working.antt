-- ===== src/Sql/Pool/Working.antt =====
-- SqlPool::getConnection of SqlPool.cpp over a working database.
use qt_chatting.Prelude.{◌<◌, true, List, [], ◌∷◌, ◌≡◌, refl, ◌∙◌, arith, ltb, returned, Runs}
use qt_chatting.Sql.Driver.{MySql}
use qt_chatting.Sql.Pool.{Sql, add_connection, get_connection, give_back}
use qt_chatting.Sql.Laws
use qt_chatting.Sql.Laws.{User}

module _ {World : Type 0} (m : MySql World) (l : Laws.Working m) where
  abbrev pub table : Sql m → List User
  table s = l.rows s.world

  -- The state has these rows, and a call for a connection does not have to wait.
  pub record Has (rows : List User) (s : Sql m) : Type 0 where
    pub rows_are : table s ≡ rows
    pub free : s.current_conn < s.max_conn

  abbrev with_pool : List m.Conn → Sql m → Sql m
  with_pool idle s = record s { conns = record s.conns { pool = idle } }

  add_connection-Runs :
      (s : Sql m)
      → (c : m.Conn) × (v : World) × (add_connection m (with_pool [] s)
          ≡ (returned tt, record { conns = record s.conns { pool = c ∷ [] }; world = v }))
        × (l.rows v ≡ table s)
  unfolding add_connection
  add_connection-Runs s =
      let (c, w, made, same) = l.init_lem s.world in
      let (v, connected, same') = l.real_connect_lem c s.target w in
      (
        c,
        m.set_character_set c "utf8mb4" v,
        rw (made, connected),
        l.set_character_set_lem c "utf8mb4" v ∙ same' ∙ same,
      )

  get_connection_from :
      (idle : List m.Conn) (s : Sql m)
      → s.current_conn < s.max_conn
      → (c : m.Conn) × Runs (get_connection m) (with_pool idle s) c (Has (table s))
  unfolding get_connection
  get_connection_from [] s free =
      let (c, v, added, same) = add_connection-Runs s in
      let t : ltb s.current_conn s.max_conn ≡ true = ground arith in
      (
        c,
        (
          record { conns = record s.conns { pool = [] }; world = v },
          rw (t, added),
          record { rows_are = same; free = free },
        ),
      )
  get_connection_from (c ∷ rest) s free =
      (c, (with_pool rest s, refl, record { rows_are = refl; free = free }))

  -- A connection is handed out, an idle one or a new one.
  pub get_connection-Runs :
      (rows : List User) (s : Sql m)
      → Has rows s
      → (c : m.Conn) × Runs (get_connection m) s c (Has rows)
  get_connection-Runs rows s h =
      let (c, ran) = get_connection_from s.pool s h.free in
      let (t, out, h') = ran in
      (c, (t, out, record { rows_are = h'.rows_are ∙ h.rows_are; free = h'.free }))

  -- The connection goes back into the pool.
  pub give_back-Has :
      (rows : List User) (c : m.Conn) (s : Sql m) → Has rows s → Has rows (give_back m c s)
  unfolding give_back
  give_back-Has rows c s h = record { rows_are = h.rows_are; free = h.free }
