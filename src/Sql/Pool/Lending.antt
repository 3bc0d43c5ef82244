-- ===== src/Sql/Pool/Lending.antt =====
-- SqlPool::getConnection of SqlPool.cpp, whatever the client library answers.
use qt_chatting.Prelude.{
  String, List, [], ◌∷◌, ◌≡◌, refl, ◌⊎◌, inl, inr, ltb, Bool-cases, Option-cases, returned, threw,
  blocked, undefined, some, false,
}
use qt_chatting.Sql.Driver.{MySql}
use qt_chatting.Sql.Pool.{Sql, add_connection, get_connection}

module _ {World : Type 0} (m : MySql World) where
  abbrev with_pool : List m.Conn → Sql m → Sql m
  with_pool idle s = record s { conns = record s.conns { pool = idle } }

  -- What is left when the connection `c` has been taken from the pool of `s`.
  pub record Lent (s : Sql m) (c : m.Conn) (t : Sql m) : Type 0 where
    pub taken : (s.pool ≡ c ∷ t.pool) ⊎ ((s.pool ≡ []) × (t.pool ≡ []))
    pub same_max : t.max_conn ≡ s.max_conn
    pub same_current : t.current_conn ≡ s.current_conn

  -- The pool is empty, and mysql_real_connect fails for a new connection.
  abbrev pub Fails : Sql m → Type 0
  Fails s =
      (s.pool ≡ [])
      × (c : m.Conn) × ((m.init s.world).0 ≡ some c)
      × ((m.real_connect c s.target (m.init s.world).1).0 ≡ false)

  -- A connection, an exception with the pool as it was, a wait, or undefined behaviour.
  abbrev pub Got : Sql m → Type 0
  Got s =
      ((c : m.Conn) × (t : Sql m) × (get_connection m s ≡ (returned c, t)) × Lent s c t)
      ⊎ ((e : String) × (t : Sql m) × (get_connection m s ≡ (threw e, t)) × (t.conns ≡ s.conns))
      ⊎ (get_connection m s ≡ (blocked, s))
      ⊎ (Fails s × ((t : Sql m) × (get_connection m s ≡ (undefined, t))))

  added :
      (s : Sql m)
      → ((c : m.Conn) × (v : World) × (add_connection m (with_pool [] s)
            ≡ (returned tt, record { conns = record s.conns { pool = c ∷ [] }; world = v })))
        ⊎ ((e : String) × (v : World) × (add_connection m (with_pool [] s)
              ≡ (threw e, record { conns = record s.conns { pool = [] }; world = v })))
        ⊎ (Fails (with_pool [] s)
            × ((t : Sql m) × (add_connection m (with_pool [] s) ≡ (undefined, t))))
  unfolding add_connection
  added s = elim (Option-cases (m.init s.world).0) [
    | inl none_made ↦ inr (inl ("mysql init conn error", (m.init s.world).1, rw none_made))
    | inr (c, made) ↦
        let w = (m.init s.world).1 in
        let (b, v) = m.real_connect c s.target w in
        elim (Bool-cases (m.real_connect c s.target w).0) [
          | inl ok ↦ inl (c, m.set_character_set c "utf8mb4" v, rw (made, ok))
          | inr failed ↦ inr (
              inr (
                (refl, c, made, failed),
                (
                  record { conns = record s.conns { pool = [] }; world = m.close c v },
                  rw (made, failed),
                ),
              ))
        ]
  ]

  Got-from : (idle : List m.Conn) (s : Sql m) → Got (with_pool idle s)
  unfolding get_connection
  Got-from (c ∷ rest) s =
      inl (
        c,
        with_pool rest s,
        refl,
        record { taken = inl refl; same_max = refl; same_current = refl },
      )
  Got-from [] s = elim (Bool-cases (ltb s.current_conn s.max_conn)) [
    | inr full ↦ inr (inr (inl (rw full)))
    | inl room ↦ elim (added s) [
      | inl (c, v, e) ↦ inl (
        c,
        record { conns = record s.conns { pool = [] }; world = v },
        rw (room, e),
        record { taken = inr (refl, refl); same_max = refl; same_current = refl },
      )
      | inr (inr (f, (t, e))) ↦ inr (inr (inr (f, (t, rw (room, e)))))
      | inr (inl (x, v, e)) ↦
          inr (
            inl (x, record { conns = record s.conns { pool = [] }; world = v }, rw (room, e), refl))
    ]
  ]

  pub get_connection-Got : (s : Sql m) → Got s
  get_connection-Got s = Got-from s.pool s
