-- ===== src/Sql/Pool/Unbounded.antt =====
-- SqlPool.cpp: how many connections are lent at a time, and how many the destructor closes.
use qt_chatting.Prelude.{
  ℕ, zero, suc, ◌+◌, ◌/◌, ◌≤◌, List, [], ◌∷◌, ◌≡◌, refl, ap, arith, length, ltb-cases, inl, inr,
  Exec, pure, Runs, ◌>>=◌,
}
use qt_chatting.Sql.Driver.{MySql}
use qt_chatting.Sql.Pool.{Sql, get_connection, destroy, destroy_from}
use qt_chatting.Sql.Pool.Working.{Has, get_connection-Runs}
use qt_chatting.Sql.Laws
use qt_chatting.Sql.Laws.{User}

module _ {World : Type 0} (m : MySql World) where
  -- `n` threads that call `getConnection` while none of them gives its connection back.
  pub get_many : ℕ → Exec (Sql m) (List m.Conn)
  get_many zero = pure []
  get_many (suc n) = do c ← get_connection m; cs ← get_many n; pure (c ∷ cs)

  -- Over a database that obeys SQL and a pool with current_conn_ below max_conn_, any number of
  -- calls of getConnection in a row all return, with none of the connections given back.
  pub get_many-unbounded :
      (l : Laws.Working m) (n : ℕ) (rows : List User) (s : Sql m)
      → Has m l rows s
      → (cs : List m.Conn) × (length cs ≡ n) × Runs (get_many n) s cs (Has m l rows)
  unfolding get_many
  get_many-unbounded l zero rows s h = ([], refl, (s, refl, h))
  get_many-unbounded l (suc n) rows s h =
      let (c, ran) = get_connection-Runs m l rows s h in
      let (t, out, h') = ran in
      let (cs, count, rest) = get_many-unbounded l n rows t h' in
      let (u, out', h'') = rest in (c ∷ cs, ap suc count, (u, rw (out, out'), h''))

  length-destroy_from :
      (i : ℕ) (cs : List m.Conn) (w : World)
      → i ≤ length cs + 1
      → length (destroy_from m i cs w).0 ≡ (length cs + i) / 2
  unfolding destroy_from
  length-destroy_from i [] w h = omega arith
  length-destroy_from i (c ∷ cs) w h = elim (ltb-cases i (length (c ∷ cs))) [
    | inl (more, t) ↦
        rw t (omega (arith, length-destroy_from (suc i) cs (m.close c w) (omega arith)))
    | inr (done, t) ↦ rw t (omega arith)
  ]

  -- The destructor leaves half of the connections in the pool, rounded down.
  pub length-destroy : (s : Sql m) → length (destroy m s).0 ≡ length s.pool / 2
  unfolding destroy
  length-destroy s = omega (arith, length-destroy_from 0 s.pool s.world (omega arith))
