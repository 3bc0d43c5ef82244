-- ===== src/Rpc/Bounds.antt =====
-- RpcConnectionPool of VarifyGrpcClient.cpp, over a ring whose capacity was set: the stubs
-- that are lent or stored, and `max_size_`.
use qt_chatting.Prelude.{
  ℕ, suc, ◌+◌, ◌-◌, ◌%◌, ◌^◌, ◌≤◌, ◌<◌, ◌≡◌, refl, ◌⊎◌, inl, inr, ◌∙◌, true, false, some, List, [],
  ◌∷◌, ◌++◌, String, arith, length, length-append, ltb-cases, returned, blocked,
}
use qt_chatting.Ring
use qt_chatting.Ring.{Ring}
use qt_chatting.Ring.Queue.{Represents}
use qt_chatting.Ring.Fifo.{enqueue_lem, dequeue_lem, is_empty_lem, new-Represents}
use qt_chatting.Rpc.{
  Grpc, Rpc, RpcConnectionPool, with_ring, new_pool, get_connection, release_connection,
}

-- The pool stores the stubs `xs`, and `lent` stubs are with callers.
pub record Holds {Stub : Type 0} (p : RpcConnectionPool Stub) (xs : List Stub) (lent : ℕ)
    : Type 0 where
  pub ring : Represents p.connections xs
  pub capacity_is : p.connections.capacity ≡ p.max_size + 1
  pub counted : length xs + lent ≡ p.current_size
  pub bounded : p.current_size ≤ p.max_size

module _ {World : Type 0} (g : Grpc World) where
  -- The three ways in which `getConnection` goes: the oldest stored stub, a new one while there
  -- are fewer than `max_size_`, or a wait while all of them are lent.
  abbrev pub Acquired : Rpc g → List g.Stub → ℕ → Type 0
  Acquired s (x ∷ rest) lent =
      (t : Rpc g) × (get_connection g s ≡ (returned (some x), t))
      × Holds t.pool rest (suc lent)
      × (t.world ≡ s.world)
  Acquired s [] lent =
      ((lent < s.max_size)
        × (t : Rpc g) × (get_connection g s ≡ (returned (some (g.new_stub s.target s.world).0), t))
        × Holds t.pool [] (suc lent)
        × (t.world ≡ (g.new_stub s.target s.world).1))
      ⊎ ((lent ≡ s.max_size) × (get_connection g s ≡ (blocked, s)))

  -- On a sound pool getConnection hands out the oldest stored stub; where none is stored it creates
  -- one if fewer than max_size_ are lent, and waits otherwise. The pool is sound again, with one
  -- more stub lent, or as it was where the call waits.
  pub get_connection-Acquired :
      (s : Rpc g) (xs : List g.Stub) (lent : ℕ) → Holds s.pool xs lent → Acquired s xs lent
  unfolding get_connection
  get_connection-Acquired s (x ∷ rest) lent h =
      let (q, out, r, same) = dequeue_lem s.connections (x ∷ rest) h.ring in
      let busy : Ring.is_empty s.connections ≡ false =
        is_empty_lem s.connections (x ∷ rest) h.ring ∙ ground arith in
      (
        record s { pool = record s.pool { connections = q } },
        rw (busy, out),
        record {
          ring = r;
          capacity_is = same ∙ h.capacity_is;
          counted = omega (arith, h.counted);
          bounded = h.bounded;
        },
        refl,
      )
  get_connection-Acquired s [] lent h =
      let idle : Ring.is_empty s.connections ≡ true = is_empty_lem s.connections [] h.ring in
      let counted = h.counted in
      let bounded = h.bounded in
      elim (ltb-cases s.current_size s.max_size) [
        | inl (room, t) ↦ inl (
          omega arith,
          record {
            pool = record s.pool { current_size = s.current_size + 1 };
            world = (g.new_stub s.target s.world).1;
          },
          rw (idle, t),
          record {
            ring = h.ring;
            capacity_is = h.capacity_is;
            counted = omega arith;
            bounded = omega arith;
          },
          refl,
        )
        | inr (full, t) ↦ inr (omega arith, rw (idle, t))
      ]

  -- A stub that is given back to a sound pool is never refused: it is stored behind the others, and
  -- one stub fewer is lent.
  pub release_connection-Holds :
      (s : Rpc g) (xs : List g.Stub) (lent : ℕ) (x : g.Stub)
      → Holds s.pool xs (suc lent)
      → (t : Rpc g) × (release_connection g (some x) s ≡ (returned tt, t))
        × Holds t.pool (xs ++ x ∷ []) lent
        × (t.world ≡ s.world)
  unfolding release_connection
  release_connection-Holds s xs lent x h =
      let counted = h.counted in
      let bounded = h.bounded in
      let cap = h.capacity_is in
      elim (enqueue_lem s.connections xs x h.ring) [
        | inl (fits, q, out, r, same) ↦ (
          record s { pool = record s.pool { connections = q } },
          rw out,
          record {
            ring = r;
            capacity_is = same ∙ cap;
            counted = omega (arith, length-append xs (x ∷ []));
            bounded = bounded;
          },
          refl,
        )
        | inr (full, out) ↦ absurd (omega arith)
      ]

  -- Where the ring's Capacity holds the size, a power of two below 2 ^ 64, the constructor makes a
  -- sound pool with nothing stored or lent, whose max_size_ is the size less one.
  pub new_pool-Holds :
      (k size : ℕ) (host port : String)
      → size ≡ 2 ^ k
      → size < 2 ^ 64
      → (p : RpcConnectionPool g.Stub) × (new_pool g size size host port ≡ some p)
        × Holds p [] 0
        × (p.max_size + 1 ≡ size)
  unfolding new_pool
  new_pool-Holds k size host port e small =
      let (r, made, rep, cap) = new-Represents {T = g.Stub} k size e small in
      let hi = rep.head_in in
      let max : (size + 2 ^ 64 - 1) % 2 ^ 64 + 1 ≡ size = omega arith in
      (
        with_ring size host port r,
        rw made,
        record {
          ring = rep;
          capacity_is = cap ∙ omega arith;
          counted = refl;
          bounded = omega arith;
        },
        max,
      )
