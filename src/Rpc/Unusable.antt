-- ===== src/Rpc/Unusable.antt =====
-- RpcConnectionPool of VarifyGrpcClient.cpp over the ring as it is built, where the ring's
-- uninitialised member held zero.
use qt_chatting.Prelude.{
  ℕ, zero, suc, ◌+◌, ◌-◌, ◌^◌, ◌≤◌, ◌<◌, ◌≡◌, refl, subst, Bool, true, false, some, none, List, [],
  ◌∷◌, String, arith, length, returned, undefined, Exec, Outcome, ◌>>=◌, ltb,
}
use qt_chatting.Protocol.{Modules, GetVarifyRsp, code_of, err_rpc_failed}
use qt_chatting.Ring
use qt_chatting.Ring.{Ring, enqueue, dequeue}
use qt_chatting.Ring.Uninitialised.{
  IsZeroed, new-IsZeroed, zeroed_past_end, IsZeroed-cycle, is_empty-dequeue, IsZeroed-is_empty,
}
use qt_chatting.Rpc.{
  Grpc, Rpc, RpcConnectionPool, new_pool, get_connection, release_connection, invoke, finish,
  get_varify_code,
}

module _ {World : Type 0} (g : Grpc World) where
  -- One request after the other, on one thread.
  pub serve_all : List (String × Modules) → Exec (Rpc g) (Unit {0})
  serve_all [] s = (returned tt, s)
  serve_all ((email, mod_) ∷ rest) s = (do reply ← get_varify_code g email mod_; serve_all rest) s

  finish-undefined :
      (stub : g.Stub) (answer : Bool × GetVarifyRsp) (s : Rpc g)
      → enqueue (some stub) s.connections ≡ none
      → (finish g (some stub) answer s).0 ≡ undefined
  unfolding finish release_connection
  finish-undefined stub (true, reply) s e = rw e
  finish-undefined stub (false, reply) s e = rw e

  -- A call on a pool with one stub stored, where its return runs past the end.
  last_call :
      (s : Rpc g) (q : Ring g.Stub) (x : g.Stub) (email : String) (mod_ : Modules)
      → dequeue none s.connections ≡ some (true, some x, q)
      → enqueue (some x) q ≡ none
      → (get_varify_code g email mod_ s).0 ≡ undefined
  unfolding get_varify_code get_connection invoke
  last_call s q x email mod_ gets puts =
      rw (is_empty-dequeue s.connections q x gets, gets) (finish-undefined x _ _ puts)

  -- What a call leaves that returned: a reply, and the ring `p`.
  abbrev Returned : Outcome GetVarifyRsp × Rpc g → Ring g.Stub → Type 0
  Returned out p =
      (reply : GetVarifyRsp) × (t : Rpc g) × (out ≡ (returned reply, t)) × (t.connections ≡ p)

  finish-Returned :
      (stub : g.Stub) (answer : Bool × GetVarifyRsp) (s : Rpc g) (p : Ring g.Stub)
      → enqueue (some stub) s.connections ≡ some (true, none, p)
      → Returned (finish g (some stub) answer s) p
  unfolding finish release_connection
  finish-Returned stub (true, reply) s p e =
      (reply, record s { pool = record s.pool { connections = p } }, rw e, refl)
  finish-Returned stub (false, reply) s p e = (
    record reply { error = code_of err_rpc_failed },
    record s { pool = record s.pool { connections = p } },
    rw e,
    refl,
  )

  -- The same where the stub fits once more.
  next_call :
      (s : Rpc g) (q p : Ring g.Stub) (x : g.Stub) (email : String) (mod_ : Modules)
      → dequeue none s.connections ≡ some (true, some x, q)
      → enqueue (some x) q ≡ some (true, none, p)
      → Returned (get_varify_code g email mod_ s) p
  unfolding get_varify_code get_connection invoke
  next_call s q p x email mod_ gets puts =
      rw (is_empty-dequeue s.connections q x gets, gets) (finish-Returned x _ _ p puts)

  -- The first call makes the stub.
  first_call :
      (s : Rpc g) (p : Ring g.Stub) (email : String) (mod_ : Modules)
      → Ring.is_empty s.connections ≡ true
      → ltb s.current_size s.max_size ≡ true
      → enqueue (some (g.new_stub s.target s.world).0) s.connections ≡ some (true, none, p)
      → Returned (get_varify_code g email mod_ s) p
  unfolding get_varify_code get_connection invoke
  first_call s p email mod_ idle room puts = rw (idle, room) (finish-Returned _ _ _ p puts)

  later_calls :
      (requests : List (String × Modules)) (k : ℕ) (s : Rpc g) (r : Ring g.Stub) (x : g.Stub)
      → IsZeroed (suc k) r
      → enqueue (some x) r ≡ some (true, none, s.connections)
      → length requests ≡ suc k
      → (serve_all requests s).0 ≡ undefined
  unfolding serve_all
  later_calls [] k s r x z e n = absurd (omega arith)
  later_calls ((email, mod_) ∷ rest) zero s r x z e n =
      let (p, q, puts, gets, z') = IsZeroed-cycle x zero r z in
      let stored : s.connections ≡ p = cc in
      let gone = last_call s q x email mod_ (rw stored gets) (zeroed_past_end x q z') in rw gone
  later_calls ((email, mod_) ∷ rest) (suc k) s r x z e n =
      let (p, q, puts, gets, z') = IsZeroed-cycle x (suc k) r z in
      let stored : s.connections ≡ p = cc in
      let (p', q', puts', gets', z'') = IsZeroed-cycle x k q z' in
      let (reply, t, out, c) = next_call s q p' x email mod_ (rw stored gets) puts' in
      rw out (later_calls rest k t q x z' (rw c puts') (omega arith))

  -- On a new pool of a size from 2 to below 2 ^ 63 whose ring was made in zeroed memory, size + 1
  -- requests for a code one after the other end in undefined behaviour.
  pub new_pool-zeroed_undefined :
      (size : ℕ) (host port : String) (p : RpcConnectionPool g.Stub) (w : World)
      (requests : List (String × Modules))
      → 2 ≤ size
      → size < 2 ^ 63
      → new_pool g 0 size host port ≡ some p
      → length requests ≡ size + 1
      → (serve_all requests (record { pool = p; world = w })).0 ≡ undefined
  unfolding new_pool serve_all
  new_pool-zeroed_undefined size host port p w [] two small e n = absurd (omega arith)
  new_pool-zeroed_undefined size host port p w ((email, mod_) ∷ rest) two small e n =
      let made : Ring.new {T = g.Stub} 0 size ≡ some p.connections = ground arith in
      let one_less : size ≡ suc (size - 1) = omega arith in
      let r = p.connections in
      let s : Rpc g = record { pool = p; world = w } in
      let x = (g.new_stub p.target w).0 in
      let z = new-IsZeroed size r small made in
      let z' = subst (λ i. IsZeroed i r) one_less z in
      let room : ltb p.current_size p.max_size ≡ true = ground arith in
      let (q, _, puts, _, _) = IsZeroed-cycle x (size - 1) r z' in
      let (reply, t, out, c) = first_call s q email mod_ (IsZeroed-is_empty size r z) room puts in
      rw out (later_calls rest (size - 1) t r x z' (rw c puts) (omega arith))
