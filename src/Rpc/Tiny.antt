-- ===== src/Rpc/Tiny.antt =====
-- The pool of stubs of VarifyGrpcClient.cpp with the sizes 0 and 1, whose ring holds no stub.
use qt_chatting.Prelude.{
  ℕ, zero, suc, ◌<◌, ◌≡◌, refl, Bool, true, false, String, Option, none, some, ◌==◌, if◌then◌else◌,
  blocked, undefined, arith,
}
use qt_chatting.Protocol.{Modules, GetVarifyRsp}
use qt_chatting.Ring
use qt_chatting.Ring.{Ring, enqueue}
use qt_chatting.Rpc.{
  Grpc, Rpc, RpcConnectionPool, new_pool, get_connection, may_proceed, created, release_connection,
  released, invoke, finish, get_varify_code,
}

module _ {World : Type 0} (g : Grpc World) where
  -- What a first request for a code ends in.
  abbrev pub Stuck : ℕ → RpcConnectionPool g.Stub → Type 0
  Stuck size p =
      (w : World) (email : String) (mod_ : Modules)
      → (get_varify_code g email mod_ (record { pool = p; world = w })).0
        ≡ (if size == 0 then undefined else blocked)

  finish_past :
      (stub : Option g.Stub) (answer : Bool × GetVarifyRsp) (s : Rpc g)
      → enqueue stub s.connections ≡ none
      → (finish g stub answer s).0 ≡ undefined
  unfolding finish release_connection released
  finish_past stub (true, reply) s e = rw e refl
  finish_past stub (false, reply) s e = rw e refl

  pub new_pool-Stuck :
      (size : ℕ) (host port : String)
      → size < 2
      → (p : RpcConnectionPool g.Stub) × (new_pool g size size host port ≡ some p) × Stuck size p
  unfolding new_pool get_varify_code get_connection may_proceed created invoke Ring.new
      Ring.is_empty enqueue
  new_pool-Stuck zero host port small = (_, refl, λ w email mod_. finish_past _ _ _ refl)
  new_pool-Stuck (suc zero) host port small = (_, refl, λ w email mod_. refl)
  new_pool-Stuck (suc (suc n)) host port small = absurd (omega (arith, small))
