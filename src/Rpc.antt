-- ===== src/Rpc.antt =====
-- server/gate_server/include/VarifyGrpcClient.h and src/VarifyGrpcClient.cpp: the pool of gRPC stubs
-- and the client of the verification service. The mutex makes each method of the pool one step.
pub mod Bounds
pub mod Client
pub mod Threads
pub mod Tiny
pub mod Unusable
pub mod Untouched
use qt_chatting.Prelude.{
  ℕ, ◌+◌, ◌-◌, ◌%◌, ◌^◌, String, Bool, true, false, not, ◌||◌, Option, none, some, ltb,
  if◌then◌else◌, Outcome, returned, blocked, undefined, Exec, pure, reads, ◌>>=◌, ◌>>◌,
}
use Prim.Native.String
use mathlib.Core.Option
use qt_chatting.Protocol.{
  Modules, module_number, GetVarifyReq, GetVarifyRsp, code_of, err_rpc_failed,
}
use qt_chatting.Ring
use qt_chatting.Ring.{Ring}

-- The gRPC runtime and the code generated from message.proto: parameters.
pub record Grpc (World : Type 0) : Type 1 where
  pub Stub : Type 0
  -- grpc::CreateChannel(target, InsecureChannelCredentials()) and VarifyService::NewStub
  pub new_stub : String → World → Stub × World
  -- stub->GetVarifyCode: the status' ok(), and what stands in the reply
  pub get_varify_code : Stub → GetVarifyReq → World → (Bool × GetVarifyRsp) × World

pub record RpcConnectionPool (Stub : Type 0) : Type 0 where
  pub connections : Ring Stub
  pub target : String
  pub max_size : ℕ
  pub current_size : ℕ

pub record Rpc {World : Type 0} (g : Grpc World) : Type 0 where
  pub pool : RpcConnectionPool g.Stub
  pub open pool use *
  pub world : World

abbrev with_ring : {Stub : Type 0} → ℕ → String → String → Ring Stub → RpcConnectionPool Stub
with_ring size host port r = record {
  connections = r;
  target = String.◌++◌ (String.◌++◌ host ":") port;
  max_size = (size + 2 ^ 64 - 1) % 2 ^ 64;
  current_size = 0;
}

module _ {World : Type 0} (g : Grpc World) where
  -- The constructor; `garbage` is what the ring's uninitialised member holds, and `none` the
  -- failed assertion of the ring's constructor.
  unfoldable pub new_pool : ℕ → ℕ → String → String → Option (RpcConnectionPool g.Stub)
  new_pool garbage size host port =
      Option.map (with_ring size host port) (Ring.new {T = g.Stub} garbage size)

  may_proceed : Rpc g → Bool
  may_proceed s = not (Ring.is_empty s.connections) || ltb s.current_size s.max_size

  -- `dequeue` into a null pointer: its result is not looked at, and the pointer may stay null.
  taken : Rpc g → Option (Bool × Option g.Stub × Ring g.Stub) → Outcome (Option g.Stub) × Rpc g
  taken s none = (undefined, s)
  taken s (some (b, con, r)) = (returned con, record s { pool = record s.pool { connections = r } })

  created : Exec (Rpc g) (Option g.Stub)
  created s =
      let (stub, w) = g.new_stub s.target s.world in
      (
        returned (some stub),
        record { pool = record s.pool { current_size = s.current_size + 1 }; world = w },
      )

  -- A null pointer is `none`.
  unfoldable pub get_connection : Exec (Rpc g) (Option g.Stub)
  unfolding may_proceed taken created
  get_connection s =
      if may_proceed s
      then if not (Ring.is_empty s.connections)
        then taken s (Ring.dequeue none s.connections)
        else created s
      else (blocked, s)

  released : Rpc g → Option (Bool × Option g.Stub × Ring g.Stub) → Outcome (Unit {0}) × Rpc g
  released s none = (undefined, s)
  released s (some (b, rest, r)) =
      (returned tt, record s { pool = record s.pool { connections = r } })

  -- The result of `enqueue` is not looked at: a stub that is refused dies with the parameter.
  pub release_connection : Option g.Stub → Exec (Rpc g) (Unit {0})
  unfolding released
  release_connection con s = released s (Ring.enqueue con s.connections)

  -- stub->GetVarifyCode(&context, request, &reply)
  invoke : Option g.Stub → GetVarifyReq → Exec (Rpc g) (Bool × GetVarifyRsp)
  invoke none request s = (undefined, s)
  invoke (some stub) request s =
      let (answer, w) = g.get_varify_code stub request s.world in
      (returned answer, record s { world = w })

  finish : Option g.Stub → Bool × GetVarifyRsp → Exec (Rpc g) GetVarifyRsp
  finish stub (true, reply) = do release_connection stub; pure reply
  finish stub (false, reply) = do
    release_connection stub
    pure (record reply { error = code_of err_rpc_failed })

  pub get_varify_code : String → Modules → Exec (Rpc g) GetVarifyRsp
  unfolding invoke finish
  get_varify_code email mod_ = do
    stub ← get_connection
    answer ← invoke stub (record { email = email; module_id = module_number mod_ })
    finish stub answer
