-- ===== src/Rpc/Untouched.antt =====
-- What getVarifyCode of VarifyGrpcClient.cpp leaves alone of the world outside, in whatever state the
-- pool is.
use qt_chatting.Prelude.{
  String, Bool, true, false, Option, none, some, ◌≡◌, refl, Bool-cases, inl, inr, ◌>>=◌, pure, not,
  ltb, Leaves, Leaves-bind,
}
use qt_chatting.Protocol.{
  Modules, GetVarifyReq, GetVarifyRsp, module_number, code_of, err_rpc_failed,
}
use qt_chatting.Ring
use qt_chatting.Rpc.{
  Grpc, Rpc, get_connection, release_connection, get_varify_code, invoke, finish, taken, released,
}

module _ {ℓ} {World : Type 0} (g : Grpc World) {X : Type ℓ} (view : World → X) where
  -- A part of the world that no call of gRPC changes.
  pub record IsApart : Type ℓ where
    pub new_stub : (target : String) (w : World) → view (g.new_stub target w).1 ≡ view w
    pub get_varify_code :
        (stub : g.Stub) (req : GetVarifyReq) (w : World)
        → view (g.get_varify_code stub req w).1 ≡ view w

module _ {ℓ} {World : Type 0} (g : Grpc World) {X : Type ℓ} (view : World → X)
    (k : IsApart g view) where
  abbrev seen : Rpc g → X
  seen s = view s.world

  taken-seen :
      (s : Rpc g) (out : Option (Bool × Option g.Stub × Ring.Ring g.Stub))
      → view (taken g s out).1.world ≡ view s.world
  unfolding taken
  taken-seen s none = refl
  taken-seen s (some (b, con, r)) = refl

  released-seen :
      (s : Rpc g) (out : Option (Bool × Option g.Stub × Ring.Ring g.Stub))
      → view (released g s out).1.world ≡ view s.world
  unfolding released
  released-seen s none = refl
  released-seen s (some (b, con, r)) = refl

  get_connection-Leaves : Leaves seen (get_connection g)
  unfolding get_connection
  get_connection-Leaves s = elim (Bool-cases (not (Ring.is_empty s.connections))) [
    | inl busy ↦ rw busy (taken-seen s (Ring.dequeue none s.connections))
    | inr idle ↦ elim (Bool-cases (ltb s.current_size s.max_size)) [
      | inl room ↦ rw (idle, room) (k.new_stub s.target s.world)
      | inr full ↦ rw (idle, full) refl
    ]
  ]

  release_connection-Leaves : (con : Option g.Stub) → Leaves seen (release_connection g con)
  unfolding release_connection
  release_connection-Leaves con s = released-seen s (Ring.enqueue con s.connections)

  invoke-Leaves : (con : Option g.Stub) (req : GetVarifyReq) → Leaves seen (invoke g con req)
  unfolding invoke
  invoke-Leaves none req s = refl
  invoke-Leaves (some stub) req s = k.get_varify_code stub req s.world

  finish-Leaves :
      (con : Option g.Stub) (answer : Bool × GetVarifyRsp) → Leaves seen (finish g con answer)
  unfolding finish
  finish-Leaves con (true, reply) =
      Leaves-bind {B = GetVarifyRsp} seen (release_connection g con) (λ _. pure reply)
        (release_connection-Leaves con) (λ _ s. refl)
  finish-Leaves con (false, reply) =
      let failed = record reply { error = code_of err_rpc_failed } in
      Leaves-bind {B = GetVarifyRsp} seen (release_connection g con) (λ _. pure failed)
        (release_connection-Leaves con) (λ _ s. refl)

  pub get_varify_code-Leaves :
      (email : String) (mod_ : Modules) → Leaves seen (get_varify_code g email mod_)
  unfolding get_varify_code
  get_varify_code-Leaves email mod_ =
      let req : GetVarifyReq = record { email = email; module_id = module_number mod_ } in
      Leaves-bind {B = GetVarifyRsp} seen (get_connection g)
        (λ con. invoke g con req >>= λ answer. finish g con answer) get_connection-Leaves
        (λ con.
          Leaves-bind {B = GetVarifyRsp} seen (invoke g con req) (λ answer. finish g con answer)
            (invoke-Leaves con req) (λ answer. finish-Leaves con answer))
