-- ===== src/Rpc/Client.antt =====
-- VarifyGrpcClient::getVarifyCode of VarifyGrpcClient.cpp over a sound pool.
use qt_chatting.Prelude.{
  ℕ, suc, ◌<◌, ◌≡◌, ◌∙◌, ap, inl, inr, Bool, true, false, some, List, [], ◌∷◌, ◌++◌, String, arith,
  returned,
}
use qt_chatting.Protocol.{
  Modules, module_number, GetVarifyReq, GetVarifyRsp, code_of, err_rpc_failed,
}
use qt_chatting.Rpc.{Grpc, Rpc, get_connection, release_connection, invoke, finish, get_varify_code}
use qt_chatting.Rpc.Bounds.{Holds, get_connection-Acquired, release_connection-Holds}

-- The reply of the service, or the error code for a call that failed on the way.
abbrev pub answered : Bool × GetVarifyRsp → GetVarifyRsp
answered (true, reply) = reply
answered (false, reply) = record reply { error = code_of err_rpc_failed }

abbrev pub request_of : String → Modules → GetVarifyReq
request_of email mod_ = record { email = email; module_id = module_number mod_ }

module _ {World : Type 0} (g : Grpc World) where
  -- The stub that serves a call, and the world once it is there.
  abbrev pub chosen : Rpc g → List g.Stub → g.Stub × World
  chosen s (x ∷ rest) = (x, s.world)
  chosen s [] = g.new_stub s.target s.world

  acquired :
      (s : Rpc g) (xs : List g.Stub) (lent : ℕ)
      → Holds s.pool xs lent
      → lent < s.max_size
      → (t : Rpc g) × (ys : List g.Stub) × (get_connection g s
          ≡ (returned (some (chosen s xs).0), t))
        × Holds t.pool ys (suc lent)
        × (t.world ≡ (chosen s xs).1)
  acquired s (x ∷ rest) lent h room =
      let (t, out, h', w) = get_connection-Acquired g s (x ∷ rest) lent h in (t, rest, out, h', w)
  acquired s [] lent h room = elim (get_connection-Acquired g s [] lent h) [
    | inl (below, t, out, h', w) ↦ (t, [], out, h', w)
    | inr (full, out) ↦ absurd (omega arith)
  ]

  finish-answered :
      (stub : g.Stub) (answer : Bool × GetVarifyRsp) (s t : Rpc g)
      → release_connection g (some stub) s ≡ (returned tt, t)
      → finish g (some stub) answer s ≡ (returned (answered answer), t)
  unfolding finish
  finish-answered stub (true, reply) s t e = rw e
  finish-answered stub (false, reply) s t e = rw e

  -- On a sound pool with fewer than max_size_ stubs lent, getVarifyCode returns the reply of the
  -- service to the request with the email and the module's number, or that reply with error 1002
  -- where the call failed; then its stub is the last one stored, and the number of stubs lent is as
  -- before.
  pub get_varify_code-Holds :
      (s : Rpc g) (xs : List g.Stub) (lent : ℕ) (email : String) (mod_ : Modules)
      → Holds s.pool xs lent
      → lent < s.max_size
      → let (stub, w) = chosen s xs in
        let sent = g.get_varify_code stub (request_of email mod_) w in
        (t : Rpc g) × (ys : List g.Stub) × (get_varify_code g email mod_ s
          ≡ (returned (answered sent.0), t))
        × Holds t.pool (ys ++ stub ∷ []) lent
        × (t.world ≡ sent.1)
  unfolding get_varify_code invoke
  get_varify_code-Holds s xs lent email mod_ h room =
      let (u, ys, got, h', w) = acquired s xs lent h room in
      let stub = (chosen s xs).0 in
      let sent = g.get_varify_code stub (request_of email mod_) u.world in
      let v : Rpc g = record u { world = sent.1 } in
      let (t, back, h'', same) = release_connection-Holds g v ys lent stub h' in
      (
        t,
        ys,
        rw (got, finish-answered stub sent.0 v t back, w),
        h'',
        same ∙ ap (λ (x : World). (g.get_varify_code stub (request_of email mod_) x).1) w,
      )
