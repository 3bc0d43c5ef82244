-- ===== src/Gate/Startup/Tiny.antt =====
-- The pool of stubs that the configuration makes where its size is 0 or 1.
use qt_chatting.Prelude.{ℕ, ◌<◌, ◌≡◌, ap, ◌∙◌, arith, pos, String, some}
use qt_chatting.Gate.Config.{Ptree, load, setting}
use qt_chatting.Gate.Config.Settings.{last_value, value_in, setting-load}
use qt_chatting.Gate.Startup.{CLibrary, unsigned, configured_stubs}
use qt_chatting.Rpc.{Grpc, RpcConnectionPool}
use qt_chatting.Rpc.Tiny.{Stuck, new_pool-Stuck}

-- Where the last pool_size in the last section VarifyServer of config.ini reads as 0 or 1, and the
-- ring's member Capacity holds it, the constructor of the client makes a pool on which the first
-- request for a code ends in undefined behaviour, with size 0, or waits, with size 1.
pub configured_stubs-Stuck :
    (c : CLibrary) (pt : Ptree) {World : Type 0} (g : Grpc World) (size : ℕ)
    → c.atoi (value_in "pool_size" (last_value "VarifyServer" pt)) ≡ pos size
    → size < 2
    → (p : RpcConnectionPool g.Stub) × (configured_stubs c (load pt) g size ≡ some p)
      × Stuck g size p
unfolding configured_stubs unsigned
configured_stubs-Stuck c pt g size read small =
    let number : unsigned 64 (c.atoi (setting (load pt) "VarifyServer" "pool_size")) ≡ size =
      ap (λ (t : String). unsigned 64 (c.atoi t)) (setting-load pt "VarifyServer" "pool_size")
      ∙ ap (unsigned 64) read
      ∙ omega (arith, small) in
    rw number (new_pool-Stuck g size _ _ small)
