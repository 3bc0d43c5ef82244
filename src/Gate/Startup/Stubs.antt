-- ===== src/Gate/Startup/Stubs.antt =====
-- The pool of stubs that the configuration makes.
use qt_chatting.Prelude.{ℕ, ◌+◌, ◌^◌, ◌<◌, ◌≡◌, ap, ◌∙◌, arith, pos, String, some, []}
use qt_chatting.Gate.Config.{Ptree, load, setting}
use qt_chatting.Gate.Config.Settings.{last_value, value_in, setting-load}
use qt_chatting.Gate.Startup.{CLibrary, unsigned, configured_stubs}
use qt_chatting.Rpc.{Grpc, RpcConnectionPool}
use qt_chatting.Rpc.Bounds.{Holds, new_pool-Holds}

-- Where the last pool_size in the last section VarifyServer of config.ini reads as a power of two
-- below 2 ^ 64, and the ring's member Capacity holds it, the constructor of the client makes a
-- sound pool with nothing stored or lent, whose max_size_ is that number less one.
pub configured_stubs-Holds :
    (c : CLibrary) (pt : Ptree) {World : Type 0} (g : Grpc World) (k size : ℕ)
    → c.atoi (value_in "pool_size" (last_value "VarifyServer" pt)) ≡ pos size
    → size ≡ 2 ^ k
    → size < 2 ^ 64
    → (p : RpcConnectionPool g.Stub) × (configured_stubs c (load pt) g size ≡ some p)
      × Holds p [] 0
      × (p.max_size + 1 ≡ size)
unfolding configured_stubs unsigned
configured_stubs-Holds c pt g k size read e small =
    let number : unsigned 64 (c.atoi (setting (load pt) "VarifyServer" "pool_size")) ≡ size =
      ap (λ (t : String). unsigned 64 (c.atoi t)) (setting-load pt "VarifyServer" "pool_size")
      ∙ ap (unsigned 64) read
      ∙ omega arith in
    rw number (new_pool-Holds g k size _ _ e small)
