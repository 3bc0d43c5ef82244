-- ===== src/Tests/Startup.antt =====
-- The server starts: its configuration, Redis, and the accept loop.
use qt_chatting.Prelude.{ℕ, ◌<◌, ◌≡◌, refl, arith, pos, str_eq, some, [], ◌∷◌, if◌then◌else◌, threw}
use qt_chatting.Gate.Config.{Ptree, load, setting}
use qt_chatting.Gate.Config.Settings.{setting-load, last_value, value_in}
use qt_chatting.Gate.Server.{failed, connected, not_started, Waits, run, run-Waits, listening}
use qt_chatting.Gate.Startup.{CLibrary, configured_stubs, gate_port}
use qt_chatting.Gate.Startup.Tiny.{configured_stubs-Stuck}
use qt_chatting.Gate.Startup.Ports.{IsPort, gate_port-bound}
use qt_chatting.Rpc.Tiny.{Stuck}
use qt_chatting.Gate.Startup.Pings.{Pings, try_connect_redis-Pings}
use qt_chatting.Gate.Logic.{try_connect_redis}
use qt_chatting.Rpc.{RpcConnectionPool}
use qt_chatting.Tests.Fakes.{outside, grpc}
use qt_chatting.Tests.Server.{gate}

-- The section of the verification service stands in the file twice.
abbrev config : Ptree
config =
    ("VarifyServer", ("pool_size", "8") ∷ [])
    ∷ ("GateServer", ("port", "8080") ∷ [])
    ∷ (
      "VarifyServer",
      ("host", "127.0.0.1") ∷ ("pool_size", "2") ∷ ("port", "50051") ∷ ("pool_size", "4") ∷ [],
    )
    ∷ []

abbrev c_library : CLibrary
c_library = record {
  atoi = λ text. if str_eq text "4" then pos 4 else pos 0;
  stoi = λ text. threw "stoi";
}

try_connect_redis-Pings_example : Pings outside 5 gate (try_connect_redis outside gate)
try_connect_redis-Pings_example = try_connect_redis-Pings outside (λ w. tt) gate

run-Waits_example :
    Waits 3 4 (run (failed ∷ connected ∷ not_started "bad socket" ∷ []) (listening 4))
run-Waits_example = run-Waits (failed ∷ connected ∷ not_started "bad socket" ∷ []) 4

setting-load_example :
    setting (load config) "VarifyServer" "pool_size"
    ≡ value_in "pool_size" (last_value "VarifyServer" config)
setting-load_example = setting-load config "VarifyServer" "pool_size"

-- An empty file.
configured_stubs-Stuck_example :
    (p : RpcConnectionPool ℕ) × (configured_stubs c_library (load []) grpc 0 ≡ some p)
    × Stuck grpc 0 p
configured_stubs-Stuck_example = configured_stubs-Stuck c_library [] grpc 0 refl (omega arith)

gate_port-bound_example :
    (gate_port c_library (load config) < 65536)
    × IsPort
        (c_library.atoi (value_in "port" (last_value "GateServer" config)))
        (gate_port c_library (load config))
gate_port-bound_example = gate_port-bound c_library config
