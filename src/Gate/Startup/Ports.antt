-- ===== src/Gate/Startup/Ports.antt =====
-- The port that main.cpp of the gate server listens on.
use qt_chatting.Prelude.{ℕ, suc, ◌+◌, ◌*◌, ◌/◌, ◌<◌, ◌≡◌, arith, ℤ, pos, negsuc}
use qt_chatting.Gate.Config.{Ptree, load}
use qt_chatting.Gate.Config.Settings.{last_value, value_in, setting-load}
use qt_chatting.Gate.Startup.{CLibrary, unsigned, gate_port}

-- The port differs from the number by a multiple of 2 ^ 16.
abbrev pub IsPort : ℤ → ℕ → Type 0
IsPort (pos n) port = (k : ℕ) × (port + k * 65536 ≡ n)
IsPort (negsuc n) port = (k : ℕ) × (port + suc n ≡ k * 65536)

unsigned-IsPort : (z : ℤ) → IsPort z (unsigned 16 z)
unfolding unsigned
unsigned-IsPort (pos n) = (n / 65536, omega arith)
unsigned-IsPort (negsuc n) = (suc (n / 65536), omega arith)

unsigned-bound : (z : ℤ) → unsigned 16 z < 65536
unfolding unsigned
unsigned-bound (pos n) = omega arith
unsigned-bound (negsuc n) = omega arith

-- The port that the gate server listens on is below 2 ^ 16, and it differs from the number that
-- atoi reads in the last port in the last section GateServer of config.ini by a multiple of 2 ^ 16.
pub gate_port-bound :
    (c : CLibrary) (pt : Ptree)
    → (gate_port c (load pt) < 65536)
      × IsPort (c.atoi (value_in "port" (last_value "GateServer" pt))) (gate_port c (load pt))
unfolding gate_port
gate_port-bound c pt =
    rw (setting-load pt "GateServer" "port") (unsigned-bound _, unsigned-IsPort _)
