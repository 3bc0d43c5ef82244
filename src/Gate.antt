-- ===== src/Gate.antt =====
-- The HTTP side of the gate server and its start: server/gate_server/src/LogicSystem.cpp,
-- HttpConnection.cpp, IOcontextPool.cpp, CServer.cpp, ConfigMgr.cpp, RedisMgr.cpp and main.cpp.
pub mod Outside
pub mod Logic
pub mod Connection
pub mod Contexts
pub mod Config
pub mod Startup
pub mod Server
