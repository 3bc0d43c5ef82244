-- ===== src/Sql.antt =====
-- The gate server's user database: server/gate_server/src/SqlPool.cpp, SqlDao.cpp, SqlMgr.cpp.
pub mod Driver
pub mod Pool
pub mod Dao
pub mod Mgr
pub mod Laws
