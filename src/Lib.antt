-- ===== src/Lib.antt =====
-- QtChatting: a gate server in C++ (server/gate_server) that registers users and resets their
-- passwords over HTTP, and a client in C++ with Qt (app) whose windows send it the requests.
--
-- The parts, and how they interact. The client's windows check a form and post it through HttpMgr,
-- which signals the reply to the windows of the kind that asked. The gate server reads one request
-- from each connection (HttpConnection), looks its path up in a table of handlers (LogicSystem), and
-- writes one response. A handler asks Redis for the code that was sent to an email, the verification
-- service for a new code through a pool of gRPC stubs (VarifyGrpcClient, kept in the ring buffer of
-- RingBuffer.hpp), and MariaDB for the users through SqlMgr, SqlDao and SqlPool. The verification
-- service (server/varify_server, in JavaScript) makes a code, stores it in Redis and mails it.
--
-- Which file models what:
--   Prelude                 what the other modules share; Prelude/Effects has the calls with state
--                           that return, throw, wait or are undefined, and Prelude/Rules their rules
--   Protocol                server/gate_server/include/common.h, app/detail/include/global.h
--   Ring                    server/gate_server/include/RingBuffer.hpp: `new`, `enqueue`, `dequeue`,
--                           `is_empty`, over the vector of nodes and the two indices
--   Rpc                     server/gate_server/src/VarifyGrpcClient.cpp: the pool and the client
--   Sql/Driver, Sql/Laws    the MariaDB client and BCrypt as parameters, and the SQL relied on;
--                           Laws/Keys has a table with a unique key and one without
--   Sql/Pool, Dao, Mgr      server/gate_server/src/SqlPool.cpp, SqlDao.cpp, SqlMgr.cpp
--   Gate/Outside            the state that the handlers share, and the libraries that they call
--   Gate/Logic              server/gate_server/src/LogicSystem.cpp: one `answer_` per JSON handler;
--                           Logic/Accounts has the accounts that the handlers promise, and
--                           Logic/Interleaving registrations and resets in steps that interleave
--   Gate/Connection         server/gate_server/src/HttpConnection.cpp, and handleGet and handlePost;
--                           Connection/Life has its pending operations as a step relation, and
--                           Connection/Users the table of users over any requests, and
--                           Connection/Accounts what they are answered with
--   Gate/Contexts           server/gate_server/src/IOcontextPool.cpp: the turn of the contexts,
--                           and in Contexts/Threads the constructor and stop
--   Gate/Server             server/gate_server/src/CServer.cpp: the accept loop
--   Gate/Config             server/gate_server/src/ConfigMgr.cpp: the loading and the look-ups
--   Gate/Startup            what main.cpp, RedisMgr.cpp and the constructors make of the settings, and
--                           tryConnectRedis
--   Varify                  server/varify_server: server.js, redis.js and const.js
--   Flow                    the two servers together, with one Redis between them; Flow/Window and
--                           Flow/Reset have a window and a handler together, and Flow/Network
--                           the way from the window through both programs and back
--   Client/Http             app/detail/source/httpmgr.cpp
--   Client/Register, Reset  app/src/RegisterWidget.cpp, app/src/ResetWidget.cpp: one function per
--                           slot, on a record of the fields, the buttons, the timer and the posts
--   Client/Events           the event loop of a window, which RegisterWidget::bind and
--                           ResetWidget::bind fill in; Register/Life and Reset/Life instantiate it
--   Client/App              app/src/LoginWidget.cpp and app/src/main.cpp: the windows that are open
--   Client/Window           app/widgets/FramelessWindow.cpp: the drag, and in Window/Title the title,
--                           the background and the button to close
--   Client/Login            app/src/LoginWidget.cpp: the start of the login window, and F6
--   Tests                   runs at concrete inputs, over the libraries' stand-ins of Tests/Fakes
--
-- Conventions. A field or a function has the source's name in lower case with underscores. A
-- size_t is a native number with its wrap-around at 2 ^ 64 written out. A throw, a wait and
-- undefined behaviour are outcomes of `Exec`. A method under a mutex is one step, and so is a
-- handler of a connection, which is made when the handler can end. MariaDB, BCrypt, Redis, gRPC,
-- JsonCpp, Boost and Qt are not in the repository, and the packages of Node.js are other
-- projects': they are parameters, over an unknown `World`, and `Sql.Laws.Working`,
-- `Sql.Laws.Keys.HasKey`, `Sql.Laws.Keys.TakesAny`, `Sql.Mgr.Correct.Hashes`,
-- `Sql.Dao.Statements.Counting`, `Varify.Correct.Delivers`, `Gate.Logic.Users.IsApart`,
-- `Flow.Window.Agrees`, `Flow.Network.Network` and `Client.Window.Title.Clears` are what the
-- theorems rely on, where they do. The member `Capacity` of the ring, which the constructor
-- leaves uninitialised, is an argument of `new`. No definition runs on fuel but `ping_loop`,
-- whose five rounds are the source's, and the digits of a number, which are at most as many as
-- its value counts.
--
-- Not modelled: the ring under threads that do not hold the pool's mutex, which the program has
-- none of; debug.hpp, a copy of another project's header for debug output; what the threads of
-- the I/O contexts run, and signals; requests for a code that interleave with others, and calls
-- within a method of SqlMgr that interleave; the layout, the shadow and the fonts of the windows;
-- the settings of the verification service and its registration with gRPC.
pub mod Prelude
pub mod Protocol
pub mod Ring
pub mod Rpc
pub mod Sql
pub mod Gate
pub mod Client
pub mod Varify
pub mod Flow
pub mod Tests
