-- ===== src/Client.antt =====
-- The Qt client: app/detail/source/httpmgr.cpp, app/src/RegisterWidget.cpp, app/src/ResetWidget.cpp,
-- app/src/LoginWidget.cpp, app/src/main.cpp, app/widgets/FramelessWindow.cpp.
pub mod Qt
pub mod Http
pub mod Countdown
pub mod Events
pub mod Register
pub mod Reset
pub mod Window
pub mod Login
pub mod App
