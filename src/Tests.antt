-- ===== src/Tests.antt =====
-- Runs of the definitions at concrete inputs.
mod Fakes
mod Buffer
mod Stubs
mod Database
mod Server
mod Windows
mod Mail
mod Startup
mod Serving
mod Network
mod Told
mod Schedules
