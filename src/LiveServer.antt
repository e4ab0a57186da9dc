-- ===== src/LiveServer.antt =====
-- The HTTP service of extension/tools/cmd/live-server/main.go.
pub mod Address
pub mod Risk
pub mod Proxy
pub mod Requests
pub mod Handlers
pub mod Server
pub mod Allowed
pub mod Effects
pub mod Replies
pub mod Threads
pub mod Start
mod Tests
