-- ===== src/Tests.antt =====
-- The theorems at concrete inputs.
pub mod Sample
pub mod Acl
pub mod Socks5
pub mod Upstream
pub mod Chain
pub mod Wire
pub mod Http
pub mod Server
pub mod Relay
pub mod Startup
