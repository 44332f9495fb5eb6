-- ===== src/Server.antt =====
-- apps/server/src: the Session database, the Session service over it, and the limits of its web API.
pub mod Store
pub mod Service
pub mod System
pub mod Gateway
pub mod Control
pub mod Privacy
mod Tests
mod PrivacyTests
mod GatewayTests
