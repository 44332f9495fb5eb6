-- ===== src/Server/Control.antt =====
-- apps/server/src/control.ts: the limits of the Server's web API.
pub mod Concurrency
pub mod Rate
pub mod Replay
pub mod LiveTokens
pub mod Scoped
mod Tests
mod RateTests
mod LiveTests
