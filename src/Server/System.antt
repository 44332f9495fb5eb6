-- ===== src/Server/System.antt =====
-- apps/server/src/index.ts: the Server as a whole: the service's methods, the reports of Machines,
-- connections, the sweeps and revocation, each one step on the state.
pub mod Hooks
pub mod Steps
pub mod Transitions
pub mod Replays
pub mod Lifecycle
pub mod Supervision
pub mod Output
pub mod Stored
pub mod Limits
pub mod Interleaving
