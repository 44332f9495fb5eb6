-- ===== src/Client.antt =====
-- apps/client/src: what a Machine's Client keeps of its Commands.
pub mod Journal
pub mod Buffer
pub mod Deadlines
pub mod Link
pub mod Authority
pub mod Commands
pub mod Emission
pub mod Events
mod Tests
mod EventTests
