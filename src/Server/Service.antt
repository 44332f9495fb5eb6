-- ===== src/Server/Service.antt =====
-- apps/server/src/sessions.ts: the Session service, over the Session database and the Machines'
-- connections. A method runs on the whole state, returns or throws, and is one step: that other
-- requests may run between its awaits is not modelled.
pub mod World
pub mod Client
pub mod Admission
pub mod Principal
pub mod SessionRequests
pub mod CommandRequests
pub mod Supervision
