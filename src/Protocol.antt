-- ===== src/Protocol.antt =====
-- packages/protocol/src/session.ts: the records that Server and Client share, and the two decisions
-- on them. Identifiers are texts that are compared only for equality; an ISO time is the number of
-- its milliseconds. What the zod schemas demand of the shape and the length of texts is not modelled.
pub mod Session
pub mod Policy
pub mod Decision
pub mod Messages
mod Tests
