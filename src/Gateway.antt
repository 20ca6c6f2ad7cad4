-- ===== src/Gateway.antt =====
-- The gateway seam: server-go/modules/economizer/gateway.go decides whether a reduced request may
-- be dispatched, and gateway_wire.go drives the request around it.
pub mod Decision
pub mod Wire
pub mod After
pub mod Outcome
pub mod Mutate
pub mod Restore
pub mod Answers
pub mod Tests
pub mod Pairing
