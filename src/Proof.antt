-- ===== src/Proof.antt =====
-- The proof planner of server-go/modules/economizer/proof.go: its money, the identity and coverage
-- of a proof, its costs, and the decision against the registry.
pub mod Money
pub mod Validate
pub mod Coverage
pub mod Cost
pub mod Cheaper
pub mod Evaluate
pub mod Tests
