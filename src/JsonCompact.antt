-- ===== src/JsonCompact.antt =====
-- server-go/modules/economizer/json_compact.go: the strict validator and the byte-preserving copy
-- that removes the whitespace outside strings.
pub mod Lexical
pub mod Parser
pub mod Copy
pub mod Literals
pub mod Compact
pub mod Progress
pub mod Shorter
pub mod Fuel
pub mod Theorems
pub mod Tests
