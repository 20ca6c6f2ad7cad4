-- ===== src/Repair.antt =====
-- server-go/modules/economizer/repair.go: the functions that put a transcript back into a shape
-- that a provider accepts. A transcript is the list of an array's items; a function that changes
-- it in place returns the new list and the number of its repairs.
pub mod IdSet
pub mod Collect
pub mod Scan
pub mod Orphans
pub mod History
pub mod Pairing
mod Loops
mod Strategy
mod Blocks
pub mod Openai
pub mod Responses
pub mod Anthropic
pub mod Sanitize
mod Empty
mod Again
pub mod Theorems
pub mod Twice
pub mod Zero
pub mod Matched
mod Tests
