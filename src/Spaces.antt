-- ===== src/Spaces.antt =====
-- spaces: membership authorization. The types and the store's interface (Model), the role
-- ladder, the guard, the in-memory store of spaces/spacestest, and what they promise together.
pub mod Model
pub mod Ladder
pub mod Guard
pub mod Memory
pub mod Escalation
pub mod Leaving
mod Tests
