-- ===== src/Forfait.antt =====
-- porte/forfait: the plan that a space pays for, enforced.
pub mod Store
pub mod Checking
pub mod Persist
pub mod Restoring
mod Tests
