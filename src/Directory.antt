-- ===== src/Directory.antt =====
-- directory/: the erasures that an app polls for.
pub mod Deletions
pub mod Handled
pub mod Paging
mod Tests
