-- ===== src/MagicLink.antt =====
-- porte/magiclink: sign-in by a link in a mail, over the links of porte/pg and the session manager.
pub mod Kit
pub mod Counting
pub mod Overlap
pub mod Limits
pub mod Consuming
pub mod Memory
mod Tests
