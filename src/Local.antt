-- ===== src/Local.antt =====
-- porte/local: sign-up and sign-in by password, over the stores of porte/pg and the session manager.
pub mod Password
pub mod Kit
pub mod Hashing
pub mod Signing
pub mod Changing
mod Tests
