-- ===== src/Pg.antt =====
-- porte/pg: the identity tables and the stores over them.
pub mod Tables
pub mod Linking
pub mod Sessions
pub mod Erase
pub mod Links
pub mod Codes
pub mod Identities
pub mod Sealing
pub mod Resealing
mod Tests
