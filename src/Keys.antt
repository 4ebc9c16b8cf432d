-- ===== src/Keys.antt =====
-- keys/ and pg/keys.go: the API keys of a service and their daily usage.
pub mod Store
pub mod Manager
pub mod Serving
pub mod Revoking
pub mod Minting
pub mod Introducing
pub mod Quota
mod Tests
