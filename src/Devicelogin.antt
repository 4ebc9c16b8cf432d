-- ===== src/Devicelogin.antt =====
-- devicelogin/: a command line's sign-in through the provider's device grant.
pub mod Transport
pub mod Discover
pub mod Poll
pub mod Login
pub mod Ending
pub mod Origins
mod Tests
