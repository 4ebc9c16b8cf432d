-- ===== src/Oidc.antt =====
-- oidc/: the sign-in through the provider.
pub mod Flow
pub mod Claims
pub mod Kit
pub mod Callback
pub mod Exchange
pub mod Logout
pub mod Roles
pub mod Boot
pub mod Jwt
mod Tests
